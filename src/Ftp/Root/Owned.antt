-- ===== src/Ftp/Root/Owned.antt =====
-- That a directory is a task's own for the worker exactly as it is for a cleanup.
use godown.Base.{
  ◌≡◌, refl, sym, ◌∙◌, ap, subst, Bool, true, false, Option, none, some, String, str_eq_self, arith,
  ◌⊎◌, inl, inr, if◌then◌else◌,
}
use godown.Core.Output.{
  Error, Result, ok, err, Entry, missing, fault, entry, Host, owner_marker, another_task,
  verify_marker, verify_ftp_directory_owner,
}
use godown.Ftp.Root.{Making, unless, marker_text, make_root, check_marker, prepare_directory_root}

abbrev pub is_ok {ℓ} : {A : Type ℓ} → Result A → Bool
is_ok (ok a) = true
is_ok (err e) = false

pub unless_ok {ℓ} :
    {A : Type ℓ} (x : Option Error) (r : Result A) (a : A) → unless x r ≡ ok a → r ≡ ok a
unless_ok none r a h = h
unless_ok (some e) r a h = let impossible : ⊥ = ground (arith, h) in elim impossible [ ]

making_text :
    (m : Making) (task_id : String) (made : Option String)
    → make_root m task_id ≡ ok made
    → some (marker_text task_id) ≡ made
unfolding make_root
making_text m task_id made h =
    let last = unless_ok m.close_error _ made (
      unless_ok m.write_error _ made
        (unless_ok m.create_error _ made (unless_ok m.mkdir_error _ made h))) in
    ground (arith, last)

entry_cases :
    (x : Entry)
    → (x ≡ missing) ⊎ ((e : Error) × (x ≡ fault e)) ⊎ ((d s r : Bool) × (x ≡ entry d s r))
entry_cases missing = inl refl
entry_cases (fault e) = inr (inl (e, refl))
entry_cases (entry d s r) = inr (inr (d, s, r, refl))

-- What a host shows of a root behind the preparation: what it showed before, if the root was there,
-- and else a directory with the marker that was written.
pub data Shows (before after : Host) (root : String) : Option String → Type 0 where
  as_before : before ≡ after → Shows before after root none
  as_made :
      {text : String}
      → after.lstat root ≡ entry true false false
      → after.lstat (after.join root owner_marker) ≡ entry false false true
      → after.read_file (after.join root owner_marker) ≡ ok text
      → Shows before after root (some text)

module _ (host : Host) (root task_id : String) where
  marker_agrees : is_ok (check_marker host root task_id) ≡ is_ok (verify_marker host root task_id)
  unfolding check_marker verify_marker
  marker_agrees = ground arith

  -- A root that is there is accepted exactly if a cleanup accepts it.
  pub there_agrees :
      (m : Making) (is_dir is_symlink is_regular : Bool)
      → host.lstat root ≡ entry is_dir is_symlink is_regular
      → is_ok (prepare_directory_root host m root task_id)
        ≡ is_ok (verify_ftp_directory_owner host root task_id)
  unfolding prepare_directory_root verify_ftp_directory_owner
  there_agrees m is_dir is_symlink is_regular h = ground (arith, h, marker_agrees)

  made_there :
      (m : Making) (made : Option String)
      → host.lstat root ≡ missing
      → prepare_directory_root host m root task_id ≡ ok made
      → make_root m task_id ≡ ok made
  unfolding prepare_directory_root
  made_there m made none_there h = ground (arith, h, none_there)

  -- Where nothing was made, the root was there.
  found_there :
      (m : Making)
      → prepare_directory_root host m root task_id ≡ ok none
      → (is_dir is_symlink is_regular : Bool) × (host.lstat root
          ≡ entry is_dir is_symlink is_regular)
  unfolding prepare_directory_root make_root
  found_there m h = elim (entry_cases (host.lstat root)) [
    | inl none_there ↦
        let impossible : ⊥ =
          ground (arith, making_text m task_id none (made_there m none none_there h)) in
        elim impossible [ ]
    | inr (inl (e, failed)) ↦ let impossible : ⊥ = ground (arith, h, failed) in elim impossible [ ]
    | inr (inr there) ↦ there
  ]

  -- Where a root was made, none was there.
  made_text :
      (m : Making) (text : String)
      → prepare_directory_root host m root task_id ≡ ok (some text)
      → some (marker_text task_id) ≡ some text
  unfolding prepare_directory_root check_marker
  made_text m text h = elim (entry_cases (host.lstat root)) [
    | inl none_there ↦ making_text m task_id (some text) (made_there m (some text) none_there h)
    | inr (inl (e, failed)) ↦ let impossible : ⊥ = ground (arith, h, failed) in elim impossible [ ]
    | inr (inr (d, s, r, there)) ↦
        let impossible : ⊥ = ground (arith, h, there) in elim impossible [ ]
  ]

verified_as_made :
    (after : Host) (root task_id text : String)
    → after.lstat root ≡ entry true false false
    → after.lstat (after.join root owner_marker) ≡ entry false false true
    → after.read_file (after.join root owner_marker) ≡ ok text
    → after.trim_space text ≡ task_id
    → verify_ftp_directory_owner after root task_id ≡ ok tt
unfolding verify_ftp_directory_owner verify_marker
verified_as_made after root task_id text there marker held trimmed =
    rw (verify_ftp_directory_owner, there, verify_marker, marker, held, trimmed)
      (ap (λ (b : Bool). if b then ok tt else err (another_task root)) (str_eq_self task_id))

ok_verified : (r : Result (Unit {0})) → is_ok r ≡ true → r ≡ ok tt
ok_verified (ok a) h = refl
ok_verified (err e) h = let impossible : ⊥ = ground (arith, h) in elim impossible [ ]

-- A root that the worker prepares without an error is one that a cleanup of the same task takes for
-- its own: whether it was there before, or was made with its marker, which is then what is read
-- back. It is assumed that the id of the task has no blanks at its ends.
pub prepared_root_is_owned :
    (host after : Host) (m : Making) (root task_id : String) (made : Option String)
    → prepare_directory_root host m root task_id ≡ ok made
    → Shows host after root made
    → after.trim_space (marker_text task_id) ≡ task_id
    → verify_ftp_directory_owner after root task_id ≡ ok tt
prepared_root_is_owned host after m root task_id none h (as_before same) trims =
    let (d, s, r, there) = found_there host root task_id m h in
    let agrees = there_agrees host root task_id m d s r there in
    ok_verified (verify_ftp_directory_owner after root task_id) (
      subst (λ (x : Host). is_ok (verify_ftp_directory_owner x root task_id) ≡ true) same
        (sym agrees ∙ ap is_ok h))
prepared_root_is_owned host after m root task_id (some text) h (as_made there marker held) trims =
    let written : marker_text task_id ≡ text =
      ground (arith, made_text host root task_id m text h) in
    verified_as_made after root task_id text there marker held
      (ap after.trim_space (sym written) ∙ trims)
