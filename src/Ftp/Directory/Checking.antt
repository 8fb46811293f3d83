-- ===== src/Ftp/Directory/Checking.antt =====
-- What an entry of a stored listing has that a run takes.
use godown.Base.{◌≡◌, refl, sym, ◌∙◌, Bool, true, false, inl, inr, arith, if◌then◌else◌, Bool-cases}
use godown.Base.Int.{ltb_ℤ, negsuc}
use godown.Core.Output.{Result, ok, err, ◌>>=◌}
use godown.Ftp.Names.{Text, Unicode, eq_text}
use godown.Ftp.Names.Safe.{IsPlain}
use godown.Ftp.Listing.{split, join, Seen, safe_relative_path, DirectoryEntry}
use godown.Ftp.Listing.Parts.{Checked-cases}
use godown.Ftp.Listing.Again.{AllSafe, safe_parts, safe_relative_path_again}
use godown.Ftp.Listing.Apart.{eq_text→eq}
use godown.Ftp.Root.{unless}
use godown.Ftp.Root.Owned.{unless_ok}
use godown.Ftp.Directory.{
  Paths, remote_child, directory_output_path, Visit, check_item, check_file, check_entry,
}

pub bind_ok {ℓ κ} :
    {A : Type ℓ} {B : Type κ} (x : Result A) (f : A → Result B) (b : B)
    → (x >>= f) ≡ ok b
    → (a : A) × (x ≡ ok a) × (f a ≡ ok b)
bind_ok (ok a) f b h = (a, refl, h)
bind_ok (err e) f b h = let impossible : ⊥ = ground (arith, h) in elim impossible [ ]

module _ (unicode : Unicode) where
  -- The path of the entry is made of safe names.
  pub record IsItem (e : DirectoryEntry) : Type 0 where
    pub safe : AllSafe unicode (safe_parts unicode (split e.relative_path))
    pub made : join (safe_parts unicode (split e.relative_path)) ≡ e.relative_path
    pub known : ltb_ℤ e.size (negsuc 0) ≡ false

  module _ (paths : Paths) where
    check_item-IsItem :
        (seen seen' : Seen) (e : DirectoryEntry)
        → IsPlain unicode
        → check_item unicode paths seen e ≡ ok seen'
        → IsItem e
    unfolding check_item
    check_item-IsItem seen seen' e plain h =
        elim (Checked-cases (safe_relative_path unicode e.relative_path e.directory seen)) [
          | inr (why, failed) ↦
              let impossible : ⊥ = ground (arith, h, failed) in elim impossible [ ]
          | inl (r, taken) ↦
              let (local, safe, again) =
                safe_relative_path_again unicode e.relative_path e.directory seen r plain taken in
              elim (Bool-cases (eq_text r.0 e.relative_path)) [
                | inr apart ↦
                    let impossible : ⊥ = ground (arith, h, taken, apart) in elim impossible [ ]
                | inl same ↦ record {
                  safe = safe;
                  made = sym local ∙ eq_text→eq r.0 e.relative_path same;
                  known = ground (arith, h, taken, same);
                }
              ]
        ]

    module _ (task_path root markers remote_root : Text) where
      -- Where a file of the run comes from and goes to.
      pub record IsPlaced (e : DirectoryEntry) : Type 0 where
        pub child : remote_child paths remote_root e.remote_path ≡ true
        pub inside :
            (target : Text) × (directory_output_path paths root e.relative_path ≡ ok target)

      file_child :
          (v : Visit) (e : DirectoryEntry) (seen seen' : Seen)
          → check_file unicode paths task_path root markers remote_root v e seen ≡ ok seen'
          → remote_child paths remote_root e.remote_path ≡ true
      unfolding check_file
      file_child v e seen seen' h =
          elim (Bool-cases (remote_child paths remote_root e.remote_path)) [
            | inl child ↦ child
            | inr outside ↦ let impossible : ⊥ = ground (arith, h, outside) in elim impossible [ ]
          ]

      place :
          (b : Bool) (v : Visit) (e : DirectoryEntry) (seen seen' : Seen)
          → (if b
              then unless v.mkdir_error (ok seen)
              else check_file unicode paths task_path root markers remote_root v e seen)
            ≡ ok seen'
          → b ≡ false
          → remote_child paths remote_root e.remote_path ≡ true
      place false v e seen seen' h same = file_child v e seen seen' h
      place true v e seen seen' h same =
          let impossible : ⊥ = ground (arith, same) in elim impossible [ ]

      -- An entry that the run takes has a safe path, and a file of it is placed.
      pub check_entry-IsItem :
          (v : Visit) (seen seen' : Seen) (e : DirectoryEntry)
          → IsPlain unicode
          → check_entry unicode paths task_path root markers remote_root v seen e ≡ ok seen'
          → IsItem e × (e.directory ≡ false → IsPlaced e)
      unfolding check_entry
      check_entry-IsItem v seen seen' e plain h =
          let (seen2, item, h2) =
            bind_ok (check_item unicode paths seen e) _ seen'
              (unless_ok v.context_error _ seen' h) in
          let (target, inside, h3) =
            bind_ok (directory_output_path paths root e.relative_path) _ seen' h2 in
          (
            check_item-IsItem seen seen2 e plain item,
            λ file. record {
              child = place e.directory v e seen2 seen' h3 file;
              inside = (target, inside);
            },
          )
