-- ===== src/Ftp/Run/Entry.antt =====
-- How the download of a file in a directory ends.
use godown.Base.{
  ℕ, ◌≡◌, refl, ◌∙◌, ap, Bool, true, false, not, ◌&&◌, Option, none, some, List, [], String,
  str_eq→eq, ◌⊎◌, inl, inr, arith, if◌then◌else◌, Bool-cases, Option-cases,
}
use godown.Base.Int.{ℤ, pos, ltb_ℤ, eq_ℤ}
use godown.Core.Output.{Error}
use godown.Ftp.Transfer.{returned, Outcome, ends}
use godown.Ftp.Transfer.Counted.{IsCounted}
use godown.Ftp.Run.{
  Attempt, PartStat, absent, part, unreadable, Finish, Finished, stays, ends_with, with_cut,
  size_mismatch, OutputStat, completed_file_matches, is_stale_entry, finish_entry, entry_from,
  download_directory_file,
}
use godown.Ftp.Run.Ending.{
  found_size, IsWhole, cut-IsWhole, move-IsWhole, sized-IsWhole, on_ended, matched,
}
use godown.Ftp.Run.Counted.{try_all-IsCounted, ends_with-IsCounted}

module _ (size max_retries : ℤ) where
  abbrev pub is_known_entry : Bool
  is_known_entry = not (ltb_ℤ size (pos 0))

  marked-IsWhole :
      (e : Option Error) (n : ℕ) (o : Outcome)
      → IsCounted n o
      → (is_known_entry ≡ false) ⊎ (pos o.received ≡ size)
      → IsWhole is_known_entry size n (record { outcome = ends_with e o; moved = true })
  marked-IsWhole none n o h all = record {
    counted = ends_with-IsCounted n none o h;
    ending = inr (inr (refl, refl, all));
  }
  marked-IsWhole (some e) n o h all = record {
    counted = ends_with-IsCounted n (some e) o h;
    ending = inl (e, refl);
  }

  finish_entry-IsWhole :
      (f : Finish) (n : ℕ) (o : Outcome)
      → IsCounted n o
      → IsWhole is_known_entry size n (finish_entry size max_retries f o)
  unfolding finish_entry
  finish_entry-IsWhole f n o h = on_ended is_known_entry size n o.end o _ h refl (λ ended.
      sized-IsWhole is_known_entry size n o _ size_mismatch h (λ all.
        move-IsWhole is_known_entry size n f o _ h (marked-IsWhole f.marker_error n o h all)))

  entry_from-IsWhole :
      (attempts : List Attempt) (f : Finish) (n : ℕ)
      → IsWhole is_known_entry size n (entry_from size max_retries attempts f n)
  entry_from-IsWhole attempts f n =
      finish_entry-IsWhole f n _
        (record { counted = (try_all-IsCounted size max_retries attempts 0 n).counted })

  -- An error before any step.
  pub record IsUntouched (r : Finished) : Type 0 where
    pub error : Error
    pub ending : r.outcome.end ≡ returned (some error)
    pub steps : r.outcome.steps ≡ []

  abbrev early : Error → Finished
  early e = stays (ends 0 (returned (some e)))

  early-IsUntouched : (e : Error) → IsUntouched (early e)
  early-IsUntouched e = record { error = e; ending = refl; steps = refl }

  abbrev OneOf : ℕ → Finished → Type 0
  OneOf n r = IsUntouched r ⊎ IsWhole is_known_entry size n r

  unless_failed :
      (n : ℕ) (x : Option Error) (good : Finished)
      → OneOf n good
      → OneOf n (elim x [ some e ↦ early e | none ↦ good ])
  unless_failed n none good h = h
  unless_failed n (some e) good h = inl (early-IsUntouched e)

  stale_or_not :
      (n : ℕ) (b : Bool) (r r' : Finished) → OneOf n r → OneOf n r' → OneOf n (if b then r else r')
  stale_or_not n true r r' h k = h
  stale_or_not n false r r' h k = k

  where_not :
      (n : ℕ) (b : Bool) (r r' : Finished) → b ≡ false → OneOf n r' → OneOf n (if b then r else r')
  where_not n false r r' e h = h
  where_not n true r r' e h = let impossible : ⊥ = ground (arith, e) in elim impossible [ ]

  from_part :
      (partial : PartStat) (cut_error : Option Error) (attempts : List Attempt) (f : Finish)
      → OneOf (found_size partial) (elim partial [
        | unreadable e ↦ early e
        | absent ↦ entry_from size max_retries attempts f 0
        | part n ↦
            if is_stale_entry size max_retries n
            then elim cut_error [
              | some e ↦ early e
              | none ↦ with_cut (entry_from size max_retries attempts f 0)
            ]
            else entry_from size max_retries attempts f n
      ])
  from_part (unreadable e) cut_error attempts f = inl (early-IsUntouched e)
  from_part absent cut_error attempts f = inr (entry_from-IsWhole attempts f 0)
  from_part (part n) cut_error attempts f =
      stale_or_not n (is_stale_entry size max_retries n) _ _
        (unless_failed n cut_error _
          (inr (cut-IsWhole is_known_entry size n _ (entry_from-IsWhole attempts f 0))))
        (inr (entry_from-IsWhole attempts f n))

  -- What a file that matches its marker has: the size, where it is known, and the digest that was
  -- recorded when it was whole.
  pub record IsMatch (output : OutputStat) (r : Finished) : Type 0 where
    pub bytes : ℕ
    pub digest : String
    pub found : output.size ≡ some bytes
    pub fits : (is_known_entry ≡ false) ⊎ (pos bytes ≡ size)
    pub hashed : output.digest ≡ some digest
    pub recorded : output.marker ≡ some digest
    pub taken : r ≡ stays (ends bytes (returned none))

  match_size :
      (output : OutputStat) (n : ℕ)
      → output.size ≡ some n
      → completed_file_matches size output ≡ true
      → (is_known_entry && not (eq_ℤ (pos n) size)) ≡ false
  unfolding completed_file_matches
  match_size output n found h = elim (Bool-cases (is_known_entry && not (eq_ℤ (pos n) size))) [
    | inr right ↦ right
    | inl wrong ↦ let impossible : ⊥ = ground (arith, h, found, wrong) in elim impossible [ ]
  ]

  match_digest :
      (output : OutputStat) (n : ℕ)
      → output.size ≡ some n
      → completed_file_matches size output ≡ true
      → (d : String) × (output.digest ≡ some d) × (output.marker ≡ some d)
  unfolding completed_file_matches
  match_digest output n found h = elim (Option-cases output.marker) [
    | inl none_there ↦
        let impossible : ⊥ = ground (arith, h, found, none_there) in elim impossible [ ]
    | inr (want, marker) ↦ elim (Option-cases output.digest) [
      | inl none_there ↦
          let impossible : ⊥ = ground (arith, h, found, marker, none_there) in elim impossible [ ]
      | inr (got, hashed) ↦
          let same = str_eq→eq want got (ground (arith, h, found, marker, hashed)) in
          (got, hashed, marker ∙ ap some same)
    ]
  ]

  match_found :
      (output : OutputStat)
      → completed_file_matches size output ≡ true
      → (n : ℕ) × (output.size ≡ some n)
  unfolding completed_file_matches
  match_found output h = elim (Option-cases output.size) [
    | inr found ↦ found
    | inl none_there ↦ let impossible : ⊥ = ground (arith, h, none_there) in elim impossible [ ]
  ]

  module _ (output : OutputStat) (partial : PartStat) (cut_error : Option Error) where
    matching :
        (attempts : List Attempt) (f : Finish)
        → completed_file_matches size output ≡ true
        → IsMatch output
            (download_directory_file size max_retries output partial cut_error attempts f)
    unfolding download_directory_file
    matching attempts f h =
        let (n, found) = match_found output h in
        let (d, hashed, marker) = match_digest output n found h in
        record {
          bytes = n;
          digest = d;
          found = found;
          fits = matched is_known_entry size n (match_size output n found h);
          hashed = hashed;
          recorded = marker;
          taken = ground (arith, h, found);
        }

    not_matching :
        (attempts : List Attempt) (f : Finish)
        → completed_file_matches size output ≡ false
        → OneOf
            (found_size partial)
            (download_directory_file size max_retries output partial cut_error attempts f)
    unfolding download_directory_file
    not_matching attempts f h =
        where_not (found_size partial) (completed_file_matches size output) _ _ h (
          unless_failed (found_size partial) output.stat_error _
            (from_part partial cut_error attempts f))

    -- A file of a directory is taken as it stands only if it has its size and the digest of its
    -- marker. Every other download of it ends with an error before it touches the disk, or counts
    -- the bytes that lie in the partial file one behind the other; and if it gives no error, the
    -- file was moved to its place, with all bytes where the size is known.
    pub entry-IsWhole :
        (attempts : List Attempt) (f : Finish)
        → IsMatch output
            (download_directory_file size max_retries output partial cut_error attempts f)
          ⊎ IsUntouched
              (download_directory_file size max_retries output partial cut_error attempts f)
          ⊎ IsWhole is_known_entry size
              (found_size partial)
              (download_directory_file size max_retries output partial cut_error attempts f)
    entry-IsWhole attempts f = elim (Bool-cases (completed_file_matches size output)) [
      | inl h ↦ inl (matching attempts f h)
      | inr h ↦ inr (not_matching attempts f h)
    ]
