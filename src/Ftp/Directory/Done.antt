-- ===== src/Ftp/Directory/Done.antt =====
-- What the download of a file of a directory has that gave no error.
use godown.Base.{
  ℕ, ◌+◌, ◌≡◌, sym, ◌∙◌, ap, subst, Bool, true, false, none, List, [], ◌∷◌, ◌⊎◌, inl, inr, arith,
}
use godown.Base.Int.{ℤ, pos}
use godown.Ftp.Listing.{DirectoryEntry}
use godown.Ftp.Transfer.{returned}
use godown.Ftp.Run.{Finished}
use godown.Ftp.Run.Entry.{is_known_entry, IsMatch, entry-IsWhole}
use godown.Ftp.Directory.{Visit, fetch}

abbrev pub files_of : List DirectoryEntry → List DirectoryEntry
files_of [] = []
files_of (e ∷ entries) = elim e.directory [ true ↦ files_of entries | false ↦ e ∷ files_of entries ]

pub skips_folder :
    (e : DirectoryEntry) (entries : List DirectoryEntry)
    → e.directory ≡ true
    → files_of (e ∷ entries) ≡ files_of entries
skips_folder e entries h =
    ap (λ (b : Bool). elim b [ true ↦ files_of entries | false ↦ e ∷ files_of entries ]) h

pub keeps_file :
    (e : DirectoryEntry) (entries : List DirectoryEntry)
    → e.directory ≡ false
    → files_of (e ∷ entries) ≡ e ∷ files_of entries
keeps_file e entries h =
    ap (λ (b : Bool). elim b [ true ↦ files_of entries | false ↦ e ∷ files_of entries ]) h

abbrev pub entries_of : List (DirectoryEntry × Visit) → List DirectoryEntry
entries_of [] = []
entries_of ((e, v) ∷ fetched) = e ∷ entries_of fetched

module _ (max_retries : ℤ) where
  abbrev pub bytes_of : List (DirectoryEntry × Visit) → ℕ
  bytes_of [] = 0
  bytes_of ((e, v) ∷ fetched) = (fetch max_retries e v).outcome.received + bytes_of fetched

  -- The download of a file that gave no error: it has all bytes where the size is known, and it was
  -- moved to its place, or its output had the digest of its marker.
  pub record IsDone (e : DirectoryEntry) (v : Visit) : Type 0 where
    pub ending : (fetch max_retries e v).outcome.end ≡ returned none
    pub sized :
        (is_known_entry e.size max_retries ≡ false)
        ⊎ (pos (fetch max_retries e v).outcome.received ≡ e.size)
    pub there :
        IsMatch e.size max_retries v.output (fetch max_retries e v)
        ⊎ ((fetch max_retries e v).moved ≡ true)

  abbrev pub AllDone : List (DirectoryEntry × Visit) → Type 0
  AllDone [] = Unit {0}
  AllDone ((e, v) ∷ fetched) = IsDone e v × AllDone fetched

  pub fetch-IsDone :
      (e : DirectoryEntry) (v : Visit)
      → (fetch max_retries e v).outcome.end ≡ returned none
      → IsDone e v
  fetch-IsDone e v ended =
      elim (entry-IsWhole e.size max_retries v.output v.partial v.cut_error v.attempts v.finish) [
        | inl match ↦ record {
          ending = ended;
          sized =
              subst
                (λ (r : Finished).
                  (is_known_entry e.size max_retries ≡ false) ⊎ (pos r.outcome.received ≡ e.size))
                (sym match.taken) match.fits;
          there = inl match;
        }
        | inr (inl untouched) ↦
            let failed = untouched.ending in
            let impossible : ⊥ = ground (arith, sym ended ∙ failed) in elim impossible [ ]
        | inr (inr whole) ↦ elim whole.ending [
          | inl (x, failed) ↦
              let impossible : ⊥ = ground (arith, sym ended ∙ failed) in elim impossible [ ]
          | inr (inl cut) ↦
              let impossible : ⊥ = ground (arith, sym ended ∙ cut) in elim impossible [ ]
          | inr (inr (_, moved, all)) ↦ record { ending = ended; sized = all; there = inr moved }
        ]
      ]
