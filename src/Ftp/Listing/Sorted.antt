-- ===== src/Ftp/Listing/Sorted.antt =====
-- What listDirectory returns.
use godown.Base.{
  ℕ, suc, ◌≤◌, ◌≡◌, refl, ◌∙◌, ap, subst, Bool, Option, List, [], ◌∷◌, inl, inr, arith, length,
  if◌then◌else◌, Bool-cases,
}
use godown.Base.Int.{ℤ}
use godown.Ftp.Names.{Text, Unicode}
use godown.Ftp.Names.Safe.{IsPlain}
use godown.Ftp.Listing.{
  walk_failed, refused, accepted, Seen, Walked, DirectoryEntry, max_int64, max_directory_entries,
  Listing, with_slash, lt_text, insert_entry, sort_entries, take_all, nothing_listed,
  list_directory,
}
use godown.Ftp.Listing.Parts.{bind_accepted}
use godown.Ftp.Listing.Kept.{take_all-IsListed}
use godown.Ftp.Listing.Whole.{IsRecorded, AllRecorded, count_key, nothing-IsListed}

module _ (unicode : Unicode) where
  insert-AllRecorded :
      (seen : Seen) (e : DirectoryEntry) (entries : List DirectoryEntry)
      → IsRecorded unicode seen e
      → AllRecorded unicode seen entries
      → AllRecorded unicode seen (insert_entry e entries)
  unfolding insert_entry
  insert-AllRecorded seen e [] h hs = (h, tt)
  insert-AllRecorded seen e (f ∷ entries) h hs =
      let rest = insert-AllRecorded seen e entries h hs.1 in
      elim (Bool-cases (lt_text f.relative_path e.relative_path)) [
        | inl before ↦ rw before (hs.0, rest)
        | inr behind ↦ rw behind (h, hs)
      ]

  sort-AllRecorded :
      (seen : Seen) (entries : List DirectoryEntry)
      → AllRecorded unicode seen entries
      → AllRecorded unicode seen (sort_entries entries)
  unfolding sort_entries
  sort-AllRecorded seen [] h = tt
  sort-AllRecorded seen (e ∷ entries) h =
      insert-AllRecorded seen e (sort_entries entries) h.0 (sort-AllRecorded seen entries h.1)

  count_key-insert :
      (k : Text) (e : DirectoryEntry) (entries : List DirectoryEntry)
      → count_key unicode k (insert_entry e entries) ≡ count_key unicode k (e ∷ entries)
  unfolding insert_entry
  count_key-insert k e [] = refl
  count_key-insert k e (f ∷ entries) = ground (arith, count_key-insert k e entries)

  count_key-sort :
      (k : Text) (entries : List DirectoryEntry)
      → count_key unicode k (sort_entries entries) ≡ count_key unicode k entries
  unfolding sort_entries
  count_key-sort k [] = refl
  count_key-sort k (e ∷ entries) =
      count_key-insert k e (sort_entries entries) ∙ ground (arith, count_key-sort k entries)

  length-insert :
      (e : DirectoryEntry) (entries : List DirectoryEntry)
      → length (insert_entry e entries) ≡ suc (length entries)
  unfolding insert_entry
  length-insert e [] = refl
  length-insert e (f ∷ entries) = ground (arith, length-insert e entries)

  length-sort : (entries : List DirectoryEntry) → length (sort_entries entries) ≡ length entries
  unfolding sort_entries
  length-sort [] = refl
  length-sort (e ∷ entries) = length-insert e (sort_entries entries) ∙ ap suc (length-sort entries)

  abbrev IsApart : Text → List DirectoryEntry × ℕ → Type 0
  IsApart k r =
      (count_key unicode k r.0 ≤ 1)
      × ((tree : Seen) × AllRecorded unicode tree r.0)
      × (length r.0 ≤ max_directory_entries)
      × (r.1 ≤ max_int64)

  -- Whatever the server lists, a listing that is accepted has one entry at most for a local path,
  -- with no regard to case; its paths lie in one tree, in which every entry is what it is listed
  -- as, and everything above an entry is a directory, so that no file stands where another entry
  -- needs a directory; it has at most a hundred thousand entries; and the total is an int64. It is
  -- assumed that the underscore is its own upper case, and that of `download` no device.
  pub list_directory_apart :
      (clean : Text → Text) (probe : Text → Option ℤ) (root : Text) (walked : List Walked)
      → (failed : Bool) (r : List DirectoryEntry × ℕ) (k : Text) → IsPlain unicode
      → list_directory unicode clean probe root walked failed ≡ accepted r
      → (count_key unicode k r.0 ≤ 1)
        × ((tree : Seen) × AllRecorded unicode tree r.0)
        × (length r.0 ≤ max_directory_entries)
        × (r.1 ≤ max_int64)
  unfolding list_directory
  list_directory_apart clean probe root walked failed r k plain h =
      let (l, taken, h') =
        bind_accepted (take_all unicode clean probe (with_slash (clean root)) walked nothing_listed)
          (λ (l : Listing).
            if failed
            then refused walk_failed
            else accepted (sort_entries l.entries, if l.total_known then l.total else 0))
          r h in
      let listed =
        take_all-IsListed unicode clean probe plain (with_slash (clean root)) walked nothing_listed
          l (nothing-IsListed unicode) taken in
      elim (Bool-cases failed) [
        | inl e ↦ let impossible : ⊥ = ground (arith, h', e) in elim impossible [ ]
        | inr e ↦
            let whole : (sort_entries l.entries, if l.total_known then l.total else 0) ≡ r =
              ground (arith, h', e) in
            subst (IsApart k) whole (
              ground (arith, count_key-sort k l.entries, listed.once k),
              (l.seen, sort-AllRecorded l.seen l.entries listed.recorded),
              ground (arith, length-sort l.entries, listed.few),
              ground (arith, listed.in_range),
            )
      ]
