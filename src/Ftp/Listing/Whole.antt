-- ===== src/Ftp/Listing/Whole.antt =====
-- What a whole listing of a directory holds.
use godown.Base.{
  ℕ, suc, ◌+◌, ◌≤◌, ◌≡◌, refl, sym, ◌∙◌, ap, subst, Bool, ◌&&◌, none, some, List, [], ◌∷◌, ◌++◌,
  ltb, length, inl, inr, arith, if◌then◌else◌, Bool-cases,
}
use godown.Base.Int.{ℤ, pos, negsuc}
use godown.Ftp.Names.{Text, Unicode, eq_text, map_text}
use godown.Ftp.Names.Safe.{IsPlain}
use godown.Ftp.Listing.{
  accepted, split, join, Seen, seen_at, take_parts, safe_relative_path, DirectoryEntry, max_int64,
  max_directory_entries, Listing, add_size, append_entry, nothing_listed,
}
use godown.Ftp.Listing.Parts.{Checked-cases, split_some}
use godown.Ftp.Listing.Again.{safe_parts, taken_parts, split_join_safe}
use godown.Ftp.Listing.Apart.{
  Keeps, Above, Above-kept, taken-Keeps, taken-Above, taken_own, eq_text→eq,
}

module _ (unicode : Unicode) where
  -- The path of an entry as the map holds it.
  abbrev pub key : DirectoryEntry → Text
  key e = map_text unicode.lower e.relative_path

  -- The map holds the entry with its kind, and each directory above it as a directory.
  pub record IsRecorded (seen : Seen) (e : DirectoryEntry) : Type 0 where
    pub own : seen_at (key e) seen ≡ some e.directory
    pub above : Above unicode seen [] (split e.relative_path)

  abbrev pub AllRecorded : Seen → List DirectoryEntry → Type 0
  AllRecorded seen [] = Unit {0}
  AllRecorded seen (e ∷ entries) = IsRecorded seen e × AllRecorded seen entries

  abbrev pub count_key : Text → List DirectoryEntry → ℕ
  count_key k [] = 0
  count_key k (e ∷ entries) =
      let rest = count_key k entries in if eq_text k (key e) then suc rest else rest

  -- A path that the check takes.
  pub record IsPut (seen : Seen) (directory : Bool) (r : Text × Seen) : Type 0 where
    fresh : seen_at (map_text unicode.lower r.0) seen ≡ none
    own : seen_at (map_text unicode.lower r.0) r.1 ≡ some directory
    above : Above unicode r.1 [] (split r.0)
    keeps : Keeps seen r.1

  abbrev lower : Text → Text
  lower = map_text unicode.lower

  own_of :
      (remote : Text) (directory : Bool) (seen : Seen) (x : List Text × Seen)
      → take_parts unicode remote directory [] (split remote) seen ≡ accepted x
      → (seen_at (lower (join (safe_parts unicode (split remote)))) seen ≡ none)
        × (seen_at (lower (join (safe_parts unicode (split remote)))) x.1 ≡ some directory)
  own_of remote directory seen x taken =
      let (part, parts, e) = split_some remote in
      subst
        (λ (ps : List Text).
          (seen_at (lower (join (safe_parts unicode ps))) seen ≡ none)
          × (seen_at (lower (join (safe_parts unicode ps))) x.1 ≡ some directory))
        (sym e)
        (taken_own unicode remote directory [] part parts seen x (
          subst (λ (ps : List Text). take_parts unicode remote directory [] ps seen ≡ accepted x) e
            taken))

  pub path-IsPut :
      (remote : Text) (directory : Bool) (seen : Seen) (r : Text × Seen)
      → IsPlain unicode
      → safe_relative_path unicode remote directory seen ≡ accepted r
      → IsPut seen directory r
  unfolding safe_relative_path
  path-IsPut remote directory seen r plain h =
      elim (Checked-cases (take_parts unicode remote directory [] (split remote) seen)) [
        | inr (e, failed) ↦ let impossible : ⊥ = ground (arith, h, failed) in elim impossible [ ]
        | inl (x, taken) ↦
            let whole : (join x.0, x.1) ≡ r = ground (arith, h, taken) in
            let parts = taken_parts unicode remote directory [] (split remote) seen x taken in
            let local : join (safe_parts unicode (split remote)) ≡ r.0 =
              ap join parts ∙ ap (λ y. y.0) whole in
            let same_seen : x.1 ≡ r.1 = ap (λ y. y.1) whole in
            let own = own_of remote directory seen x taken in
            record {
              fresh =
                  subst (λ (t : Text). seen_at (map_text unicode.lower t) seen ≡ none) local own.0;
              own =
                  subst (λ (y : Text × Seen). seen_at (lower y.0) y.1 ≡ some directory) whole
                    (subst (λ (ps : List Text). seen_at (lower (join ps)) x.1 ≡ some directory)
                      parts own.1);
              above =
                  subst (λ (s : Seen). Above unicode s [] (split r.0)) same_seen
                    (subst (λ (ps : List Text). Above unicode x.1 [] ps)
                      (sym (split_join_safe unicode remote plain) ∙ ap split local)
                      (taken-Above unicode remote directory [] (split remote) seen x taken));
              keeps =
                  subst (λ (s : Seen). Keeps seen s) same_seen
                    (taken-Keeps unicode remote directory [] (split remote) seen x taken);
            }
      ]

  recorded_kept :
      (seen seen' : Seen) (entries : List DirectoryEntry)
      → Keeps seen seen'
      → AllRecorded seen entries
      → AllRecorded seen' entries
  recorded_kept seen seen' [] keeps h = tt
  recorded_kept seen seen' (e ∷ entries) keeps h = (
    record {
      own = keeps _ _ h.0.own;
      above = Above-kept unicode seen seen' [] (split e.relative_path) keeps h.0.above;
    },
    recorded_kept seen seen' entries keeps h.1,
  )

  recorded_last :
      (seen : Seen) (entries : List DirectoryEntry) (e : DirectoryEntry)
      → AllRecorded seen entries
      → IsRecorded seen e
      → AllRecorded seen (entries ++ e ∷ [])
  recorded_last seen [] e h last = (last, tt)
  recorded_last seen (f ∷ entries) e h last = (h.0, recorded_last seen entries e h.1 last)

  -- A path that the map does not hold is that of no entry.
  recorded_none :
      (k : Text) (seen : Seen) (entries : List DirectoryEntry)
      → AllRecorded seen entries
      → seen_at k seen ≡ none
      → count_key k entries ≡ 0
  recorded_none k seen [] h fresh = refl
  recorded_none k seen (e ∷ entries) h fresh = elim (Bool-cases (eq_text k (key e))) [
    | inr apart ↦ rw apart (recorded_none k seen entries h.1 fresh)
    | inl same ↦
        let e' = subst (λ (x : Text). seen_at x seen ≡ none) (eq_text→eq k (key e) same) fresh in
        let own = h.0.own in let impossible : ⊥ = ground (arith, e', own) in elim impossible [ ]
  ]

  count_last :
      (k : Text) (entries : List DirectoryEntry) (e : DirectoryEntry)
      → count_key k (entries ++ e ∷ []) ≡ count_key k entries + (if eq_text k (key e) then 1 else 0)
  count_last k [] e = ground arith
  count_last k (f ∷ entries) e = ground (arith, count_last k entries e)

  -- What the loop keeps.
  pub record IsListed (l : Listing) : Type 0 where
    pub recorded : AllRecorded l.seen l.entries
    pub once : (k : Text) → count_key k l.entries ≤ 1
    pub in_range : l.total ≤ max_int64
    pub few : length l.entries ≤ max_directory_entries

  once_last :
      (l : Listing) (e : DirectoryEntry)
      → IsListed l
      → (k : Text) → seen_at (key e) l.seen ≡ none
      → count_key k (l.entries ++ e ∷ []) ≤ 1
  once_last l e listed k fresh = elim (Bool-cases (eq_text k (key e))) [
    | inr apart ↦ ground (arith, count_last k l.entries e, listed.once k, apart)
    | inl same ↦
        let at_k =
          subst (λ (x : Text). seen_at x l.seen ≡ none) (sym (eq_text→eq k (key e) same)) fresh in
        let none_before = recorded_none k l.seen l.entries listed.recorded at_k in
        ground (arith, count_last k l.entries e, none_before, same)
  ]

  abbrev listed_with : DirectoryEntry → Seen → ℕ → Bool → Listing → Listing
  listed_with e seen total known l = record {
    entries = l.entries ++ e ∷ [];
    seen = seen;
    total = total;
    total_known = l.total_known && known;
  }

  pub append-IsListed :
      (e : DirectoryEntry) (local : Text × Seen) (total : ℕ) (known : Bool) (l l' : Listing)
      → IsListed l
      → IsPut l.seen e.directory local
      → e.relative_path ≡ local.0
      → total ≤ max_int64
      → append_entry e local.1 total known l ≡ accepted l'
      → IsListed l'
  append-IsListed e local total known l l' listed put same fits h =
      elim (Bool-cases (ltb max_directory_entries (length (l.entries ++ e ∷ [])))) [
        | inl many ↦ let impossible : ⊥ = ground (arith, h, many) in elim impossible [ ]
        | inr few ↦
            let whole : listed_with e local.1 total known l ≡ l' = ground (arith, h, few) in
            subst IsListed whole (record {
              recorded =
                  recorded_last local.1 l.entries e
                    (recorded_kept l.seen local.1 l.entries put.keeps listed.recorded)
                    (record {
                      own =
                          subst (λ (x : Text). seen_at (lower x) local.1 ≡ some e.directory)
                            (sym same) put.own;
                      above =
                          subst (λ (x : Text). Above unicode local.1 [] (split x)) (sym same)
                            put.above;
                    });
              once = λ k.
                  once_last l e listed k
                    (subst (λ (x : Text). seen_at (lower x) l.seen ≡ none) (sym same) put.fresh);
              in_range = fits;
              few = ground (arith, few);
            })
      ]

  pub add_size_fits :
      (n : ℤ) (total total' : ℕ)
      → total ≤ max_int64
      → add_size n total ≡ accepted total'
      → total' ≤ max_int64
  add_size_fits (negsuc n) total total' fits h = ground (arith, h, fits)
  add_size_fits (pos n) total total' fits h = ground (arith, h, fits)

  pub nothing-IsListed : IsListed nothing_listed
  nothing-IsListed = record {
    recorded = tt;
    once = λ k. omega arith;
    in_range = omega arith;
    few = omega arith;
  }
