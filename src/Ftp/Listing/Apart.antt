-- ===== src/Ftp/Listing/Apart.antt =====
-- That the local paths of a listing do not get in each other's way.
use mathlib.Core.List.{append_assoc}
use godown.Base.{
  ◌≡◌, refl, sym, ap, subst, Bool, true, false, Option, none, some, List, [], ◌∷◌, ◌++◌, inl, inr,
  arith, Bool-cases, Option-cases, ==_iff,
}
use godown.Ftp.Names.{Text, Unicode, eq_text, map_text}
use godown.Ftp.Listing.{accepted, join, Seen, seen_at, is_last, clash, key_of, take_parts}
use godown.Ftp.Listing.Again.{local_of, seen_behind, safe_parts, take_parts-IsTaken}

pub eq_text_refl : (s : Text) → eq_text s s ≡ true
unfolding eq_text
eq_text_refl [] = refl
eq_text_refl (c ∷ s) = ground (arith, eq_text_refl s)

pub eq_text→eq : (s t : Text) → eq_text s t ≡ true → s ≡ t
unfolding eq_text
eq_text→eq [] [] h = refl
eq_text→eq [] (d ∷ t) h = ground (arith, h)
eq_text→eq (c ∷ s) [] h = ground (arith, h)
eq_text→eq (c ∷ s) (d ∷ t) h = ground (arith, h, ==_iff c d, eq_text→eq s t)

-- The kinds that a map holds are kept by another.
abbrev pub Keeps : Seen → Seen → Type 0
Keeps seen seen' = (k : Text) (d : Bool) → seen_at k seen ≡ some d → seen_at k seen' ≡ some d

seen_here : (k : Text) (d : Bool) (seen : Seen) → seen_at k ((k, d) ∷ seen) ≡ some d
unfolding seen_at
seen_here k d seen = rw eq_text_refl refl

clash_kind :
    (remote : Text) (directory last d : Bool)
    → clash remote directory last (some d) ≡ none
    → directory ≡ d
clash_kind remote true last true h = refl
clash_kind remote false last false h = refl
clash_kind remote true last false h = ground (arith, h)
clash_kind remote false last true h = ground (arith, h)

-- The last part of a path is new.
clash_last :
    (remote : Text) (directory : Bool) (o : Option Bool)
    → clash remote directory true o ≡ none
    → o ≡ none
clash_last remote directory none h = refl
clash_last remote true (some true) h = ground (arith, h)
clash_last remote true (some false) h = ground (arith, h)
clash_last remote false (some true) h = ground (arith, h)
clash_last remote false (some false) h = ground (arith, h)

-- A path that clashes with nothing is put over itself only.
put-Keeps :
    (remote key : Text) (directory last : Bool) (seen : Seen)
    → clash remote directory last (seen_at key seen) ≡ none
    → Keeps seen ((key, directory) ∷ seen)
unfolding seen_at
put-Keeps remote key directory last seen free k d h = elim (Bool-cases (eq_text key k)) [
  | inr other ↦ rw other h
  | inl same ↦
      let e = eq_text→eq key k same in
      let found = subst (λ (x : Text). seen_at x seen ≡ some d) (sym e) h in
      rw same (
        ap some (
          clash_kind remote directory last d
            (subst (λ (o : Option Bool). clash remote directory last o ≡ none) found free)))
]

module _ (unicode : Unicode) where
  -- Every directory above the path is one in the map.
  abbrev pub Above : Seen → List Text → List Text → Type 0
  Above seen before [] = Unit {0}
  Above seen before (part ∷ []) = Unit {0}
  Above seen before (part ∷ next ∷ parts) =
      (seen_at (map_text unicode.lower (join (before ++ part ∷ []))) seen ≡ some true)
      × Above seen (before ++ part ∷ []) (next ∷ parts)

  pub Above-kept :
      (seen seen' : Seen) (before parts : List Text)
      → Keeps seen seen'
      → Above seen before parts
      → Above seen' before parts
  Above-kept seen seen' before [] keeps h = tt
  Above-kept seen seen' before (part ∷ []) keeps h = tt
  Above-kept seen seen' before (part ∷ next ∷ parts) keeps h =
      (keeps _ true h.0, Above-kept seen seen' (before ++ part ∷ []) (next ∷ parts) keeps h.1)

  module _ (remote : Text) (directory : Bool) where
    pub taken-Keeps :
        (before parts : List Text) (seen : Seen) (r : List Text × Seen)
        → take_parts unicode remote directory before parts seen ≡ accepted r
        → Keeps seen r.1
    unfolding take_parts
    taken-Keeps before [] seen r h k d found =
        subst (λ (s : Seen). seen_at k s ≡ some d) (ground (arith, h)) found
    taken-Keeps before (part ∷ parts) seen r h k d found =
        let facts = take_parts-IsTaken unicode remote directory before part parts seen r h in
        taken-Keeps (before ++ local_of unicode part ∷ []) parts _ r facts.rest k d
          (put-Keeps remote _ _ (is_last parts) seen facts.no_clash k d found)

    -- Behind the path, the directories above it are in the map.
    pub taken-Above :
        (before parts : List Text) (seen : Seen) (r : List Text × Seen)
        → take_parts unicode remote directory before parts seen ≡ accepted r
        → Above r.1 before (safe_parts unicode parts)
    taken-Above before [] seen r h = tt
    taken-Above before (part ∷ []) seen r h = tt
    taken-Above before (part ∷ next ∷ parts) seen r h =
        let facts =
          take_parts-IsTaken unicode remote directory before part (next ∷ parts) seen r h in
        let here = before ++ local_of unicode part ∷ [] in
        (
          taken-Keeps here (next ∷ parts) _ r facts.rest _ true
              (seen_here (key_of unicode remote directory here) true seen),
          taken-Above here (next ∷ parts) _ r facts.rest,
        )

    abbrev whole_key : List Text → List Text → Text
    whole_key before parts = key_of unicode remote directory (before ++ safe_parts unicode parts)

    -- The path itself was not in the map, and is now.
    pub taken_own :
        (before : List Text) (part : Text) (parts : List Text) (seen : Seen) (r : List Text × Seen)
        → take_parts unicode remote directory before (part ∷ parts) seen ≡ accepted r
        → (seen_at (whole_key before (part ∷ parts)) seen ≡ none)
          × (seen_at (whole_key before (part ∷ parts)) r.1 ≡ some directory)
    taken_own before part [] seen r h =
        let facts = take_parts-IsTaken unicode remote directory before part [] seen r h in
        let here = before ++ local_of unicode part ∷ [] in
        (
          clash_last remote directory _ facts.no_clash,
          taken-Keeps here [] _ r facts.rest _ directory
              (seen_here (key_of unicode remote directory here) directory seen),
        )
    taken_own before part (next ∷ parts) seen r h =
        let facts =
          take_parts-IsTaken unicode remote directory before part (next ∷ parts) seen r h in
        let here = before ++ local_of unicode part ∷ [] in
        let own = taken_own here next parts _ r facts.rest in
        let e =
          ap (key_of unicode remote directory) (
            append_assoc before (local_of unicode part ∷ []) (safe_parts unicode (next ∷ parts))) in
        let own' =
          subst
            (λ (k : Text).
              (seen_at k (seen_behind unicode remote directory before part (next ∷ parts) seen)
                ≡ none)
              × (seen_at k r.1 ≡ some directory))
            e own in
        (
          elim (Option-cases (seen_at (whole_key before (part ∷ next ∷ parts)) seen)) [
            | inl fresh ↦ fresh
            | inr (d, found) ↦
                let kept = put-Keeps remote _ _ false seen facts.no_clash _ d found in
                let impossible : ⊥ = ground (arith, own'.0, kept) in elim impossible [ ]
          ],
          own'.1,
        )
