-- ===== src/Ftp/Listing/Again.antt =====
-- That a path that was taken is taken again as it stands, which the run of a task relies on.
use mathlib.Core.List.{append_assoc, append-nil}
use godown.Base.{
  ◌≡◌, refl, sym, ◌∙◌, ap, subst, Bool, true, false, not, ◌||◌, Option, none, some, List, [], ◌∷◌,
  ◌++◌, inl, inr, arith, Bool-cases, Option-cases,
}
use godown.Ftp.Names.{Text, Unicode, safe_file_name}
use godown.Ftp.Names.Safe.{IsSafe, IsPlain, safe_file_name-IsSafe, safe_file_name_same}
use godown.Ftp.Listing.{
  Refusal, accepted, ◌>>=◌, split, join, Seen, seen_at, is_last, clash, key_of, takes_marker,
  take_parts, safe_relative_path,
}
use godown.Ftp.Listing.Parts.{AllNoSlash, split-join, allowed-NoSlash, split_some, Checked-cases}

module _ (unicode : Unicode) where
  abbrev pub safe_parts : List Text → List Text
  safe_parts [] = []
  safe_parts (part ∷ parts) = safe_file_name unicode part ∷ safe_parts parts

  abbrev pub local_of : Text → Text
  local_of part = safe_file_name unicode part

  -- What the map holds behind a part.
  abbrev pub seen_behind : Text → Bool → List Text → Text → List Text → Seen → Seen
  seen_behind remote directory before part parts seen =
      (
        key_of unicode remote directory (before ++ local_of part ∷ []),
        not (is_last parts) || directory,
      )
      ∷ seen

  -- What the part clashes with.
  abbrev clash_at : Text → Bool → List Text → Text → List Text → Seen → Option Refusal
  clash_at remote directory before part parts seen =
      clash remote (not (is_last parts) || directory) (is_last parts)
        (seen_at (key_of unicode remote directory (before ++ local_of part ∷ [])) seen)

  pub record IsTaken (remote : Text) (directory : Bool) (before : List Text) (part : Text)
      (parts : List Text) (seen : Seen) (r : List Text × Seen) : Type 0 where
    pub no_marker : takes_marker unicode remote directory before (local_of part) ≡ false
    pub no_clash : clash_at remote directory before part parts seen ≡ none
    pub rest :
        take_parts unicode remote directory
          (before ++ local_of part ∷ [])
          parts
          (seen_behind remote directory before part parts seen)
        ≡ accepted r

  pub take_parts-IsTaken :
      (remote : Text) (directory : Bool) (before : List Text) (part : Text) (parts : List Text)
      → (seen : Seen) (r : List Text × Seen)
      → take_parts unicode remote directory before (part ∷ parts) seen ≡ accepted r
      → IsTaken remote directory before part parts seen r
  unfolding take_parts
  take_parts-IsTaken remote directory before part parts seen r h =
      elim (Bool-cases (takes_marker unicode remote directory before (local_of part))) [
        | inl marker ↦ let impossible : ⊥ = ground (arith, h, marker) in elim impossible [ ]
        | inr no_marker ↦ elim (Option-cases (clash_at remote directory before part parts seen)) [
          | inl no_clash ↦ record {
            no_marker = no_marker;
            no_clash = no_clash;
            rest = ground (arith, h, no_marker, no_clash);
          }
          | inr (e, clashed) ↦
              let impossible : ⊥ = ground (arith, h, no_marker, clashed) in elim impossible [ ]
        ]
      ]

  -- The result is that of the parts behind, where the part is taken.
  takes_on :
      (remote : Text) (directory : Bool) (before : List Text) (part : Text) (parts : List Text)
      → (seen : Seen) → takes_marker unicode remote directory before (local_of part) ≡ false
      → clash_at remote directory before part parts seen ≡ none
      → take_parts unicode remote directory before (part ∷ parts) seen
        ≡ take_parts unicode remote directory
            (before ++ local_of part ∷ [])
            parts
            (seen_behind remote directory before part parts seen)
  unfolding take_parts
  takes_on remote directory before part parts seen no_marker no_clash =
      rw (no_marker, no_clash) refl

  clash_free :
      (remote remote' : Text) (directory last : Bool) (before : Option Bool)
      → clash remote directory last before ≡ none
      → clash remote' directory last before ≡ none
  clash_free remote remote' directory last none h = refl
  clash_free remote remote' true true (some true) h = ground (arith, h)
  clash_free remote remote' true true (some false) h = ground (arith, h)
  clash_free remote remote' true false (some true) h = ground (arith, h)
  clash_free remote remote' true false (some false) h = ground (arith, h)
  clash_free remote remote' false true (some true) h = ground (arith, h)
  clash_free remote remote' false true (some false) h = ground (arith, h)
  clash_free remote remote' false false (some true) h = ground (arith, h)
  clash_free remote remote' false false (some false) h = ground (arith, h)

  last_safe : (parts : List Text) → is_last (safe_parts parts) ≡ is_last parts
  last_safe [] = refl
  last_safe (part ∷ parts) = refl

  -- The parts that the loop gives.
  pub taken_parts :
      (remote : Text) (directory : Bool) (before parts : List Text) (seen : Seen)
      → (r : List Text × Seen) → take_parts unicode remote directory before parts seen ≡ accepted r
      → before ++ safe_parts parts ≡ r.0
  unfolding take_parts
  taken_parts remote directory before [] seen r h = append-nil before ∙ ground (arith, h)
  taken_parts remote directory before (part ∷ parts) seen r h =
      let facts = take_parts-IsTaken remote directory before part parts seen r h in
      sym (append_assoc before (local_of part ∷ []) (safe_parts parts))
      ∙ taken_parts remote directory (before ++ local_of part ∷ []) parts _ r facts.rest

  -- The step at a part that stays as it is.
  takes_again :
      (remote : Text) (directory : Bool) (before : List Text) (local : Text)
      → (parts parts' : List Text) (seen : Seen) (r : List Text × Seen) → local_of local ≡ local
      → is_last parts' ≡ is_last parts
      → takes_marker unicode remote directory before local ≡ false
      → clash remote
          (not (is_last parts) || directory)
          (is_last parts)
          (seen_at (key_of unicode remote directory (before ++ local ∷ [])) seen)
        ≡ none
      → take_parts unicode remote directory (before ++ local ∷ []) parts' (
          (key_of unicode remote directory (before ++ local ∷ []), not (is_last parts) || directory)
          ∷ seen)
        ≡ accepted r
      → take_parts unicode remote directory before (local ∷ parts') seen ≡ accepted r
  takes_again remote directory before local parts parts' seen r same last no_marker no_clash rest =
      let P = λ (l : Text) (b : Bool).
        take_parts unicode remote directory (before ++ l ∷ []) parts'
          ((key_of unicode remote directory (before ++ l ∷ []), not b || directory) ∷ seen)
        ≡ accepted r in
      takes_on remote directory before local parts' seen
        (ap (takes_marker unicode remote directory before) same ∙ no_marker)
        (subst
          (λ (l : Text).
            clash remote (not (is_last parts') || directory) (is_last parts')
              (seen_at (key_of unicode remote directory (before ++ l ∷ [])) seen)
            ≡ none)
          (sym same)
          (subst
            (λ (b : Bool).
              clash remote (not b || directory) b
                (seen_at (key_of unicode remote directory (before ++ local ∷ [])) seen)
              ≡ none)
            (sym last) no_clash))
      ∙ subst (λ (l : Text). P l (is_last parts')) (sym same) (subst (P local) (sym last) rest)

  taken_again :
      (plain : IsPlain unicode)
      → (remote remote' : Text) (directory : Bool) (before parts : List Text) (seen : Seen)
      → (r : List Text × Seen) → take_parts unicode remote directory before parts seen ≡ accepted r
      → take_parts unicode remote' directory before (safe_parts parts) seen ≡ accepted r
  unfolding take_parts
  taken_again plain remote remote' directory before [] seen r h = h
  taken_again plain remote remote' directory before (part ∷ parts) seen r h =
      let facts = take_parts-IsTaken remote directory before part parts seen r h in
      let same =
        safe_file_name_same unicode (local_of part) (safe_file_name-IsSafe unicode part plain) in
      let rest =
        taken_again plain remote remote' directory (before ++ local_of part ∷ []) parts _ r
          facts.rest in
      let free =
        clash_free remote remote' (not (is_last parts) || directory) (is_last parts) _
          facts.no_clash in
      takes_again remote' directory before (local_of part) parts (safe_parts parts) seen r same
        (last_safe parts) facts.no_marker free rest

  abbrev pub AllSafe : List Text → Type 0
  AllSafe [] = Unit {0}
  AllSafe (part ∷ parts) = IsSafe unicode part × AllSafe parts

  safe_parts-AllSafe : (parts : List Text) → IsPlain unicode → AllSafe (safe_parts parts)
  safe_parts-AllSafe [] plain = tt
  safe_parts-AllSafe (part ∷ parts) plain =
      (safe_file_name-IsSafe unicode part plain, safe_parts-AllSafe parts plain)

  safe-AllNoSlash : (parts : List Text) → AllSafe parts → AllNoSlash parts
  safe-AllNoSlash [] h = tt
  safe-AllNoSlash (part ∷ parts) h = (allowed-NoSlash part h.0.allowed, safe-AllNoSlash parts h.1)

  pub split_join_safe :
      (remote : Text)
      → IsPlain unicode
      → split (join (safe_parts (split remote))) ≡ safe_parts (split remote)
  split_join_safe remote plain =
      let (part, parts, e) = split_some remote in
      rw e (
        split-join (local_of part) (safe_parts parts)
          (safe-AllNoSlash (safe_parts (part ∷ parts)) (safe_parts-AllSafe (part ∷ parts) plain)))

  -- What a path is taken to has safe names, one for each part of the path; and it is taken again
  -- by the same map of the paths before it, to itself and to the same map: what the listing lets
  -- through, the check of the run does too. It is assumed
  -- that the underscore is its own upper case, and that of `download` no device.
  pub safe_relative_path_again :
      (remote : Text) (directory : Bool) (seen : Seen) (r : Text × Seen)
      → IsPlain unicode
      → safe_relative_path unicode remote directory seen ≡ accepted r
      → (r.0 ≡ join (safe_parts (split remote)))
        × AllSafe (safe_parts (split remote))
        × (safe_relative_path unicode r.0 directory seen ≡ accepted r)
  unfolding safe_relative_path
  safe_relative_path_again remote directory seen r plain h =
      elim (Checked-cases (take_parts unicode remote directory [] (split remote) seen)) [
        | inr (e, failed) ↦ let impossible : ⊥ = ground (arith, h, failed) in elim impossible [ ]
        | inl (x, taken) ↦
            let whole : (join x.0, x.1) ≡ r = ground (arith, h, taken) in
            let parts = taken_parts remote directory [] (split remote) seen x taken in
            let local : join (safe_parts (split remote)) ≡ r.0 =
              ap join parts ∙ ap (λ y. y.0) whole in
            let again = taken_again plain remote r.0 directory [] (split remote) seen x taken in
            (
              sym local,
              safe_parts-AllSafe (split remote) plain,
              ap
                    (λ ps.
                      take_parts unicode r.0 directory [] ps seen >>= λ y. accepted (join y.0, y.1))
                    (ap split (sym local) ∙ split_join_safe remote plain)
                  ∙ rw again (ap accepted whole),
            )
      ]
