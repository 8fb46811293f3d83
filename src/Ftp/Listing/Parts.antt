-- ===== src/Ftp/Listing/Parts.antt =====
-- The parts of a path, as they are split and joined.
use godown.Base.{
  ℕ, ◌≡◌, refl, ◌∙◌, ap, false, List, [], ◌∷◌, ◌++◌, ◌==◌, ◌⊎◌, inl, inr, arith, Bool-cases,
}
use godown.Ftp.Names.{Text, slash, is_forbidden}
use godown.Ftp.Names.Safe.{AllAllowed}
use godown.Ftp.Listing.{Refusal, Checked, refused, accepted, ◌>>=◌, split, join}

-- The parts have no slash, and there is one at least.
abbrev pub NoSlash : Text → Type 0
NoSlash [] = Unit {0}
NoSlash (c ∷ s) = ((c == slash) ≡ false) × NoSlash s

abbrev pub AllNoSlash : List Text → Type 0
AllNoSlash [] = Unit {0}
AllNoSlash (part ∷ parts) = NoSlash part × AllNoSlash parts

split_part : (part : Text) → NoSlash part → split part ≡ part ∷ []
unfolding split
split_part [] h = refl
split_part (c ∷ s) h = rw (h.0, split_part s h.1) refl

split_behind : (part rest : Text) → NoSlash part → split (part ++ slash ∷ rest) ≡ part ∷ split rest
unfolding split
split_behind [] rest h = refl
split_behind (c ∷ s) rest h = rw (h.0, split_behind s rest h.1) refl

-- What is joined is split into the same parts.
pub split-join :
    (part : Text) (parts : List Text)
    → AllNoSlash (part ∷ parts)
    → split (join (part ∷ parts)) ≡ part ∷ parts
unfolding join
split-join part [] h = split_part part h.0
split-join part (next ∷ parts) h =
    split_behind part (join (next ∷ parts)) h.0 ∙ ap (λ l. part ∷ l) (split-join next parts h.1)

slash_forbidden : (c : ℕ) → is_forbidden c ≡ false → (c == slash) ≡ false
slash_forbidden c h = ground (arith, h)

pub allowed-NoSlash : (s : Text) → AllAllowed s → NoSlash s
allowed-NoSlash [] h = tt
allowed-NoSlash (c ∷ s) h = (slash_forbidden c h.0, allowed-NoSlash s h.1)

pub split_some : (s : Text) → (part : Text) × (parts : List Text) × (split s ≡ part ∷ parts)
unfolding split
split_some [] = ([], [], refl)
split_some (c ∷ s) =
    let (part, parts, e) = split_some s in
    elim (Bool-cases (c == slash)) [
      | inl h ↦ rw h ([], split s, refl)
      | inr h ↦ rw (h, e) (c ∷ part, parts, refl)
    ]

pub Checked-cases :
    {A : Type 0} (x : Checked A) → ((a : A) × (x ≡ accepted a)) ⊎ ((e : Refusal) × (x ≡ refused e))
Checked-cases (accepted a) = inl (a, refl)
Checked-cases (refused e) = inr (e, refl)

pub bind_accepted :
    {A B : Type 0} (x : Checked A) (f : A → Checked B) (b : B)
    → (x >>= f) ≡ accepted b
    → (a : A) × (x ≡ accepted a) × (f a ≡ accepted b)
bind_accepted (accepted a) f b h = (a, refl, h)
bind_accepted (refused e) f b h = let impossible : ⊥ = ground (arith, h) in elim impossible [ ]
