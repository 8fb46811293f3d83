-- ===== src/Bt/Storage/Extents.antt =====
-- Where the bytes of a torrent are read and written.
use godown.Base.{
  ℕ, ◌+◌, ◌-◌, ◌≤◌, ◌<◌, ◌≡◌, refl, sym, subst, true, false, List, [], ◌∷◌, ltb, ◌⊎◌, inl, inr,
  arith, Bool-cases,
}
use godown.Bt.Storage.{Extent, Place, inside, gap, beyond, entry_at}

pub data Holds (f : Extent) : List Extent → Type 0 where
  first_file : {files : List Extent} → Holds f (f ∷ files)
  later_file : {e : Extent} {files : List Extent} → Holds f files → Holds f (e ∷ files)

-- The files lie one behind the other, the first behind an offset.
abbrev pub Laid : ℕ → List Extent → Type 0
Laid from [] = Unit {0}
Laid from (f ∷ files) = (from ≤ f.offset) × Laid (f.offset + f.length) files

-- The end of the last file.
abbrev pub end_from : ℕ → List Extent → ℕ
end_from from [] = from
end_from from (f ∷ files) = end_from (f.offset + f.length) files

-- No file has a byte of the n bytes from g on.
abbrev pub NoFile : List Extent → ℕ → ℕ → Type 0
NoFile [] g n = Unit {0}
NoFile (f ∷ files) g n = ((g + n ≤ f.offset) ⊎ (f.offset + f.length ≤ g)) × NoFile files g n

-- What entry_at says of an offset.
pub data IsPlace (files : List Extent) (g : ℕ) : Place → Type 0 where
  is_inside :
      {f : Extent} {k : ℕ}
      → Holds f files
      → f.offset ≤ g
      → g + k ≡ f.offset + f.length
      → 0 < k
      → IsPlace files g (inside f k)
  is_gap : {k : ℕ} → NoFile files g k → 0 < k → IsPlace files g (gap k)
  is_beyond : IsPlace files g beyond

further :
    {e : Extent} {files : List Extent} {g : ℕ} {p : Place}
    → IsPlace files g p
    → e.offset + e.length ≤ g
    → IsPlace (e ∷ files) g p
further (is_inside holds from to some_left) passed = is_inside (later_file holds) from to some_left
further (is_gap free some_left) passed = is_gap (inr passed, free) some_left
further is_beyond passed = is_beyond

Laid-NoFile :
    (files : List Extent) (from g n : ℕ) → Laid from files → g + n ≤ from → NoFile files g n
Laid-NoFile [] from g n laid h = tt
Laid-NoFile (f ∷ files) from g n laid h = (
  inl (omega (arith, laid.0)),
  Laid-NoFile files (f.offset + f.length) g n laid.1 (omega (arith, laid.0)),
)

entry_before :
    (f : Extent) (files : List Extent) (g : ℕ)
    → ltb g f.offset ≡ true
    → entry_at (f ∷ files) g ≡ gap (f.offset - g)
unfolding entry_at
entry_before f files g h = ground arith

entry_within :
    (f : Extent) (files : List Extent) (g : ℕ)
    → ltb g f.offset ≡ false
    → ltb g (f.offset + f.length) ≡ true
    → entry_at (f ∷ files) g ≡ inside f (f.offset + f.length - g)
unfolding entry_at
entry_within f files g h k = ground arith

entry_passed :
    (f : Extent) (files : List Extent) (g : ℕ)
    → ltb g f.offset ≡ false
    → ltb g (f.offset + f.length) ≡ false
    → entry_at (f ∷ files) g ≡ entry_at files g
unfolding entry_at
entry_passed f files g h k = ground arith

pub entry_at-IsPlace :
    (files : List Extent) (from g : ℕ) → Laid from files → IsPlace files g (entry_at files g)
unfolding entry_at
entry_at-IsPlace [] from g laid = is_beyond
entry_at-IsPlace (f ∷ files) from g laid = elim (Bool-cases (ltb g f.offset)) [
  | inl before ↦ subst (IsPlace (f ∷ files) g) (sym (entry_before f files g before)) (
      is_gap
        (
          inl (ground arith),
          Laid-NoFile files (f.offset + f.length) g (f.offset - g) laid.1 (ground arith),
        )
        (ground arith))
  | inr not_before ↦ elim (Bool-cases (ltb g (f.offset + f.length))) [
    | inl within ↦
        subst (IsPlace (f ∷ files) g) (sym (entry_within f files g not_before within))
          (is_inside first_file (ground arith) (ground arith) (ground arith))
    | inr passed ↦
        subst (IsPlace (f ∷ files) g) (sym (entry_passed f files g not_before passed))
          (further (entry_at-IsPlace files (f.offset + f.length) g laid.1) (ground arith))
  ]
]

pub NoFile-fewer : (files : List Extent) (g k c : ℕ) → c ≤ k → NoFile files g k → NoFile files g c
NoFile-fewer [] g k c h free = tt
NoFile-fewer (f ∷ files) g k c h (here, rest) =
    (elim here [ inl a ↦ inl (omega (arith, a)) | inr b ↦ inr b ], NoFile-fewer files g k c h rest)

-- Nothing lies behind the last file only.
pub beyond_end :
    (files : List Extent) (from g : ℕ)
    → Laid from files
    → from ≤ g
    → entry_at files g ≡ beyond
    → end_from from files ≤ g
unfolding entry_at
beyond_end [] from g laid h e = h
beyond_end (f ∷ files) from g laid h e = elim (Bool-cases (ltb g f.offset)) [
  | inl before ↦ ground arith
  | inr not_before ↦ elim (Bool-cases (ltb g (f.offset + f.length))) [
    | inl within ↦ ground arith
    | inr passed ↦ beyond_end files (f.offset + f.length) g laid.1 (ground arith) (ground arith)
  ]
]

pub Place-cases :
    (p : Place)
    → ((f : Extent) × (k : ℕ) × (p ≡ inside f k)) ⊎ ((k : ℕ) × (p ≡ gap k)) ⊎ (p ≡ beyond)
Place-cases (inside f k) = inl (f, k, refl)
Place-cases (gap k) = inr (inl (k, refl))
Place-cases beyond = inr (inr refl)

pub inside_facts :
    {files : List Extent} {g k : ℕ} {f : Extent}
    → IsPlace files g (inside f k)
    → Holds f files × (f.offset ≤ g) × (g + k ≡ f.offset + f.length) × (0 < k)
inside_facts (is_inside holds from to some_left) = (holds, from, to, some_left)

pub gap_facts :
    {files : List Extent} {g k : ℕ} → IsPlace files g (gap k) → NoFile files g k × (0 < k)
gap_facts (is_gap free some_left) = (free, some_left)
