-- ===== src/Base/Lists.antt =====
-- Lists measured by native numbers, and lists of names.
use Prim.Native.Nat.{ℕ, zero, suc, ◌+◌}
use Prim.Native.String.{String}
use mathlib.Core.Path.{◌≡◌}
use mathlib.Core.Bool.{Bool, true, false, ◌||◌}
use mathlib.Core.Option.{Option, none, some}
use mathlib.Core.List.{List, [], ◌∷◌, ◌++◌}
use native.Mathlib.Omega.{arith}
use text.Mathlib.TextEquality.{eq_iff}
use text.Mathlib.TextPositions.{eq_refl}
use godown.Base.Tests.{str_eq, if◌then◌else◌}

module _ {ℓ} {A : Type ℓ} where
  abbrev pub length : List A → ℕ
  length [] = 0
  length (x ∷ xs) = suc (length xs)

  pub length-append : (xs ys : List A) → length (xs ++ ys) ≡ length xs + length ys
  length-append [] ys = omega arith
  length-append (x ∷ xs) ys = omega (arith, length-append xs ys)

  -- How many elements pass a test.
  abbrev pub count : (A → Bool) → List A → ℕ
  count p [] = 0
  count p (x ∷ xs) = let rest = count p xs in if p x then suc rest else rest

module _ {ℓ} {A : Type ℓ} where
  abbrev pub first : List A → Option A
  first [] = none
  first (x ∷ xs) = some x

  abbrev pub drop_first : List A → List A
  drop_first [] = []
  drop_first (x ∷ xs) = xs

module _ {ℓ} {A : Type ℓ} where
  abbrev pub take : ℕ → List A → List A
  take zero xs = []
  take (suc n) [] = []
  take (suc n) (x ∷ xs) = x ∷ take n xs

  abbrev pub drop : ℕ → List A → List A
  drop zero xs = xs
  drop (suc n) [] = []
  drop (suc n) (x ∷ xs) = drop n xs

abbrev pub mem : String → List String → Bool
mem k [] = false
mem k (x ∷ xs) = str_eq x k || mem k xs

-- The list without the first occurrence of a name.
abbrev pub erase_first : String → List String → List String
erase_first k [] = []
erase_first k (x ∷ xs) = if str_eq x k then xs else x ∷ erase_first k xs

pub mem-append_left : (k : String) (xs ys : List String) → mem k xs ≡ true → mem k (xs ++ ys) ≡ true
mem-append_left k [] ys h = cc
mem-append_left k (x ∷ xs) ys h = ground (arith, mem-append_left k xs ys)

pub mem-append_last : (k : String) (xs : List String) → mem k (xs ++ k ∷ []) ≡ true
mem-append_last k [] = ground (arith, eq_refl k)
mem-append_last k (x ∷ xs) = ground (arith, mem-append_last k xs)

pub mem-erase_first :
    (k j : String) (xs : List String)
    → str_eq k j ≡ false
    → mem j xs ≡ true
    → mem j (erase_first k xs) ≡ true
mem-erase_first k j [] ne h = cc
mem-erase_first k j (x ∷ xs) ne h =
    ground (arith, eq_iff x k, eq_iff x j, eq_iff k j, mem-erase_first k j xs ne)
