-- ===== src/Ui/Table/Sorting.antt =====
-- A stable sort keeps the rows and puts them in order.
use godown.Base.{◌≡◌, refl, inl, inr, Bool, true, false, List, [], ◌∷◌, Bool-cases}
use godown.Ui.Table.{insert_row, stable_sort}
use mathlib.Core.List.{Permᴰ}
use mathlib.Core.List.Permᴰ

module _ {ℓ} {A : Type ℓ} (less : A → A → Bool) where
  -- No row is followed by one that belongs before it.
  abbrev pub Sorted : List A → Type 0
  Sorted [] = Unit {0}
  Sorted (x ∷ []) = Unit {0}
  Sorted (x ∷ y ∷ ys) = (less y x ≡ false) × Sorted (y ∷ ys)

  insert_row-Perm : (x : A) (ys : List A) → Permᴰ (x ∷ ys) (insert_row less x ys)
  unfolding insert_row
  insert_row-Perm x [] = Permᴰ.refl (x ∷ [])
  insert_row-Perm x (y ∷ ys) = elim (Bool-cases (less y x)) [
    | inl l ↦
        rw (l, insert_row)
          (Permᴰ.trans (Permᴰ.swap refl refl) (Permᴰ.cons refl (insert_row-Perm x ys)))
    | inr l ↦ rw (l, insert_row) (Permᴰ.refl (x ∷ y ∷ ys))
  ]

  pub stable_sort-Perm : (xs : List A) → Permᴰ xs (stable_sort less xs)
  unfolding stable_sort
  stable_sort-Perm [] = Permᴰ.refl []
  stable_sort-Perm (x ∷ xs) =
      Permᴰ.trans (Permᴰ.cons refl (stable_sort-Perm xs)) (insert_row-Perm x (stable_sort less xs))

  module _ (asymmetric : (x y : A) → less x y ≡ true → less y x ≡ false) where
    -- A row before the place where another goes in stays before it.
    insert_behind :
        (x y : A) (ys : List A)
        → less y x ≡ true
        → Sorted (y ∷ ys)
        → Sorted (insert_row less x ys)
        → Sorted (y ∷ insert_row less x ys)
    unfolding insert_row
    insert_behind x y [] before s t = (asymmetric y x before, tt)
    insert_behind x y (z ∷ zs) before s t = elim (Bool-cases (less z x)) [
      | inl l ↦ rw (l, insert_row) (s.0, rw (l, insert_row) at t)
      | inr l ↦ rw (l, insert_row) (asymmetric y x before, rw (l, insert_row) at t)
    ]

    tail_Sorted : (x : A) (xs : List A) → Sorted (x ∷ xs) → Sorted xs
    tail_Sorted x [] s = tt
    tail_Sorted x (y ∷ ys) s = s.1

    insert_row-Sorted : (x : A) (ys : List A) → Sorted ys → Sorted (insert_row less x ys)
    unfolding insert_row
    insert_row-Sorted x [] s = tt
    insert_row-Sorted x (y ∷ ys) s = elim (Bool-cases (less y x)) [
      | inl l ↦
          rw (l, insert_row)
            (insert_behind x y ys l s (insert_row-Sorted x ys (tail_Sorted y ys s)))
      | inr l ↦ rw (l, insert_row) (l, s)
    ]

    pub stable_sort-Sorted : (xs : List A) → Sorted (stable_sort less xs)
    unfolding stable_sort
    stable_sort-Sorted [] = tt
    stable_sort-Sorted (x ∷ xs) = insert_row-Sorted x (stable_sort less xs) (stable_sort-Sorted xs)
