-- ===== src/Base/Maps.antt =====
-- A Go map with string keys: an association list in which a write to a key that is there replaces
-- its value in place, and a write to a new key stands last.
use Prim.Native.String.{String}
use mathlib.Core.Path.{◌≡◌, refl}
use mathlib.Core.Bool.{Bool, false, ◌||◌}
use mathlib.Core.Option.{Option, none, some}
use mathlib.Core.List.{List, [], ◌∷◌}
use native.Mathlib.Omega.{arith}
use text.Mathlib.TextEquality.{eq_iff}
use godown.Base.Tests.{str_eq, if◌then◌else◌, is_some}

abbrev pub Dict {ℓ} : Type ℓ → Type ℓ
Dict V = List (String × V)

module _ {ℓ} {V : Type ℓ} where
  abbrev pub lookup : String → Dict V → Option V
  lookup k [] = none
  lookup k ((j, v) ∷ m) = if str_eq j k then some v else lookup k m

  abbrev pub has : String → Dict V → Bool
  has k m = is_some (lookup k m)

  abbrev pub insert : String → V → Dict V → Dict V
  insert k v [] = (k, v) ∷ []
  insert k v ((j, w) ∷ m) = if str_eq j k then (j, v) ∷ m else (j, w) ∷ insert k v m

  -- Go's `delete`.
  abbrev pub delete : String → Dict V → Dict V
  delete k [] = []
  delete k ((j, w) ∷ m) = let rest = delete k m in if str_eq j k then rest else (j, w) ∷ rest

  -- A write through the pointer that the map holds under a key; a nil entry is left alone.
  abbrev pub modify : String → (V → V) → Dict V → Dict V
  modify k f [] = []
  modify k f ((j, w) ∷ m) = (j, if str_eq j k then f w else w) ∷ modify k f m

  -- No key stands twice.
  abbrev pub Distinct : Dict V → Type 0
  Distinct [] = Unit {0}
  Distinct ((k, v) ∷ m) = (has k m ≡ false) × Distinct m

module _ {ℓ} {V : Type ℓ} where
  pub lookup-insert :
      (k j : String) (v : V) (m : Dict V)
      → lookup j (insert k v m) ≡ (if str_eq k j then some v else lookup j m)
  lookup-insert k j v [] = refl
  lookup-insert k j v ((i, w) ∷ m) =
      ground (arith, eq_iff k j, eq_iff i k, eq_iff i j, lookup-insert k j v m)

  pub lookup-delete :
      (k j : String) (m : Dict V)
      → lookup j (delete k m) ≡ (if str_eq k j then none else lookup j m)
  lookup-delete k j [] = ground arith
  lookup-delete k j ((i, w) ∷ m) =
      ground (arith, eq_iff k j, eq_iff i k, eq_iff i j, lookup-delete k j m)

  pub has-insert :
      (k j : String) (v : V) (m : Dict V) → has j (insert k v m) ≡ (str_eq k j || has j m)
  has-insert k j v m = ground (arith, lookup-insert k j v m)

  pub insert-Distinct : (k : String) (v : V) (m : Dict V) → Distinct m → Distinct (insert k v m)
  insert-Distinct k v [] d = (refl, tt)
  insert-Distinct k v ((i, w) ∷ m) d =
      ground (arith, eq_iff i k, eq_iff k i, has-insert k i v m, insert-Distinct k v m d.1)

  pub delete-Distinct : (k : String) (m : Dict V) → Distinct m → Distinct (delete k m)
  delete-Distinct k [] d = tt
  delete-Distinct k ((i, w) ∷ m) d = ground (arith, lookup-delete k i m, delete-Distinct k m d.1)

module _ {ℓ} {V : Type ℓ} where
  abbrev pub apply_at : Bool → (V → V) → Option V → Option V
  apply_at b f none = none
  apply_at b f (some v) = some (if b then f v else v)

module _ {ℓ} {V : Type ℓ} where
  pub lookup-modify :
      (k j : String) (f : V → V) (m : Dict V)
      → lookup j (modify k f m) ≡ apply_at (str_eq k j) f (lookup j m)
  lookup-modify k j f [] = refl
  lookup-modify k j f ((i, w) ∷ m) =
      ground (arith, eq_iff k j, eq_iff i k, eq_iff i j, lookup-modify k j f m)

  pub has-modify : (k j : String) (f : V → V) (m : Dict V) → has j (modify k f m) ≡ has j m
  has-modify k j f m = ground (arith, lookup-modify k j f m)
