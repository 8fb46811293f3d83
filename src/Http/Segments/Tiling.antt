-- ===== src/Http/Segments/Tiling.antt =====
-- The parts of a file cover each of its bytes once.
use godown.Base.{
  ℕ, zero, suc, ◌+◌, ◌-◌, ◌*◌, ◌/◌, ◌≤◌, ◌<◌, ◌≡◌, refl, ap, subst, ◌⊎◌, true, List, [], ◌∷◌, arith,
  first, some,
}
use godown.Base.Int.{ℤ, pos, positive_or}
use godown.Http.Segments.{Subworker, part, generate_from, generate, blocks_for, unknown_size}
use native.Mathlib.Nat.{mul-div-le}

-- The parts lie end to end from one offset to the size, none is empty, and none has progressed.
abbrev pub Tiles : ℕ → ℕ → List Subworker → Type 0
Tiles from size [] = from ≡ size
Tiles from size (p ∷ ps) = (end : ℕ) × (p ≡ part from end) × (from ≤ end) × Tiles (suc end) size ps

generate_from-Tiles :
    (rounds step start size : ℕ)
    → 1 ≤ step
    → start + rounds * step < size
    → Tiles start size (generate_from rounds step start size)
unfolding generate_from
generate_from-Tiles zero step start size one fits = (size - 1, refl, omega arith, omega arith)
generate_from-Tiles (suc rounds) step start size one fits = (
  start + step - 1,
  refl,
  omega arith,
  subst (λ n. Tiles n size (generate_from rounds step (start + step) size)) {x = start + step}
      (omega arith) (generate_from-Tiles rounds step (start + step) size one (omega arith)),
)

pub div_pos : (n b : ℕ) → 0 < b → b ≤ n → 1 ≤ n / b
div_pos n b p h = grind arith

-- All blocks but the last stay below the size.
rounds_fit : (size b : ℕ) → 0 < b → b ≤ size → 0 + (b - 1) * (size / b) < size
rounds_fit size zero p h = absurd (omega arith)
rounds_fit size (suc c) p h =
    let product : (suc c - 1) * (size / suc c) ≡ c * (size / suc c) =
      ap (λ (k : ℕ). k * (size / suc c)) (omega arith) in
    omega (arith, product, mul-div-le size (suc c), div_pos size (suc c) p h)

pub generate_known :
    (size : ℕ) (block_num : ℤ)
    → 0 < size
    → generate (pos size) block_num true
      ≡ generate_from (blocks_for block_num size - 1) (size / blocks_for block_num size) 0 size
unfolding generate
generate_known size block_num positive = ground arith

pub blocks_for_bounds :
    (block_num : ℤ) (size : ℕ)
    → 0 < size
    → (0 < blocks_for block_num size) × (blocks_for block_num size ≤ size)
blocks_for_bounds block_num size positive = ground arith

-- Every file of a known size is cut into parts that cover each of its bytes once, whatever number of
-- blocks is asked for: they lie end to end from 0, none is empty, and the last ends at the last byte.
pub generate-Tiles :
    (size : ℕ) (block_num : ℤ) → 0 < size → Tiles 0 size (generate (pos size) block_num true)
generate-Tiles size block_num positive =
    let bounds = blocks_for_bounds block_num size positive in
    let blocks = blocks_for block_num size in
    rw (generate_known size block_num positive) (
      generate_from-Tiles (blocks - 1) (size / blocks) 0 size
        (div_pos size blocks bounds.0 bounds.1) (rounds_fit size blocks bounds.0 bounds.1))

generate_from_single :
    (rounds size : ℕ)
    → (1 ≤ rounds) ⊎ (size ≡ 1)
    → first (generate_from rounds 1 0 size) ≡ some (part 0 0)
unfolding generate_from
generate_from_single zero size e = ground arith
generate_from_single (suc rounds) size e = refl

single :
    (size : ℕ) (block_num : ℤ)
    → 0 < size
    → size < 2 * positive_or 8 block_num
    → (1 ≤ blocks_for block_num size - 1) ⊎ (size ≡ 1)
single size block_num positive small = omega arith

div_one : (n b : ℕ) → 0 < b → b ≤ n → n < 2 * b → n / b ≡ 1
div_one n b p h k = grind arith

-- The step of a file that has fewer bytes than twice the blocks.
step_one :
    (size : ℕ) (block_num : ℤ)
    → 0 < size
    → size < 2 * positive_or 8 block_num
    → size / blocks_for block_num size ≡ 1
step_one size block_num positive small =
    let bounds = blocks_for_bounds block_num size positive in
    div_one size (blocks_for block_num size) bounds.0 bounds.1 (omega arith)

-- A file that has fewer bytes than twice the blocks is cut into single bytes but for the last part, and
-- then the end of its first part is 0: the very number that stands for an unknown size.
pub generate_small_first :
    (size : ℕ) (block_num : ℤ)
    → 0 < size
    → size < 2 * positive_or 8 block_num
    → first (generate (pos size) block_num true)
      ≡ some (record { start = pos 0; progress = pos 0; end = unknown_size })
generate_small_first size block_num positive small =
    rw (generate_known size block_num positive, step_one size block_num positive small)
      (generate_from_single (blocks_for block_num size - 1) size
        (single size block_num positive small))
