-- ===== src/Http/Segments.antt =====
-- internal/download/http/worker.go: how a file is cut into parts.
pub mod Tiling
use godown.Base.{ℕ, zero, suc, ◌+◌, ◌-◌, ◌/◌, Bool, not, List, [], ◌∷◌, ltb, ◌==◌, if◌then◌else◌}
use godown.Base.Int.{ℤ, pos, negsuc, positive_or}
use Prim.Native.Nat.{min}

abbrev pub unknown_size : ℤ
unknown_size = pos 0

abbrev pub not_supported_size : ℤ
not_supported_size = negsuc 0

pub record Subworker : Type 0 where
  pub start : ℤ
  pub progress : ℤ
  pub end : ℤ

abbrev pub whole_file : ℤ → List Subworker
whole_file end = record { start = pos 0; progress = pos 0; end = end } ∷ []

abbrev pub part : ℕ → ℕ → Subworker
part start end = record { start = pos start; progress = pos start; end = pos end }

-- The loop, with the rounds that are left, and the last part behind it.
unfoldable pub generate_from : ℕ → ℕ → ℕ → ℕ → List Subworker
generate_from zero step start size = part start (size - 1) ∷ []
generate_from (suc rounds) step start size =
    part start (start + step - 1) ∷ generate_from rounds step (start + step) size

abbrev pub blocks_for : ℤ → ℕ → ℕ
blocks_for block_num size = min (positive_or 8 block_num) size

unfoldable pub generate : ℤ → ℤ → Bool → List Subworker
unfolding generate_from
generate file_size block_num supports_range =
    let size = positive_or 0 file_size in
    let blocks = blocks_for block_num size in
    if not supports_range
    then whole_file not_supported_size
    else if size == 0
    then whole_file unknown_size
    else generate_from (blocks - 1) (size / blocks) 0 size
