-- ===== src/Http/Download/Whole.antt =====
-- A file whose parts are all downloaded is complete.
use godown.Base.{
  ℕ, zero, suc, ◌-◌, ◌*◌, ◌/◌, ◌≤◌, ◌<◌, ◌≡◌, sym, ap, subst, inl, inr, true, List, [], ◌∷◌, ◌++◌,
  arith,
}
use godown.Base.Int.{ℤ, pos, pos_part, positive_or}
use godown.Http.Segments.{Subworker, part, generate_from, generate, blocks_for}
use godown.Http.Segments.Tiling.{Tiles, generate-Tiles, generate_known, blocks_for_bounds}
use godown.Http.Transfer.{Transfer, Outcome, done, Resource}
use godown.Http.Transfer.Pieces.{Consecutive, Consecutive-append}
use godown.Http.Download.{Attempt, fresh, download_part, download_parts}
use godown.Http.Download.Filling.{download_part-Kept}

abbrev pub AllDone : List (Transfer × Outcome) → Type 0
AllDone [] = Unit {0}
AllDone (x ∷ xs) = (x.1 ≡ done) × AllDone xs

-- The pieces that were written, in the order of the parts.
abbrev pub all_writes : List (Transfer × Outcome) → List (ℤ × ℕ)
all_writes [] = []
all_writes (x ∷ xs) = x.0.writes ++ all_writes xs

abbrev FirstBig : List Subworker → Type 0
FirstBig [] = Unit {0}
FirstBig (p ∷ ps) = 0 < pos_part p.end

-- What is known of a part whose download ended well.
filled_part :
    (resource : Resource) (attempts : List Attempt) (from end : ℕ) (p : Subworker)
    → resource.supports_range ≡ true
    → p ≡ part from end
    → from ≤ end
    → 0 < end
    → (download_part resource attempts (fresh p)).1 ≡ done
    → Consecutive from (download_part resource attempts (fresh p)).0.writes (suc end)
filled_part resource attempts from end p ranged e le big ok =
    let k =
      download_part-Kept resource attempts end from (fresh p) ranged big (ap (λ q. q.progress) e)
        (ap (λ q. q.end) e) (omega arith) in
    let reached : k.reached ≡ suc end = elim k.complete [
      | inl other ↦ absurd (other ok)
      | inr full ↦ full
    ] in
    subst (λ ws. Consecutive from ws (suc end)) (sym k.copied.written)
      (subst (Consecutive from k.copied.pieces) reached k.copied.follow)

module _ (resource : Resource) (meets : Subworker → List Attempt) (size : ℕ)
    (ranged : resource.supports_range ≡ true) where
  filled_from :
      (from : ℕ) (parts : List Subworker)
      → 0 < from
      → Tiles from size parts
      → AllDone (download_parts resource meets parts)
      → Consecutive from (all_writes (download_parts resource meets parts)) size
  unfolding download_parts
  filled_from from [] later t ok = t
  filled_from from (p ∷ ps) later t ok =
      Consecutive-append from (suc t.0) size (download_part resource (meets p) (fresh p)).0.writes
        (all_writes (download_parts resource meets ps))
        (filled_part resource (meets p) from t.0 p ranged t.1 t.2 (omega (arith, t.2)) ok.0)
        (filled_from (suc t.0) ps (omega arith) t.3 ok.1)

  filled :
      (parts : List Subworker)
      → FirstBig parts
      → Tiles 0 size parts
      → AllDone (download_parts resource meets parts)
      → Consecutive 0 (all_writes (download_parts resource meets parts)) size
  unfolding download_parts
  filled [] big t ok = t
  filled (p ∷ ps) big t ok =
      let end_is : pos_part p.end ≡ t.0 = ap (λ q. pos_part q.end) t.1 in
      Consecutive-append 0 (suc t.0) size (download_part resource (meets p) (fresh p)).0.writes
        (all_writes (download_parts resource meets ps))
        (filled_part resource (meets p) 0 t.0 p ranged t.1 t.2 (omega (arith, end_is)) ok.0)
        (filled_from (suc t.0) ps (omega arith) t.3 ok.1)

generate_from-FirstBig :
    (rounds step size : ℕ) → 2 ≤ step → 2 ≤ size → FirstBig (generate_from rounds step 0 size)
unfolding generate_from
generate_from-FirstBig zero step size s h = omega arith
generate_from-FirstBig (suc rounds) step size s h = omega arith

two_each : (n b : ℕ) → 0 < b → 2 * b ≤ n → 2 ≤ n / b
two_each n b p h = grind arith

-- A file of a known size that has at least two bytes for each block, downloaded part by part, is
-- complete when every part has ended well: the pieces that were written, in the order of the parts, lie
-- end to end from the first byte to the last, whatever the server and the disk did on the way.
pub download_parts_complete :
    (resource : Resource) (meets : Subworker → List Attempt) (size : ℕ) (block_num : ℤ)
    → resource.supports_range ≡ true
    → 2 * positive_or 8 block_num ≤ size
    → 0 < size
    → AllDone (download_parts resource meets (generate (pos size) block_num true))
    → Consecutive 0
        (all_writes (download_parts resource meets (generate (pos size) block_num true)))
        size
download_parts_complete resource meets size block_num ranged enough positive ok =
    let bounds = blocks_for_bounds block_num size positive in
    let blocks = blocks_for block_num size in
    filled resource meets size ranged (generate (pos size) block_num true)
      (rw (generate_known size block_num positive) (
        generate_from-FirstBig (blocks - 1) (size / blocks) size
          (two_each size blocks bounds.0 (omega arith)) (omega (arith, bounds.0))))
      (generate-Tiles size block_num positive) ok
