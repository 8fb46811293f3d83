-- ===== src/Tests/Limiting.antt =====
-- The limiter on concrete inputs.
use godown.Base.{ℕ, ◌+◌, ◌-◌, ◌*◌, ◌≡◌, ◌≤◌, refl, false, some, [], ◌∷◌, arith}
use godown.Base.Int.{pos, ◌-ℤ◌}
use godown.Ratelimit.{second, Limiter, new_limiter, refill, try_take, Round, waits, wait}
use godown.Ratelimit.Bucket.{fresh, takes, total_bounded}
use godown.Ratelimit.Waiting.{wait_starves}

abbrev round : ℕ → Round
round now = record { now = now; cancelled = false }

-- Half of a second's worth.
abbrev half_taken : Limiter
half_taken = (try_take 0 5 (new_limiter (pos 10) 0)).0

total_bounded_example :
    (last : ℕ) × (half_taken.last ≡ some last)
    × (0 ≤ last)
    × (5 * second ≤ 10 * second + (last - 0) * 10)
unfolding try_take refill new_limiter ◌-ℤ◌
total_bounded_example = total_bounded 10 0 5 half_taken (omega arith) (takes 0 5 fresh refl)

-- A chunk of the HTTP worker at a limit of 1 KiB a second.
wait_starves_example :
    (wait (round 0 ∷ round 60000000000 ∷ []) (pos 65536) (some (new_limiter (pos 1024) 0))).1
    ≡ waits
wait_starves_example =
    wait_starves (round 0 ∷ round 60000000000 ∷ []) 1024 65536 0 (omega arith) (omega arith)
      (refl, (refl, tt))
