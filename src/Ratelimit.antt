-- ===== src/Ratelimit.antt =====
-- internal/ratelimit/limiter.go: the bucket that limits a rate. Times are nanoseconds. The allowance is
-- counted in billionths of a byte, in which a refill by an elapsed time is a whole number, so that no
-- float64 is rounded.
pub mod Bucket
pub mod Waiting
use godown.Base.{
  ℕ, ◌+◌, ◌-◌, ◌*◌, ◌/◌, Bool, true, false, not, ◌||◌, Option, none, some, List, [], ◌∷◌, leb, ltb,
  if◌then◌else◌,
}
use godown.Base.Int.{ℤ, pos, negsuc, pos_part, neg_part, ◌+ℤ◌, ◌-ℤ◌, ltb_ℤ}
use Prim.Native.Nat.{max}

abbrev pub second : ℕ
second = 1000000000

abbrev pub least_pause : ℕ
least_pause = 10000000

-- `last` is none where the source has the zero time.
pub record Limiter : Type 0 where
  pub rate : ℤ
  pub allowance : ℤ
  pub last : Option ℕ

-- float64(n), in billionths.
abbrev pub scaled : ℤ → ℤ
scaled (pos n) = pos (n * second)
scaled (negsuc n) = negsuc ((n + 1) * second - 1)

unfoldable pub new_limiter : ℤ → ℕ → Limiter
new_limiter rate now = record { rate = rate; allowance = scaled rate; last = some now }

abbrev pub least : ℤ → ℤ → ℤ
least a b = if ltb_ℤ b a then b else a

-- The refill for the time since `before`, at a positive rate.
abbrev pub refill_since : ℕ → ℕ → Limiter → Limiter
refill_since before now l = if leb now before then l else record l {
  allowance = least (l.allowance +ℤ pos ((now - before) * pos_part l.rate)) (scaled l.rate);
  last = some now;
}

unfoldable pub refill : ℕ → Limiter → Limiter
refill now l = elim l.last [
  | none ↦ record l { last = some now }
  | some before ↦
      if ltb_ℤ (pos 0) l.rate then refill_since before now l else record l { last = some now }
]

unfoldable pub set_rate : ℕ → ℤ → Limiter → Limiter
set_rate now given l =
    let rate = if ltb_ℤ given (pos 0) then pos 0 else given in
    let full = refill now l in
    if ltb_ℤ (pos 0) rate
    then record full { rate = rate; allowance = least full.allowance (scaled rate) }
    else record full { rate = rate; allowance = pos 0 }

pub data Answer : Type 0 where
  granted : Answer
  pause : ℕ → Answer  -- so many nanoseconds

-- How long the rest takes to come, and at least 10 ms.
abbrev pub pause_for : ℕ → ℤ → ℕ
pause_for rate deficit = max least_pause (pos_part deficit / rate)

abbrev pub take_from : ℤ → Limiter → Limiter × Answer
take_from need l =
    if not (ltb_ℤ l.allowance need)
    then (record l { allowance = l.allowance -ℤ need }, granted)
    else (l, pause (pause_for (pos_part l.rate) (need -ℤ l.allowance)))

-- One round of the loop in Wait, up to its pause, for a positive number of bytes.
unfoldable pub try_take : ℕ → ℕ → Limiter → Limiter × Answer
unfolding refill
try_take now bytes l =
    if ltb_ℤ (pos 0) l.rate then take_from (pos (bytes * second)) (refill now l) else (l, granted)

-- A round: the time at which it takes the lock, and whether the context ends in its pause.
pub record Round : Type 0 where
  pub now : ℕ
  pub cancelled : Bool

pub data Outcome : Type 0 where
  passed : Outcome
  ended : Outcome
  waits : Outcome  -- the rounds of the list are over, and the loop goes on

unfoldable pub wait_loop : List Round → ℕ → Limiter → Limiter × Outcome
unfolding try_take
wait_loop [] bytes l = (l, waits)
wait_loop (r ∷ rs) bytes l =
    let l' = (try_take r.now bytes l).0 in
    let rest = wait_loop rs bytes l' in
    elim (try_take r.now bytes l).1 [
      | granted ↦ (l', passed)
      | pause time ↦ if r.cancelled then (l', ended) else rest
    ]

-- Wait; `none` is the nil limiter.
unfoldable pub wait : List Round → ℤ → Option Limiter → Option Limiter × Outcome
unfolding wait_loop
wait rounds bytes none = (none, passed)
wait rounds bytes (some l) =
    if ltb_ℤ (pos 0) bytes
    then (let x = wait_loop rounds (pos_part bytes) l in (some x.0, x.1))
    else (some l, passed)
