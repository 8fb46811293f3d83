-- ===== src/Ratelimit/Bucket.antt =====
-- The bucket never lets more through than its rate and one second's worth.
use godown.Base.{
  ℕ, ◌+◌, ◌-◌, ◌*◌, ◌≤◌, ◌<◌, ◌≡◌, ◌≢◌, refl, sym, ap, subst, ◌∙◌, Bool, true, false, some, arith,
  ltb, leb, if◌then◌else◌,
}
use godown.Base.Int.{pos, ◌+ℤ◌, ◌-ℤ◌}
use godown.Ratelimit.{
  second, Limiter, new_limiter, refill, Answer, granted, pause, pause_for, take_from, try_take,
}

-- A limiter with a positive rate, an allowance and a last refill.
abbrev pub bucket : ℕ → ℕ → ℕ → Limiter
bucket rate allowance last = record { rate = pos rate; allowance = pos allowance; last = some last }

-- The allowance after a refill.
abbrev pub filled : ℕ → ℕ → ℕ → ℕ → ℕ
filled rate allowance last now =
    if leb now last
    then allowance
    else if ltb (rate * second) (allowance + (now - last) * rate)
    then rate * second
    else allowance + (now - last) * rate

abbrev pub later_of : ℕ → ℕ → ℕ
later_of last now = if leb now last then last else now

pub refill-bucket :
    (rate allowance last now : ℕ)
    → 0 < rate
    → refill now (bucket rate allowance last)
      ≡ bucket rate (filled rate allowance last now) (later_of last now)
unfolding refill ◌+ℤ◌
refill-bucket rate allowance last now positive = ground arith

take_from-bucket :
    (rate allowance last need : ℕ)
    → take_from (pos need) (bucket rate allowance last) ≡ (
        if ltb allowance need
        then (bucket rate allowance last, pause (pause_for rate (pos need -ℤ pos allowance)))
        else (bucket rate (allowance - need) last, granted))
unfolding ◌-ℤ◌
take_from-bucket rate allowance last need = ground arith

limited :
    (rate allowance last now bytes : ℕ)
    → 0 < rate
    → try_take now bytes (bucket rate allowance last)
      ≡ take_from (pos (bytes * second)) (refill now (bucket rate allowance last))
unfolding try_take
limited rate allowance last now bytes positive = ground arith

-- One round at a positive rate.
pub try_take-bucket :
    (rate allowance last now bytes : ℕ)
    → 0 < rate
    → try_take now bytes (bucket rate allowance last) ≡ (
        if ltb (filled rate allowance last now) (bytes * second)
        then (
          bucket rate (filled rate allowance last now) (later_of last now),
          pause (pause_for rate (pos (bytes * second) -ℤ pos (filled rate allowance last now))),
        )
        else (
          bucket rate (filled rate allowance last now - bytes * second) (later_of last now),
          granted,
        ))
try_take-bucket rate allowance last now bytes positive =
    limited rate allowance last now bytes positive
    ∙ ap (take_from (pos (bytes * second))) (refill-bucket rate allowance last now positive)
    ∙ take_from-bucket rate (filled rate allowance last now) (later_of last now) (bytes * second)

-- The limiters that the rounds of any callers make from a new one of a positive rate, with the bytes
-- that were let through. A clock may stand still or go back.
pub data Reach (rate start : ℕ) : ℕ → Limiter → Type 0 where
  fresh : Reach rate start 0 (new_limiter (pos rate) start)
  takes :
      {total : ℕ} {l : Limiter} (now bytes : ℕ)
      → Reach rate start total l
      → (try_take now bytes l).1 ≡ granted
      → Reach rate start (total + bytes) (try_take now bytes l).0
  pauses :
      {total : ℕ} {l : Limiter} (now bytes : ℕ)
      → Reach rate start total l
      → (try_take now bytes l).1 ≢ granted
      → Reach rate start total (try_take now bytes l).0

-- What has passed and what is left come to no more than a second's worth and the refills.
record IsFair (rate start total : ℕ) (l : Limiter) : Type 0 where
  allowance : ℕ
  elapsed : ℕ
  shape : l ≡ bucket rate allowance (start + elapsed)
  fair : allowance + total * second ≤ rate * second + elapsed * rate

filled_le :
    (rate allowance last now : ℕ) → filled rate allowance last now ≤ allowance + (now - last) * rate
filled_le rate allowance last now = ground arith

later_time : (last now : ℕ) → later_of last now ≡ last + (now - last)
later_time last now = ground arith

-- A refill keeps the balance.
filled-fair :
    (rate allowance elapsed budget gap filling : ℕ)
    → allowance + budget ≤ rate * second + elapsed * rate
    → filling ≤ allowance + gap * rate
    → filling + budget ≤ rate * second + (elapsed + gap) * rate
filled-fair rate allowance elapsed budget gap filling fair le = omega arith

bucket_at :
    (rate allowance start elapsed gap : ℕ)
    → bucket rate allowance (start + elapsed + gap)
      ≡ bucket rate allowance (start + (elapsed + gap))
bucket_at rate allowance start elapsed gap = ap (bucket rate allowance) (omega arith)

-- A round from a fair state: what it lets through is in the balance.
record IsRound (rate start total bytes : ℕ) (x : Limiter × Answer) : Type 0 where
  passed : x.1 ≡ granted → IsFair rate start (total + bytes) x.0
  kept : x.1 ≢ granted → IsFair rate start total x.0

answer-IsRound :
    (rate start total bytes elapsed filling : ℕ) (b : Bool) (time : ℕ)
    → ltb filling (bytes * second) ≡ b
    → filling + total * second ≤ rate * second + elapsed * rate
    → IsRound rate start total bytes (
        if b
        then (bucket rate filling (start + elapsed), pause time)
        else (bucket rate (filling - bytes * second) (start + elapsed), granted))
answer-IsRound rate start total bytes elapsed filling true time e fair = record {
  passed = λ q. absurd (cc);
  kept = λ q. record { allowance = filling; elapsed = elapsed; shape = refl; fair = fair };
}
answer-IsRound rate start total bytes elapsed filling false time e fair = record {
  passed = λ q. record {
    allowance = filling - bytes * second;
    elapsed = elapsed;
    shape = refl;
    fair = ground arith;
  };
  kept = λ q. absurd (q refl);
}

try_take-IsRound :
    (rate start total now bytes : ℕ) (l : Limiter)
    → 0 < rate
    → IsFair rate start total l
    → IsRound rate start total bytes (try_take now bytes l)
try_take-IsRound rate start total now bytes l positive f =
    let last = start + f.elapsed in
    let gap = now - last in
    let filling = filled rate f.allowance last now in
    let time = pause_for rate (pos (bytes * second) -ℤ pos filling) in
    let at : later_of last now ≡ start + (f.elapsed + gap) = later_time last now ∙ omega arith in
    subst (IsRound rate start total bytes)
      (sym (
        ap (try_take now bytes) f.shape
        ∙ try_take-bucket rate f.allowance last now bytes positive
        ∙ ap
            (λ (k : ℕ).
              if ltb filling (bytes * second)
              then (bucket rate filling k, pause time)
              else (bucket rate (filling - bytes * second) k, granted))
            at))
      (answer-IsRound rate start total bytes (f.elapsed + gap) filling
        (ltb filling (bytes * second)) time refl
        (filled-fair rate f.allowance f.elapsed (total * second) gap filling f.fair
          (filled_le rate f.allowance last now)))

Reach-IsFair :
    (rate start total : ℕ) (l : Limiter)
    → 0 < rate
    → Reach rate start total l
    → IsFair rate start total l
unfolding new_limiter
Reach-IsFair rate start total l positive fresh = record {
  allowance = rate * second;
  elapsed = 0;
  shape = ap (bucket rate (rate * second)) (omega arith);
  fair = omega arith;
}
Reach-IsFair rate start total l positive (takes {total = before} {l = m} now bytes r ok) =
    (try_take-IsRound rate start before now bytes m positive
        (Reach-IsFair rate start before m positive r)).passed
      ok
Reach-IsFair rate start total l positive (pauses {l = m} now bytes r other) =
    (try_take-IsRound rate start total now bytes m positive
        (Reach-IsFair rate start total m positive r)).kept
      other

total_of :
    (rate start elapsed total allowance : ℕ)
    → allowance + total * second ≤ rate * second + elapsed * rate
    → total * second ≤ rate * second + (start + elapsed - start) * rate
total_of rate start elapsed total allowance fair =
    let e : start + elapsed - start ≡ elapsed = omega arith in rw e (omega arith)

-- Whatever callers ask for and whenever, at a positive rate that is not changed, the bytes let through
-- are no more than the rate times the time from the start to the last refill, and one second's worth
-- besides.
pub total_bounded :
    (rate start total : ℕ) (l : Limiter)
    → 0 < rate
    → Reach rate start total l
    → (last : ℕ) × (l.last ≡ some last)
      × (start ≤ last)
      × (total * second ≤ rate * second + (last - start) * rate)
total_bounded rate start total l positive r =
    let f = Reach-IsFair rate start total l positive r in
    (
      start + f.elapsed,
      ap (λ x. x.last) f.shape,
      omega arith,
      total_of rate start f.elapsed total f.allowance f.fair,
    )
