-- ===== src/Ratelimit/Waiting.antt =====
-- How long a caller waits, and when it waits for ever.
use godown.Base.{
  ℕ, ◌+◌, ◌-◌, ◌*◌, ◌/◌, ◌≤◌, ◌<◌, ◌≡◌, refl, ap, subst, ◌∙◌, inl, inr, true, false, some, List, [],
  ◌∷◌, arith, ltb, Bool-cases,
}
use godown.Base.Int.{pos, ◌-ℤ◌, ltb_ℤ}
use godown.Ratelimit.{
  second, least_pause, Limiter, Answer, granted, pause, pause_for, try_take, Round, passed, waits,
  wait_loop, wait, new_limiter,
}
use native.Mathlib.Nat.{lt-mul-div-succ, mul-le-mul_right}
use godown.Ratelimit.Bucket.{bucket, filled, later_of, try_take-bucket}

abbrev pub AllWait : List Round → Type 0
AllWait [] = Unit {0}
AllWait (r ∷ rs) = (r.cancelled ≡ false) × AllWait rs

-- How long an answer says to pause.
abbrev pub pause_of : Answer → ℕ
pause_of granted = 0
pause_of (pause time) = time

loop_pauses :
    (bytes : ℕ) (r : Round) (rs : List Round) (l m : Limiter) (time : ℕ)
    → try_take r.now bytes l ≡ (m, pause time)
    → r.cancelled ≡ false
    → wait_loop (r ∷ rs) bytes l ≡ wait_loop rs bytes m
unfolding wait_loop
loop_pauses bytes r rs l m time e goes = ground arith

module _ (rate bytes : ℕ) (positive : 0 < rate) where
  loop_passes :
      (allowance last : ℕ) (r : Round) (rs : List Round)
      → ltb (filled rate allowance last r.now) (bytes * second) ≡ false
      → (wait_loop (r ∷ rs) bytes (bucket rate allowance last)).1 ≡ passed
  unfolding wait_loop
  loop_passes allowance last r rs full =
      rw (try_take-bucket rate allowance last r.now bytes positive, full, wait_loop) refl

  -- A round that finds too little.
  round_short :
      (allowance last now : ℕ)
      → ltb (filled rate allowance last now) (bytes * second) ≡ true
      → try_take now bytes (bucket rate allowance last) ≡ (
        bucket rate (filled rate allowance last now) (later_of last now),
        pause (pause_for rate (pos (bytes * second) -ℤ pos (filled rate allowance last now))),
      )
  round_short allowance last now short =
      rw (try_take-bucket rate allowance last now bytes positive, short) refl

  loop_goes_on :
      (allowance last : ℕ) (r : Round) (rs : List Round)
      → ltb (filled rate allowance last r.now) (bytes * second) ≡ true
      → r.cancelled ≡ false
      → wait_loop (r ∷ rs) bytes (bucket rate allowance last)
        ≡ wait_loop rs bytes (bucket rate (filled rate allowance last r.now) (later_of last r.now))
  loop_goes_on allowance last r rs short goes =
      loop_pauses bytes r rs (bucket rate allowance last)
        (bucket rate (filled rate allowance last r.now) (later_of last r.now)) _
        (round_short allowance last r.now short) goes

filled_capped :
    (rate allowance last now : ℕ)
    → allowance ≤ rate * second
    → filled rate allowance last now ≤ rate * second
filled_capped rate allowance last now h = ground arith

never_enough :
    (rate bytes filling : ℕ)
    → rate < bytes
    → filling ≤ rate * second
    → ltb filling (bytes * second) ≡ true
never_enough rate bytes filling more cap = ground arith

starves :
    (rate bytes : ℕ)
    → 0 < rate
    → rate < bytes
    → (rounds : List Round) (allowance last : ℕ) → AllWait rounds
    → allowance ≤ rate * second
    → (wait_loop rounds bytes (bucket rate allowance last)).1 ≡ waits
unfolding wait_loop
starves rate bytes positive more [] allowance last all cap = refl
starves rate bytes positive more (r ∷ rs) allowance last all cap =
    let filling = filled rate allowance last r.now in
    let kept = filled_capped rate allowance last r.now cap in
    ap (λ x. x.1)
      (loop_goes_on rate bytes positive allowance last r rs
        (never_enough rate bytes filling more kept) all.0)
    ∙ starves rate bytes positive more rs filling (later_of last r.now) all.1 kept

-- A new limiter that nobody else calls never lets more bytes through than the rate gives in a
-- second: the allowance stops at one second's worth, so the loop of Wait goes on for as many rounds
-- as come, at whatever times, until the context ends.
pub wait_starves :
    (rounds : List Round) (rate bytes now : ℕ)
    → 0 < rate
    → rate < bytes
    → AllWait rounds
    → (wait rounds (pos bytes) (some (new_limiter (pos rate) now))).1 ≡ waits
unfolding wait new_limiter
wait_starves rounds rate bytes now positive more all =
    let some_bytes : ltb_ℤ (pos 0) (pos bytes) ≡ true = ground arith in
    rw some_bytes (starves rate bytes positive more rounds (rate * second) now all (omega arith))

-- Above its filling, or at one second's worth.
filled_gain :
    (rate allowance last now need gain : ℕ)
    → last ≤ now
    → need ≤ rate * second
    → gain ≤ (now - last) * rate
    → need ≤ allowance + gain
    → ltb (filled rate allowance last now) need ≡ false
filled_gain rate allowance last now need gain on fits le enough = ground arith

filled_short :
    (rate allowance last now need gain : ℕ)
    → last ≤ now
    → need ≤ rate * second
    → gain ≤ (now - last) * rate
    → ltb (filled rate allowance last now) need ≡ true
    → allowance + gain ≤ filled rate allowance last now
filled_short rate allowance last now need gain on fits le short = ground arith

pause_long :
    (rate need filling : ℕ)
    → (least_pause ≤ pause_for rate (pos need -ℤ pos filling))
      × ((need - filling) / rate ≤ pause_for rate (pos need -ℤ pos filling))
unfolding ◌-ℤ◌
pause_long rate need filling = ground arith

-- A gap of that many nanoseconds leaves less than one nanosecond's worth to wait for.
gap_gain : (rate d gap : ℕ) → 0 < rate → d / rate ≤ gap → d ≤ gap * rate + rate
gap_gain rate d gap positive long =
    omega (arith, lt-mul-div-succ d positive, mul-le-mul_right rate long)

later_same : (last now : ℕ) → last ≤ now → later_of last now ≡ now
later_same last now on = ground arith

module _ (rate bytes : ℕ) (positive : 0 < rate) (fits : bytes ≤ rate) where
  -- The third round finds enough.
  third_passes :
      (filling last : ℕ) (r : Round)
      → bytes * second ≤ filling + rate
      → last + least_pause ≤ r.now
      → (wait_loop (r ∷ []) bytes (bucket rate filling last)).1 ≡ passed
  third_passes filling last r nearly later =
      let one_gap : 1 * rate ≤ (r.now - last) * rate = mul-le-mul_right rate (omega arith) in
      loop_passes rate bytes positive filling last r [] (
        filled_gain rate filling last r.now (bytes * second) rate (omega arith) (omega arith)
          (omega (arith, one_gap)) nearly)

  second_passes :
      (filling last : ℕ) (b c : Round)
      → last + pause_for rate (pos (bytes * second) -ℤ pos filling) ≤ b.now
      → b.cancelled ≡ false
      → b.now + pause_of (try_take b.now bytes (bucket rate filling last)).1 ≤ c.now
      → (wait_loop (b ∷ c ∷ []) bytes (bucket rate filling last)).1 ≡ passed
  second_passes filling last b c paused goes next =
      let need = bytes * second in
      let next_filling = filled rate filling last b.now in
      let long = pause_long rate need filling in
      let gain =
        gap_gain rate (need - filling) (b.now - last) positive (omega (arith, long.1, paused)) in
      elim (Bool-cases (ltb next_filling need)) [
        | inr full ↦ loop_passes rate bytes positive filling last b (c ∷ []) full
        | inl short ↦
            let e = round_short rate bytes positive filling last b.now short in
            let at_least =
              filled_short rate filling last b.now need ((b.now - last) * rate) (omega arith)
                (omega arith) (omega arith) short in
            let longer = pause_long rate need next_filling in
            let next' = subst (λ (x : Limiter × Answer). b.now + pause_of x.1 ≤ c.now) e next in
            ap (λ x. x.1) (loop_goes_on rate bytes positive filling last b (c ∷ []) short goes)
            ∙ third_passes next_filling (later_of last b.now) c (omega (arith, gain, at_least))
                (omega (arith, longer.0, next', later_same last b.now (omega arith)))
      ]

-- No more bytes than the rate gives in a second are let through in the third round at the latest, if
-- each round comes no sooner than the pause before it asks for, no other caller comes between, and
-- the context does not end: Wait returns.
pub wait_passes :
    (rate bytes allowance last : ℕ) (a b c : Round)
    → 0 < rate
    → 0 < bytes
    → bytes ≤ rate
    → last ≤ a.now
    → a.cancelled ≡ false
    → b.cancelled ≡ false
    → a.now + pause_of (try_take a.now bytes (bucket rate allowance last)).1 ≤ b.now
    → b.now
        + pause_of (try_take b.now bytes (try_take a.now bytes (bucket rate allowance last)).0).1
      ≤ c.now
    → (wait (a ∷ b ∷ c ∷ []) (pos bytes) (some (bucket rate allowance last))).1 ≡ passed
unfolding wait
wait_passes rate bytes allowance last a b c positive some_bytes fits on goes_a goes_b to_b to_c =
    let filling = filled rate allowance last a.now in
    let asks : ltb_ℤ (pos 0) (pos bytes) ≡ true = ground arith in
    rw asks (elim (Bool-cases (ltb filling (bytes * second))) [
      | inr full ↦ loop_passes rate bytes positive allowance last a (b ∷ c ∷ []) full
      | inl short ↦
          let e = round_short rate bytes positive allowance last a.now short in
          let to_b' = subst (λ (x : Limiter × Answer). a.now + pause_of x.1 ≤ b.now) e to_b in
          let to_c' =
            subst (λ (x : Limiter × Answer). b.now + pause_of (try_take b.now bytes x.0).1 ≤ c.now)
              e to_c in
          ap (λ x. x.1)
            (loop_goes_on rate bytes positive allowance last a (b ∷ c ∷ []) short goes_a)
          ∙ second_passes rate bytes positive fits filling (later_of last a.now) b c
              (omega (arith, to_b', later_same last a.now on)) goes_b to_c'
    ])
