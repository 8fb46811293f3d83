-- ===== src/Ftp/Transfer/Limited.antt =====
-- The requests of waitLimited.
use godown.Base.{
  ℕ, zero, suc, ◌+◌, ◌-◌, ◌≤◌, ◌<◌, ◌≡◌, refl, sym, subst, false, Option, none, some, List, [], ◌∷◌,
  ◌==◌, ◌⊎◌, inl, inr, arith, Bool-cases,
}
use godown.Base.Int.{pos, pos_part, ltb_ℤ}
use godown.Core.Output.{Error}
use godown.Ftp.Transfer.{Turn, Waited, passed, stopped, min, wait_limited}

-- Each request is for a byte at least, and for no more than the rate of its turn.
pub data Asks (turns : ℕ → Turn) : List ℕ → Type 0 where
  asks_none : Asks turns []
  asks :
      (turn : ℕ) {n : ℕ} {rest : List ℕ}
      → 0 < n
      → n ≤ pos_part (turns turn).rate
      → Asks turns rest
      → Asks turns (n ∷ rest)

abbrev pub sum : List ℕ → ℕ
sum [] = 0
sum (n ∷ rest) = n + sum rest

-- What waitLimited comes to.
pub record IsLimited (turns : ℕ → Turn) (bytes : ℕ) (x : List ℕ × Waited) : Type 0 where
  pub asked : Asks turns x.0
  pub no_more : sum x.0 ≤ bytes
  pub ended :
      ((e : Error) × (x.1 ≡ stopped e))
      ⊎ ((x.1 ≡ passed)
          × ((sum x.0 ≡ bytes) ⊎ ((turn : ℕ) × (ltb_ℤ (pos 0) (turns turn).rate ≡ false))))

module _ (turns : ℕ → Turn) where
  nothing_asked :
      (bytes : ℕ)
      → (0 ≡ bytes) ⊎ ((turn : ℕ) × (ltb_ℤ (pos 0) (turns turn).rate ≡ false))
      → IsLimited turns bytes ([], passed)
  nothing_asked bytes why = record {
    asked = asks_none;
    no_more = omega arith;
    ended = inr (refl, why);
  }

  stopped_at :
      (turn bytes n : ℕ) (e : Error)
      → 0 < n
      → n ≤ pos_part (turns turn).rate
      → n ≤ bytes
      → IsLimited turns bytes (n ∷ [], stopped e)
  stopped_at turn bytes n e some_asked within fits = record {
    asked = asks turn some_asked within asks_none;
    no_more = omega arith;
    ended = inl (e, refl);
  }

  asked_then :
      (turn bytes n : ℕ) (x : List ℕ × Waited)
      → 0 < n
      → n ≤ pos_part (turns turn).rate
      → n ≤ bytes
      → IsLimited turns (bytes - n) x
      → IsLimited turns bytes (n ∷ x.0, x.1)
  asked_then turn bytes n x some_asked within fits rest = record {
    asked = asks turn some_asked within rest.asked;
    no_more = omega (arith, rest.no_more);
    ended = elim rest.ended [
      | inl e ↦ inl e
      | inr (well, inl all) ↦ inr (well, inl (omega (arith, all)))
      | inr (well, inr lifted) ↦ inr (well, inr lifted)
    ];
  }

  by_error :
      (turn bytes n : ℕ) (error : Option Error) (x : List ℕ × Waited)
      → 0 < n
      → n ≤ pos_part (turns turn).rate
      → n ≤ bytes
      → IsLimited turns (bytes - n) x
      → IsLimited turns bytes (elim error [ some e ↦ (n ∷ [], stopped e) | none ↦ (n ∷ x.0, x.1) ])
  by_error turn bytes n none x some_asked within fits rest =
      asked_then turn bytes n x some_asked within fits rest
  by_error turn bytes n (some e) x some_asked within fits rest =
      stopped_at turn bytes n e some_asked within fits

  -- With as many rounds as bytes, waitLimited ends; it asks the limiter for pieces of a byte at
  -- least, none larger than what the rate of its turn gives in a second, and in all for no more
  -- than the bytes; and if it ends well, for all of them, unless the limit was lifted meanwhile.
  pub wait_limited-IsLimited :
      (fuel bytes : ℕ) → bytes ≤ fuel → IsLimited turns bytes (wait_limited turns fuel bytes)
  unfolding wait_limited
  wait_limited-IsLimited zero bytes h =
      let none_left : bytes ≡ 0 = omega arith in
      subst (λ (n : ℕ). IsLimited turns n (wait_limited turns 0 n)) (sym none_left)
        (record { asked = asks_none; no_more = omega arith; ended = inr (refl, inl refl) })
  wait_limited-IsLimited (suc fuel) bytes h =
      let chunk = min bytes (pos_part (turns fuel).rate) in
      elim (Bool-cases (bytes == 0)) [
        | inl none_left ↦ rw none_left (nothing_asked bytes (inl (ground (arith, none_left))))
        | inr some_left ↦ elim (Bool-cases (ltb_ℤ (pos 0) (turns fuel).rate)) [
          | inr lifted ↦ rw (some_left, lifted) (nothing_asked bytes (inr (fuel, lifted)))
          | inl limited ↦
              let some_asked : 0 < chunk = ground (arith, some_left, limited) in
              let within : chunk ≤ pos_part (turns fuel).rate = ground arith in
              let fits : chunk ≤ bytes = ground arith in
              rw (some_left, limited)
                (by_error fuel bytes chunk (turns fuel).wait_error _ some_asked within fits
                  (wait_limited-IsLimited fuel (bytes - chunk) (omega (arith, some_asked, fits))))
        ]
      ]
