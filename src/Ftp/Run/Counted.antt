-- ===== src/Ftp/Run/Counted.antt =====
-- That the loop over the attempts counts the bytes that lie in the partial file.
use godown.Base.{
  ℕ, ◌+◌, ◌≡◌, ◌∙◌, ap, Option, none, some, List, [], ◌∷◌, ◌++◌, ◌==◌, inl, inr, arith, Bool-cases,
}
use godown.Base.Int.{ℤ, pos, ltb_ℤ}
use godown.Core.Output.{Error}
use godown.Ftp.Transfer.{Step, restart, wrote, End, returned, open_ended, Outcome, transfer}
use godown.Ftp.Transfer.Counted.{
  replay, IsCounted, ends-IsCounted, on_error, on_test, transfer-IsCounted,
}
use godown.Ftp.Run.{Attempt, before_all, ends_with, failures_behind, failed_attempt, try_all}

replay-append :
    (n m : ℕ) (steps later : List Step)
    → replay n steps ≡ some m
    → replay n (steps ++ later) ≡ replay m later
unfolding replay
replay-append n m [] later h = let same : n ≡ m = ground (arith, h) in ap (λ k. replay k later) same
replay-append n m (restart cut ∷ steps) later h = replay-append 0 m steps later h
replay-append n m (wrote offset k ∷ steps) later h = elim (Bool-cases (offset == n)) [
  | inl here ↦ ground (arith, here, replay-append (n + k) m steps later (ground (arith, h, here)))
  | inr apart ↦ let impossible : ⊥ = ground (arith, h, apart) in elim impossible [ ]
]

pub ends_with-IsCounted :
    (n : ℕ) (e : Option Error) (o : Outcome) → IsCounted n o → IsCounted n (ends_with e o)
ends_with-IsCounted n e o h = record { counted = h.counted }

before_all-IsCounted :
    (n : ℕ) (o rest : Outcome)
    → IsCounted n o
    → IsCounted o.received rest
    → IsCounted n (before_all o rest)
before_all-IsCounted n o rest h k = record {
  counted = replay-append n o.received o.steps rest.steps h.counted ∙ k.counted;
}

on_returned :
    (n : ℕ) (x : End) (o : Outcome) (bad : Error → Outcome)
    → IsCounted n o
    → ((e : Error) → IsCounted n (bad e))
    → IsCounted n (elim x [ open_ended ↦ o | returned y ↦ elim y [ none ↦ o | some e ↦ bad e ] ])
on_returned n open_ended o bad h k = h
on_returned n (returned none) o bad h k = h
on_returned n (returned (some e)) o bad h k = k e

module _ (total max_retries : ℤ) where
  failed-IsCounted :
      (a : Attempt) (e : Error) (failures n : ℕ) (o rest : Outcome)
      → IsCounted n o
      → IsCounted o.received rest
      → IsCounted n (failed_attempt total max_retries a e failures o rest)
  failed-IsCounted a e failures n o rest h k =
      on_error n a.context_error _ (λ c. ends_with (some c) o)
        (on_test n (ltb_ℤ max_retries (pos failures)) o _ h (
          on_error n a.pause_error _ (λ c. ends_with (some c) o) (before_all-IsCounted n o rest h k)
            (λ c. ends_with-IsCounted n (some c) o h)))
        (λ c. ends_with-IsCounted n (some c) o h)

  -- Over all attempts, the bytes received are those of the partial file that lie one behind the
  -- other from its first on.
  pub try_all-IsCounted :
      (attempts : List Attempt) (failures n : ℕ)
      → IsCounted n (try_all total max_retries attempts failures n)
  unfolding try_all
  try_all-IsCounted [] failures n = ends-IsCounted n open_ended
  try_all-IsCounted (a ∷ attempts) failures n =
      let o = transfer total a.opening a.reads n in
      let here = transfer-IsCounted total a.opening a.reads n in
      on_returned n o.end o _ here (λ e.
        failed-IsCounted a e (failures_behind n o.received failures) n o _ here
          (try_all-IsCounted attempts (failures_behind n o.received failures) o.received))
