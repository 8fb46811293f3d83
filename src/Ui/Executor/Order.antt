-- ===== src/Ui/Executor/Order.antt =====
-- What is accepted is run, once, in the order in which it was submitted.
use godown.Base.{
  ◌≡◌, refl, sym, ap, subst, ◌∙◌, inl, inr, true, false, Option, none, some, List, [], ◌∷◌, ◌++◌,
  arith, Bool-cases,
}
use godown.Ui.Executor.{SerialExecutor, new_serial_executor, submit, close, take_action, run_round}
use mathlib.Core.List.{append-nil, append_assoc}

module _ {ℓ} {A : Type ℓ} where
  -- The executors that can be reached, with the actions whose Submit said true, oldest first.
  pub data Reach : List A → SerialExecutor A → Type ℓ where
    start : Reach [] new_serial_executor
    accepts :
        {accepted : List A} {e : SerialExecutor A} (action : A)
        → Reach accepted e
        → (submit (some action) e).1 ≡ true
        → Reach (accepted ++ action ∷ []) (submit (some action) e).0
    refuses :
        {accepted : List A} {e : SerialExecutor A} (given : Option A)
        → Reach accepted e
        → (submit given e).1 ≡ false
        → Reach accepted (submit given e).0
    closes :
        {accepted : List A} {e : SerialExecutor A} → Reach accepted e → Reach accepted (close e)
    runs :
        {accepted : List A} {e : SerialExecutor A} → Reach accepted e → Reach accepted (run_round e)

  record IsOrderly (accepted : List A) (e : SerialExecutor A) : Type ℓ where
    kept : e.ran ++ e.queue ≡ accepted
    ends : e.done ≡ true → (e.closed ≡ true) × (e.queue ≡ [])

  submit-IsOrderly :
      (accepted : List A) (e : SerialExecutor A) (action : A)
      → (submit (some action) e).1 ≡ true
      → IsOrderly accepted e
      → IsOrderly (accepted ++ action ∷ []) (submit (some action) e).0
  unfolding submit
  submit-IsOrderly accepted e action ok o = elim (Bool-cases e.closed) [
    | inl c ↦ absurd (ground arith)
    | inr c ↦
        rw (c, submit)
          (record {
            kept =
                sym (append_assoc e.ran e.queue (action ∷ []))
                ∙ ap (λ xs. xs ++ action ∷ []) o.kept;
            ends = λ d. absurd (ground (arith, o.ends d));
          })
  ]

  submit_refused :
      (e : SerialExecutor A) (given : Option A)
      → (submit given e).1 ≡ false
      → (submit given e).0 ≡ e
  unfolding submit
  submit_refused e none h = refl
  submit_refused e (some action) h = ground arith

  close_shut : (e : SerialExecutor A) → e.closed ≡ true → close e ≡ e
  unfolding close
  close_shut e h = ground arith

  close_open : (e : SerialExecutor A) → e.closed ≡ false → close e ≡ record e { closed = true }
  unfolding close
  close_open e h = ground arith

  round_done : (e : SerialExecutor A) → e.done ≡ true → run_round e ≡ e
  unfolding run_round
  round_done e h = ground arith

  round_going : (e : SerialExecutor A) → e.done ≡ false → run_round e ≡ take_action e.queue e
  unfolding run_round
  round_going e h = ground arith

  idle_ends :
      (e : SerialExecutor A)
      → e.queue ≡ []
      → e.closed ≡ true
      → take_action [] e ≡ record e { done = true }
  idle_ends e at h = ground arith

  idle_waits : (e : SerialExecutor A) → e.closed ≡ false → take_action [] e ≡ e
  idle_waits e h = ground arith

  close-IsOrderly :
      (accepted : List A) (e : SerialExecutor A)
      → IsOrderly accepted e
      → IsOrderly accepted (close e)
  close-IsOrderly accepted e o = elim (Bool-cases e.closed) [
    | inl c ↦ subst (IsOrderly accepted) (sym (close_shut e c)) o
    | inr c ↦
        subst (IsOrderly accepted) (sym (close_open e c))
          (record { kept = o.kept; ends = λ d. absurd (ground (arith, o.ends d)) })
  ]

  take_action-IsOrderly :
      (accepted : List A) (q : List A) (e : SerialExecutor A)
      → e.queue ≡ q
      → e.done ≡ false
      → IsOrderly accepted e
      → IsOrderly accepted (take_action q e)
  take_action-IsOrderly accepted [] e at going o = elim (Bool-cases e.closed) [
    | inl c ↦
        subst (IsOrderly accepted) (sym (idle_ends e at c))
          (record { kept = o.kept; ends = λ d. (c, at) })
    | inr c ↦ subst (IsOrderly accepted) (sym (idle_waits e c)) o
  ]
  take_action-IsOrderly accepted (action ∷ rest) e at going o = record {
    kept = append_assoc e.ran (action ∷ []) rest ∙ ap (λ q. e.ran ++ q) (sym at) ∙ o.kept;
    ends = λ d. absurd (cc);
  }

  run_round-IsOrderly :
      (accepted : List A) (e : SerialExecutor A)
      → IsOrderly accepted e
      → IsOrderly accepted (run_round e)
  run_round-IsOrderly accepted e o = elim (Bool-cases e.done) [
    | inl d ↦ subst (IsOrderly accepted) (sym (round_done e d)) o
    | inr d ↦
        subst (IsOrderly accepted) (sym (round_going e d))
          (take_action-IsOrderly accepted e.queue e refl d o)
  ]

  Reach-IsOrderly :
      (accepted : List A) (e : SerialExecutor A) → Reach accepted e → IsOrderly accepted e
  Reach-IsOrderly accepted e start = record { kept = refl; ends = λ d. absurd (cc) }
  Reach-IsOrderly accepted e (accepts {accepted = before} {e = e'} action r ok) =
      submit-IsOrderly before e' action ok (Reach-IsOrderly before e' r)
  Reach-IsOrderly accepted e (refuses {e = e'} given r refused) =
      rw (submit_refused e' given refused) (Reach-IsOrderly accepted e' r)
  Reach-IsOrderly accepted e (closes {e = e'} r) =
      close-IsOrderly accepted e' (Reach-IsOrderly accepted e' r)
  Reach-IsOrderly accepted e (runs {e = e'} r) =
      run_round-IsOrderly accepted e' (Reach-IsOrderly accepted e' r)

  -- However the calls and the goroutine take turns, the actions that have run, and behind them the
  -- queue, are the accepted actions in the order in which they were submitted: none is lost, run
  -- twice or overtaken.
  pub runs_in_order :
      (accepted : List A) (e : SerialExecutor A) → Reach accepted e → e.ran ++ e.queue ≡ accepted
  runs_in_order accepted e r = (Reach-IsOrderly accepted e r).kept

  -- When CloseAndWait returns, every accepted action has run.
  pub done_after_all :
      (accepted : List A) (e : SerialExecutor A)
      → Reach accepted e
      → e.done ≡ true
      → e.ran ≡ accepted
  done_after_all accepted e r d =
      let o = Reach-IsOrderly accepted e r in
      sym (append-nil e.ran) ∙ ap (λ q. e.ran ++ q) (sym (o.ends d).1) ∙ o.kept
