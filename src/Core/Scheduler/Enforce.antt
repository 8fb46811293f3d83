-- ===== src/Core/Scheduler/Enforce.antt =====
-- After the slot limit is enforced, no more slots are taken by live tasks than there are.
use godown.Base.{
  ℕ, suc, ◌+◌, ◌≤◌, ◌<◌, ◌≡◌, refl, sym, subst, ◌⊎◌, inl, inr, false, List, [], ◌∷◌, String, arith,
  eq_iff, leb, ltb, ltb→lt, leb→le, lookup, has, modify, count, lookup-modify, has-modify,
  Option-cases, Bool-cases,
}
use godown.Core.Scheduler.{
  Scheduler, count_running, takes_slot, pause_task, cancel, cancel_run, enforce_from,
  enforce_max_running,
}
use godown.Core.Scheduler.Counting.{count_running-live_le}
use godown.Core.Scheduler.Along.{occupies, count_running-le-order}
use godown.Core.Scheduler.Invariant.{
  IsKept, IsValid, IsBounded, modify-IsKept, modify_run-IsKept, pause_task-IsCalm,
}

-- The step that pauses a task and cancels its run.
abbrev stop_task : String → Scheduler → Scheduler
stop_task id s = cancel id (record s { tasks = modify id pause_task s.tasks })

stop_task-IsKept : (id : String) (s : Scheduler) → IsKept s → IsKept (stop_task id s)
stop_task-IsKept id s v =
    modify_run-IsKept id cancel_run (record s { tasks = modify id pause_task s.tasks })
      (modify-IsKept id pause_task s pause_task-IsCalm.same_id v)

-- What one round does: it passes an id over, keeps its task, or stops it.
abbrev Round : ℕ → String → List String → Scheduler → Type 0
Round kept id ids s =
    let result = enforce_from kept (id ∷ ids) s in
    ((result ≡ enforce_from kept ids s) × (occupies s id ≡ false))
    ⊎ ((result ≡ enforce_from (suc kept) ids s) × (kept < s.max_running))
    ⊎ (result ≡ enforce_from kept ids (stop_task id s))

enforce_from-Round :
    (kept : ℕ) (id : String) (ids : List String) (s : Scheduler) → Round kept id ids s
unfolding enforce_from
enforce_from-Round kept id ids s = elim (Bool-cases (has id s.running)) [
  | inr e ↦ inl (rw (e, enforce_from), ground arith)
  | inl e ↦ elim (Option-cases (lookup id s.tasks)) [
    | inl n ↦ inl (rw (e, n, enforce_from), ground arith)
    | inr (t, there) ↦ elim (Bool-cases t.uses_slot) [
      | inr n ↦ inl (rw (e, there, n, enforce_from), ground arith)
      | inl u ↦ elim (Bool-cases (ltb kept s.max_running)) [
        | inl l ↦ inr (inl (rw (e, there, u, l, enforce_from), ltb→lt _ _ l))
        | inr g ↦ inr (inr (rw (e, there, u, g, enforce_from)))
      ]
    ]
  ]
]

-- A rule for the loop: what every pause keeps, the loop keeps.
enforce_from_rule {ℓ} :
    (P : Scheduler → Type ℓ)
    → ((id : String) (s : Scheduler) → P s → P (stop_task id s))
    → (kept : ℕ) (ids : List String) (s : Scheduler) → P s
    → P (enforce_from kept ids s)
unfolding enforce_from
enforce_from_rule P step kept [] s p = p
enforce_from_rule P step kept (id ∷ ids) s p = elim (enforce_from-Round kept id ids s) [
  | inl (e, _) ↦ subst P (sym e) (enforce_from_rule P step kept ids s p)
  | inr (inl (e, _)) ↦ subst P (sym e) (enforce_from_rule P step (suc kept) ids s p)
  | inr (inr e) ↦ subst P (sym e) (enforce_from_rule P step kept ids (stop_task id s) (step id s p))
]

-- Once an id does not occupy a slot, no later pause makes it.
stop_task-occupies :
    (k id : String) (s : Scheduler) → occupies s k ≡ false → occupies (stop_task id s) k ≡ false
stop_task-occupies k id s e = elim (Option-cases (lookup k s.tasks)) [
  | inl n ↦ ground (arith, lookup-modify id k pause_task s.tasks)
  | inr (t, there) ↦ ground (
    arith,
    has-modify id k cancel_run s.running,
    lookup-modify id k pause_task s.tasks,
    pause_task-IsCalm.calm t,
  )
]

enforce_from-occupies :
    (k : String) (kept : ℕ) (ids : List String) (s : Scheduler)
    → occupies s k ≡ false
    → occupies (enforce_from kept ids s) k ≡ false
enforce_from-occupies k kept ids s e =
    enforce_from_rule (λ q. occupies q k ≡ false) (λ id q. stop_task-occupies k id q) kept ids s e

stop_task_self : (id : String) (s : Scheduler) → occupies (stop_task id s) id ≡ false
unfolding pause_task
stop_task_self id s = elim (Option-cases (lookup id s.tasks)) [
  | inl n ↦ ground (arith, lookup-modify id id pause_task s.tasks, eq_iff id id)
  | inr (t, there) ↦ ground (arith, lookup-modify id id pause_task s.tasks, eq_iff id id)
]

abbrev LeavesAtMost : ℕ → ℕ → List String → Scheduler → Type 0
LeavesAtMost slots kept ids s = kept + count (occupies s) ids ≤ slots

-- Along the order the loop leaves at most the slots that are left.
enforce_from-count :
    (kept : ℕ) (ids : List String) (s : Scheduler)
    → kept ≤ s.max_running
    → LeavesAtMost s.max_running kept ids (enforce_from kept ids s)
unfolding enforce_from
enforce_from-count kept [] s h = omega arith
enforce_from-count kept (id ∷ ids) s h = elim (enforce_from-Round kept id ids s) [
  | inl (e, out) ↦
      subst (LeavesAtMost s.max_running kept (id ∷ ids)) (sym e)
        (ground (arith, enforce_from-occupies id kept ids s out, enforce_from-count kept ids s h))
  | inr (inl (e, room)) ↦
      subst (LeavesAtMost s.max_running kept (id ∷ ids)) (sym e)
        (ground (arith, enforce_from-count (suc kept) ids s room))
  | inr (inr e) ↦ subst (LeavesAtMost s.max_running kept (id ∷ ids)) (sym e) (
      ground (
        arith,
        enforce_from-occupies id kept ids (stop_task id s) (stop_task_self id s),
        enforce_from-count kept ids (stop_task id s) h,
      ))
]

enforce_from-IsKept :
    (kept : ℕ) (ids : List String) (s : Scheduler) → IsKept s → IsKept (enforce_from kept ids s)
enforce_from-IsKept = enforce_from_rule IsKept stop_task-IsKept

-- What the loop leaves alone.
pub record SameFrame (s q : Scheduler) : Type 0 where
  pub same_order : q.order ≡ s.order
  pub same_max : q.max_running ≡ s.max_running
  pub same_stopping : q.stopping ≡ s.stopping
  pub same_serial : q.next_serial ≡ s.next_serial
  pub same_epoch : q.pause_epoch ≡ s.pause_epoch

enforce_from_frame :
    (kept : ℕ) (ids : List String) (s : Scheduler) → SameFrame s (enforce_from kept ids s)
enforce_from_frame kept ids s =
    enforce_from_rule (SameFrame s)
      (λ id q p. record {
        same_order = p.same_order;
        same_max = p.same_max;
        same_stopping = p.same_stopping;
        same_serial = p.same_serial;
        same_epoch = p.same_epoch;
      })
      kept ids s
      (record {
        same_order = refl;
        same_max = refl;
        same_stopping = refl;
        same_serial = refl;
        same_epoch = refl;
      })

pub enforce_max_running_frame : (s : Scheduler) → SameFrame s (enforce_max_running s)
unfolding enforce_max_running
enforce_max_running_frame s = ground (arith, enforce_from_frame 0 s.order s)

abbrev CountsAlong : Scheduler → ℕ → List String → Type 0
CountsAlong s slots ids = count (occupies s) ids ≤ slots

enforce_from-IsBounded : (s : Scheduler) → IsKept s → IsBounded (enforce_from 0 s.order s)
enforce_from-IsBounded s v =
    let frame = enforce_from_frame 0 s.order s in
    let along : count (occupies (enforce_from 0 s.order s)) s.order ≤ s.max_running =
      omega (arith, enforce_from-count 0 s.order s (omega arith)) in
    let listed =
      subst (CountsAlong (enforce_from 0 s.order s) s.max_running) (sym frame.same_order) along in
    omega (
      arith,
      frame.same_max,
      listed,
      count_running-le-order (enforce_from 0 s.order s) (enforce_from-IsKept 0 s.order s v),
    )

-- Enforcing the limit makes the scheduler valid, also where too many slots were taken before.
pub enforce_max_running-IsValid : (s : Scheduler) → IsKept s → IsValid (enforce_max_running s)
unfolding enforce_max_running
enforce_max_running-IsValid s v =
    elim (Bool-cases (leb (count_running takes_slot s.tasks s.running) s.max_running)) [
      | inl e ↦ rw e (record {
        kept = v;
        bounded = omega (arith, leb→le _ _ e, count_running-live_le s.tasks s.running);
      })
      | inr e ↦ rw e (record {
        kept = enforce_from-IsKept 0 s.order s v;
        bounded = enforce_from-IsBounded s v;
      })
    ]
