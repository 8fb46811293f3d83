-- ===== src/Core/Scheduler/Preservation.antt =====
-- Every critical section of the scheduler keeps its invariant.
use godown.Base.{
  ◌≡◌, refl, ◌⊎◌, inl, inr, Bool, false, List, [], ◌∷◌, String, arith, eq_iff, lookup, has, modify,
  lookup-insert, lookup-delete, mem-append_left, mem-append_last, mem-erase_first, Option-cases,
}
use godown.Base.Int.{ℤ, positive_or}
use godown.Core.Task.{Task, TaskStatus, waiting, is_live}
use godown.Core.Output.{Host}
use godown.Core.Scheduler.{
  Scheduler, pause_task, set_status, cancel, cancel_run, schedule, schedule_waiting,
}
use godown.Core.Scheduler.Counting.{
  live_in_slot, count_running-delete_task_le, count_running-insert_fresh,
  count_running-insert_task_le,
}
use godown.Core.Scheduler.Invariant.{
  IsKept, IsValid, IsCalm, modify-IsValid, modify_run-IsValid, pause_task-IsCalm, set_status-IsCalm,
  schedule-IsValid, schedule_waiting-IsValid, publish-IsValid,
}
use godown.Core.Scheduler.Enforce.{enforce_max_running-IsValid}
use godown.Core.Scheduler.Control.{
  put_task, is_startable, start_each, wait_if, set_max_running, toggle_task, toggle_pause,
  start_all, remove, drop_task,
}

put_task-IsKept : (t : Task) (s : Scheduler) → IsKept s → IsKept (put_task t s)
unfolding put_task
put_task-IsKept t s v = record {
  distinct = v.distinct;
  keyed = λ k u e. ground (arith, lookup-insert t.id k t s.tasks, eq_iff t.id k, v.keyed k u);
  listed = λ k h. ground (
    arith,
    lookup-insert t.id k t s.tasks,
    eq_iff t.id k,
    v.listed k,
    mem-append_left k s.order (t.id ∷ []),
    mem-append_last t.id s.order,
  );
}

-- A new task whose id no run has, and a task that is not live, keep the bound.
pub put_task-IsValid :
    (t : Task) (s : Scheduler)
    → (has t.id s.running ≡ false) ⊎ (is_live t.status ≡ false)
    → IsValid s
    → IsValid (put_task t s)
unfolding put_task
put_task-IsValid t s free v = record {
  kept = put_task-IsKept t s v.kept;
  bounded = elim free [
    | inl absent ↦
        omega (
          arith,
          count_running-insert_fresh live_in_slot t.id t s.tasks s.running absent,
          v.bounded,
        )
    | inr idle ↦ omega (
      arith,
      count_running-insert_task_le live_in_slot t.id t s.tasks s.running (ground arith),
      v.bounded,
    )
  ];
}

pub set_max_running-IsValid :
    (host : Host) (n : ℤ) (s : Scheduler) → IsValid s → IsValid (set_max_running host n s)
unfolding set_max_running
set_max_running-IsValid host n s v = publish-IsValid host _ (
    schedule_waiting-IsValid _ (
      enforce_max_running-IsValid (record s { max_running = positive_or 1 n })
        (record { distinct = v.kept.distinct; keyed = v.kept.keyed; listed = v.kept.listed })))

toggle_task-IsValid :
    (host : Host) (id : String) (t : Task) (s : Scheduler)
    → IsValid s
    → IsValid (toggle_task host id t s).0
unfolding toggle_task
toggle_task-IsValid host id t s v =
    let paused_task = modify-IsValid id pause_task s pause_task-IsCalm v in
    let pausing = record s { tasks = modify id pause_task s.tasks } in
    let starting = record s { tasks = modify id (set_status waiting) s.tasks } in
    ground (
      arith,
      v,
      publish-IsValid host (cancel id pausing)
          (modify_run-IsValid id cancel_run pausing paused_task),
      publish-IsValid host pausing paused_task,
      publish-IsValid host (schedule id starting) (
          schedule-IsValid id starting
            (modify-IsValid id (set_status waiting) s (set_status-IsCalm waiting refl) v)),
    )

pub toggle_pause-IsValid :
    (host : Host) (id : String) (s : Scheduler) → IsValid s → IsValid (toggle_pause host id s).0
unfolding toggle_pause
toggle_pause-IsValid host id s v = elim (Option-cases (lookup id s.tasks)) [
  | inl e ↦ rw (e, toggle_pause) v
  | inr (t, e) ↦ rw (e, toggle_pause) (toggle_task-IsValid host id t s v)
]

wait_if-IsCalm : (test : TaskStatus → Bool) → IsCalm (wait_if test)
unfolding set_status
wait_if-IsCalm test = record { same_id = λ t. ground arith; calm = λ t h. ground arith }

start_each-IsValid :
    (ids : List String) (s : Scheduler)
    → IsValid s
    → IsValid (record s { tasks = start_each ids s.tasks })
unfolding start_each
start_each-IsValid [] s v = v
start_each-IsValid (id ∷ ids) s v =
    start_each-IsValid ids (record s { tasks = modify id (wait_if is_startable) s.tasks })
      (modify-IsValid id (wait_if is_startable) s (wait_if-IsCalm is_startable) v)

pub start_all-IsValid : (host : Host) (s : Scheduler) → IsValid s → IsValid (start_all host s)
unfolding start_all
start_all-IsValid host s v =
    publish-IsValid host _ (schedule_waiting-IsValid _ (start_each-IsValid s.order s v))

drop_task-IsValid : (id : String) (s : Scheduler) → IsValid s → IsValid (drop_task id s)
drop_task-IsValid id s v = record {
  kept = record {
    distinct = v.kept.distinct;
    keyed = λ k t e. ground (arith, lookup-delete id k s.tasks, v.kept.keyed k t);
    listed = λ k h.
        ground (arith, lookup-delete id k s.tasks, v.kept.listed k, mem-erase_first id k s.order);
  };
  bounded =
      omega (arith, count_running-delete_task_le live_in_slot id s.tasks s.running, v.bounded);
}

pub remove-IsValid :
    (host : Host) (id : String) (s : Scheduler) → IsValid s → IsValid (remove host id s).0
unfolding remove
remove-IsValid host id s v = ground (
  arith,
  v,
  publish-IsValid host (schedule_waiting (drop_task id (cancel id s))) (
      schedule_waiting-IsValid (drop_task id (cancel id s))
        (drop_task-IsValid id (cancel id s) (modify_run-IsValid id cancel_run s v))),
)
