-- ===== src/Core/Scheduler/Pausing.antt =====
-- The passes over all tasks and all runs, of PauseAll and StopAll, keep the invariant.
use godown.Base.{
  ◌≤◌, ◌≡◌, refl, inl, inr, Bool, true, [], ◌∷◌, String, Dict, arith, lookup, has, modify, apply_at,
  Distinct, Option-cases,
}
use godown.Core.Task.{Task, TaskStatus, is_waiting}
use godown.Core.Output.{Host}
use godown.Core.Scheduler.{Run, Scheduler, count_running, pause_task, pause_if}
use godown.Core.Scheduler.Counting.{live_in_slot}
use godown.Core.Scheduler.Invariant.{IsValid, modify-IsValid, pause_task-IsCalm, publish-IsValid}
use godown.Core.Scheduler.Control.{
  is_stoppable, pause_running, pause_each, cancel_each, pause_all, stop_begin,
}

pause_running-IsValid :
    (rs : Dict Run) (s : Scheduler)
    → IsValid s
    → IsValid (record s { tasks = pause_running rs s.tasks })
unfolding pause_running
pause_running-IsValid [] s v = v
pause_running-IsValid ((id, r) ∷ rs) s v =
    pause_running-IsValid rs (record s { tasks = modify id pause_task s.tasks })
      (modify-IsValid id pause_task s pause_task-IsCalm v)

-- A change of every task.
pub map_tasks-keyed :
    (test : TaskStatus → Bool) (tasks : Dict Task) (k : String)
    → lookup k (pause_each test tasks) ≡ apply_at true (pause_if test) (lookup k tasks)
unfolding pause_each
map_tasks-keyed test [] k = refl
map_tasks-keyed test ((j, t) ∷ m) k = ground (arith, map_tasks-keyed test m k)

pause_if_same : (test : TaskStatus → Bool) (t : Task) → (pause_if test t).id ≡ t.id
unfolding pause_task
pause_if_same test t = ground arith

pause_if_calm :
    (test : TaskStatus → Bool) (t : Task)
    → live_in_slot (pause_if test t) ≡ true
    → live_in_slot t ≡ true
unfolding pause_task
pause_if_calm test t h = ground arith

count_running-pause_each_le :
    (test : TaskStatus → Bool) (tasks : Dict Task) (rs : Dict Run)
    → count_running live_in_slot (pause_each test tasks) rs ≤ count_running live_in_slot tasks rs
unfolding count_running
count_running-pause_each_le test tasks [] = omega arith
count_running-pause_each_le test tasks ((k, r) ∷ rs) = elim (Option-cases (lookup k tasks)) [
  | inl e ↦ ground (arith, map_tasks-keyed test tasks k, count_running-pause_each_le test tasks rs)
  | inr (t, e) ↦ ground (
    arith,
    map_tasks-keyed test tasks k,
    pause_if_calm test t,
    count_running-pause_each_le test tasks rs,
  )
]

pause_each-IsValid :
    (test : TaskStatus → Bool) (s : Scheduler)
    → IsValid s
    → IsValid (record s { tasks = pause_each test s.tasks })
pause_each-IsValid test s v = record {
  kept = record {
    distinct = v.kept.distinct;
    keyed = λ k t e. elim (Option-cases (lookup k s.tasks)) [
      | inl n ↦ ground (arith, map_tasks-keyed test s.tasks k)
      | inr (u, hit) ↦
          ground (arith, map_tasks-keyed test s.tasks k, pause_if_same test u, v.kept.keyed k u hit)
    ];
    listed = λ k h. ground (arith, map_tasks-keyed test s.tasks k, v.kept.listed k);
  };
  bounded = omega (arith, count_running-pause_each_le test s.tasks s.running, v.bounded);
}

has-cancel_each : (k : String) (rs : Dict Run) → has k (cancel_each rs) ≡ has k rs
unfolding cancel_each
has-cancel_each k [] = refl
has-cancel_each k ((j, r) ∷ rs) = ground (arith, has-cancel_each k rs)

cancel_each-Distinct : (rs : Dict Run) → Distinct rs → Distinct (cancel_each rs)
unfolding cancel_each
cancel_each-Distinct [] d = tt
cancel_each-Distinct ((k, r) ∷ rs) d =
    ground (arith, has-cancel_each k rs, cancel_each-Distinct rs d.1)

count_running-cancel_each :
    (tasks : Dict Task) (rs : Dict Run)
    → count_running live_in_slot tasks (cancel_each rs) ≡ count_running live_in_slot tasks rs
unfolding count_running cancel_each
count_running-cancel_each tasks [] = refl
count_running-cancel_each tasks ((k, r) ∷ rs) = ground (arith, count_running-cancel_each tasks rs)

cancel_each-IsValid :
    (s : Scheduler) → IsValid s → IsValid (record s { running = cancel_each s.running })
cancel_each-IsValid s v = record {
  kept = record {
    distinct = cancel_each-Distinct s.running v.kept.distinct;
    keyed = v.kept.keyed;
    listed = v.kept.listed;
  };
  bounded = omega (arith, count_running-cancel_each s.tasks s.running, v.bounded);
}

-- Two states that differ in nothing that the invariant reads.
relabel :
    {s q : Scheduler}
    → IsValid s
    → q.tasks ≡ s.tasks
    → q.running ≡ s.running
    → q.order ≡ s.order
    → q.max_running ≡ s.max_running
    → IsValid q
relabel v a b c d = ground arith

pub pause_all-IsValid : (host : Host) (s : Scheduler) → IsValid s → IsValid (pause_all host s)
unfolding pause_all
pause_all-IsValid host s v = publish-IsValid host _ (
    relabel
      (cancel_each-IsValid
        (record s { tasks = pause_each is_waiting (pause_running s.running s.tasks) })
        (pause_each-IsValid is_waiting (record s { tasks = pause_running s.running s.tasks })
          (pause_running-IsValid s.running s v)))
      refl refl refl refl)

pub stop_begin-IsValid : (s : Scheduler) → IsValid s → IsValid (stop_begin s)
unfolding stop_begin
stop_begin-IsValid s v =
    relabel
      (cancel_each-IsValid (record s { tasks = pause_each is_stoppable s.tasks })
        (pause_each-IsValid is_stoppable s v))
      refl refl refl refl
