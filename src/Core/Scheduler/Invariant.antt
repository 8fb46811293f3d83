-- ===== src/Core/Scheduler/Invariant.antt =====
-- The scheduler's invariant, and that each shared part of the operations keeps it.
use godown.Base.{
  ◌≤◌, ◌<◌, ◌≡◌, refl, ◌⊎◌, inl, inr, true, false, some, List, [], ◌∷◌, String, Dict, arith, lookup,
  has, modify, mem, Distinct, eq_refl, lookup-modify, has-modify, insert-Distinct, Option-cases,
}
use godown.Core.Task.{Task, running, is_live}
use godown.Core.Output.{Host}
use godown.Core.Scheduler.{
  Run, Scheduler, count_running, takes_slot, set_status, pause_task, fail_unregistered, start_run,
  schedule_task, schedule, schedule_if_waiting, schedule_each, schedule_waiting, schedule_save,
  emit, publish,
}
use godown.Core.Scheduler.Counting.{
  live_in_slot, count_running-modify_le, count_running-modify_fresh, count_running-insert_le,
  count_running-insert_other, count_running-modify_run, count_running-live_le, modify-Distinct,
}

-- The maps agree with one another: no run has two entries, a task stands under its own id, and
-- every task is listed.
pub record IsKept (s : Scheduler) : Type 0 where
  pub distinct : Distinct s.running
  pub keyed : (id : String) (t : Task) → lookup id s.tasks ≡ some t → t.id ≡ id
  pub listed : (id : String) → has id s.tasks ≡ true → mem id s.order ≡ true

-- At most `max_running` slots are taken by tasks that are shown as running.
abbrev pub IsBounded : Scheduler → Type 0
IsBounded s = count_running live_in_slot s.tasks s.running ≤ s.max_running

pub record IsValid (s : Scheduler) : Type 0 where
  pub kept : IsKept s
  pub bounded : IsBounded s

-- A change of a task that keeps its id and makes no task live.
pub record IsCalm (f : Task → Task) : Type 0 where
  pub same_id : (t : Task) → (f t).id ≡ t.id
  pub calm : (t : Task) → live_in_slot (f t) ≡ true → live_in_slot t ≡ true

pub modify-keyed :
    (id : String) (f : Task → Task) (tasks : Dict Task)
    → ((t : Task) → (f t).id ≡ t.id)
    → ((k : String) (t : Task) → lookup k tasks ≡ some t → t.id ≡ k)
    → (k : String) (t : Task) → lookup k (modify id f tasks) ≡ some t
    → t.id ≡ k
modify-keyed id f tasks same keyed k t e = elim (Option-cases (lookup k tasks)) [
  | inl miss ↦ ground (arith, lookup-modify id k f tasks)
  | inr (u, hit) ↦ ground (arith, lookup-modify id k f tasks, same u, keyed k u hit)
]

pub modify-IsKept :
    (id : String) (f : Task → Task) (s : Scheduler)
    → ((t : Task) → (f t).id ≡ t.id)
    → IsKept s
    → IsKept (record s { tasks = modify id f s.tasks })
modify-IsKept id f s same v = record {
  distinct = v.distinct;
  keyed = modify-keyed id f s.tasks same v.keyed;
  listed = λ k h. v.listed k (ground (arith, has-modify id k f s.tasks));
}

pub modify-IsValid :
    (id : String) (f : Task → Task) (s : Scheduler)
    → IsCalm f
    → IsValid s
    → IsValid (record s { tasks = modify id f s.tasks })
modify-IsValid id f s c v = record {
  kept = modify-IsKept id f s c.same_id v.kept;
  bounded =
      omega (arith, count_running-modify_le live_in_slot id f s.tasks s.running c.calm, v.bounded);
}

pub pause_task-IsCalm : IsCalm pause_task
unfolding pause_task
pause_task-IsCalm = record { same_id = λ t. refl; calm = λ t h. ground arith }

-- A status that is not live.
pub set_status-IsCalm : (status : _) → is_live status ≡ false → IsCalm (set_status status)
unfolding set_status
set_status-IsCalm status e = record { same_id = λ t. refl; calm = λ t h. ground arith }

fail_unregistered-IsCalm : IsCalm fail_unregistered
fail_unregistered-IsCalm = record { same_id = λ t. refl; calm = λ t h. ground arith }

pub modify_run-IsKept :
    (id : String) (g : Run → Run) (s : Scheduler)
    → IsKept s
    → IsKept (record s { running = modify id g s.running })
modify_run-IsKept id g s v = record {
  distinct = modify-Distinct id g s.running v.distinct;
  keyed = v.keyed;
  listed = v.listed;
}

pub modify_run-IsValid :
    (id : String) (g : Run → Run) (s : Scheduler)
    → IsValid s
    → IsValid (record s { running = modify id g s.running })
modify_run-IsValid id g s v = record {
  kept = modify_run-IsKept id g s v.kept;
  bounded = omega (arith, count_running-modify_run live_in_slot id g s.tasks s.running, v.bounded);
}

start_run-IsKept : (id : String) (t : Task) (s : Scheduler) → IsKept s → IsKept (start_run id t s)
unfolding start_run set_status
start_run-IsKept id t s v = record {
  distinct = insert-Distinct t.id _ s.running v.distinct;
  keyed = modify-keyed id (set_status running) s.tasks (λ u. refl) v.keyed;
  listed = λ k h. v.listed k (ground (arith, has-modify id k (set_status running) s.tasks));
}

module _ (id : String) (t : Task) (s : Scheduler) (found : lookup id s.tasks ≡ some t)
    (named : t.id ≡ id) (free : has id s.running ≡ false) where
  -- A task that takes no slot is not counted.
  start_run_no_slot : t.uses_slot ≡ false → IsBounded s → IsBounded (start_run id t s)
  unfolding start_run set_status
  start_run_no_slot e b = omega (
    arith,
    count_running-insert_other live_in_slot t.id _ (modify id (set_status running) s.tasks)
        s.running {t = set_status running t}
        (ground (arith, lookup-modify id id (set_status running) s.tasks, eq_refl id))
        (ground arith),
    count_running-modify_fresh live_in_slot id (set_status running) s.tasks s.running free,
  )

  -- A task that takes a slot is started only where fewer are taken than there are.
  start_run_slot :
      count_running takes_slot s.tasks s.running < s.max_running → IsBounded (start_run id t s)
  unfolding start_run
  start_run_slot e = omega (
    arith,
    count_running-insert_le live_in_slot t.id _ (modify id (set_status running) s.tasks) s.running,
    count_running-modify_fresh live_in_slot id (set_status running) s.tasks s.running free,
    count_running-live_le s.tasks s.running,
  )

start_run-IsValid :
    (id : String) (t : Task) (s : Scheduler)
    → lookup id s.tasks ≡ some t
    → has id s.running ≡ false
    → (t.uses_slot ≡ false) ⊎ (count_running takes_slot s.tasks s.running < s.max_running)
    → IsValid s
    → IsValid (start_run id t s)
start_run-IsValid id t s found free room v = record {
  kept = start_run-IsKept id t s v.kept;
  bounded =
      let named = v.kept.keyed id t found in
      elim room [
        | inl no_slot ↦ start_run_no_slot id t s found named free no_slot v.bounded
        | inr space ↦ start_run_slot id t s found named free space
      ];
}

schedule_task-IsValid :
    (id : String) (t : Task) (s : Scheduler)
    → lookup id s.tasks ≡ some t
    → IsValid s
    → IsValid (schedule_task id t s)
unfolding schedule_task
schedule_task-IsValid id t s found v = ground (
  arith,
  modify-IsValid id fail_unregistered s fail_unregistered-IsCalm v,
  start_run-IsValid id t s found,
)

pub schedule-IsValid : (id : String) (s : Scheduler) → IsValid s → IsValid (schedule id s)
unfolding schedule
schedule-IsValid id s v = elim (Option-cases (lookup id s.tasks)) [
  | inl e ↦ ground arith
  | inr (t, e) ↦ ground (arith, schedule_task-IsValid id t s e v)
]

schedule_each-IsValid :
    (ids : List String) (s : Scheduler) → IsValid s → IsValid (schedule_each ids s)
unfolding schedule_each
schedule_each-IsValid [] s v = v
schedule_each-IsValid (id ∷ ids) s v =
    schedule_each-IsValid ids (schedule_if_waiting id s) (ground (arith, schedule-IsValid id s v))

pub schedule_waiting-IsValid : (s : Scheduler) → IsValid s → IsValid (schedule_waiting s)
unfolding schedule_waiting
schedule_waiting-IsValid s v = schedule_each-IsValid s.order s v

-- The events, the timer and the epoch are no part of the invariant.
pub publish-IsValid : (host : Host) (s : Scheduler) → IsValid s → IsValid (publish host s)
unfolding emit schedule_save
publish-IsValid host s v = ground arith

pub emit-IsValid : (host : Host) (s : Scheduler) → IsValid s → IsValid (emit host s)
unfolding emit
emit-IsValid host s v = ground arith
