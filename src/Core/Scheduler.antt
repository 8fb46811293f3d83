-- ===== src/Core/Scheduler.antt =====
-- internal/core/scheduler.go: what the operations of the scheduler share. A function
-- is a critical section under `mu`: no other step comes between.
pub mod Control
pub mod Edits
pub mod Runs
pub mod Counting
pub mod Invariant
pub mod Along
pub mod Enforce
pub mod Preservation
pub mod Pausing
pub mod Lifecycle
pub mod Editing
pub mod Saturation
pub mod Steps
pub mod Keeping
pub mod Storing
pub use godown.Core.State.{
  Worker, RunPhase, spawned, working, exited, Run, Scheduler, event_capacity,
}
unfoldable pub use godown.Core.State.{new_scheduler}
use godown.Base.{
  ℕ, suc, ◌+◌, Bool, true, false, ◌&&◌, ◌||◌, Option, none, some, List, [], ◌∷◌, ◌++◌, String, Dict,
  leb, ltb, length, lookup, has, insert, modify, drop_first, if◌then◌else◌,
}
use godown.Base.Int.{ℤ, pos, positive_or}
use godown.Core.Task.{
  Task, TaskSnapshot, TaskStatus, waiting, running, paused, failed, clone_task, is_live, is_waiting,
  is_completed,
}
use godown.Core.Output.{Result, Host, snapshot_of}

-- The four assignments that pause a task.
unfoldable pub pause_task : Task → Task
pause_task t = record t {
  status = paused;
  speed = pos 0;
  stage = record t.stage { status = paused; speed = pos 0 };
}

-- The two assignments of a status.
unfoldable pub set_status : TaskStatus → Task → Task
set_status status t = record t { status = status; stage = record t.stage { status = status } }

abbrev pub pause_if : (TaskStatus → Bool) → Task → Task
pause_if test t = if test t.status then pause_task t else t

unfoldable pub cancel_run : Run → Run
cancel_run r = record r { cancelled = true }

-- running.cancel() through the entry under an id.
abbrev pub cancel : String → Scheduler → Scheduler
cancel id s = record s { running = modify id cancel_run s.running }

-- The number of the running entries whose task passes a test.
unfoldable pub count_running : (Task → Bool) → Dict Task → Dict Run → ℕ
count_running test tasks [] = 0
count_running test tasks ((id, r) ∷ rs) =
    let rest = count_running test tasks rs in
    elim (lookup id tasks) [ none ↦ rest | some t ↦ if test t then suc rest else rest ]

abbrev pub takes_slot : Task → Bool
takes_slot t = t.uses_slot

abbrev pub running_slot_count : Scheduler → ℕ
running_slot_count s = count_running takes_slot s.tasks s.running

abbrev pub fresh_run : Scheduler → Run
fresh_run s = record { serial = s.next_serial; cancelled = false; phase = spawned }

-- The context, the entry and the goroutine of a new run.
unfoldable pub start_run : String → Task → Scheduler → Scheduler
start_run task_id t s = record s {
  running = insert t.id (fresh_run s) s.running;
  tasks = modify task_id (set_status running) s.tasks;
  next_serial = suc s.next_serial;
}

-- A task whose pack has no worker fails; its stage keeps its status.
abbrev pub fail_unregistered : Task → Task
fail_unregistered t = record t { status = failed; error = "worker not registered" }

unfoldable pub schedule_task : String → Task → Scheduler → Scheduler
schedule_task task_id t s =
    if has task_id s.running || is_live t.status || is_completed t.status
    then s
    else if t.uses_slot && leb s.max_running (running_slot_count s)
    then s
    else elim (lookup t.pack_id s.registry) [
      | none ↦ record s { tasks = modify task_id fail_unregistered s.tasks }
      | some worker ↦ start_run task_id t s
    ]

unfoldable pub schedule : String → Scheduler → Scheduler
unfolding schedule_task
schedule task_id s =
    if s.stopping
    then s
    else elim (lookup task_id s.tasks) [ none ↦ s | some t ↦ schedule_task task_id t s ]

abbrev pub schedule_if_waiting : String → Scheduler → Scheduler
schedule_if_waiting id s = elim (lookup id s.tasks) [
  | none ↦ s
  | some t ↦ if is_waiting t.status then schedule id s else s
]

unfoldable pub schedule_each : List String → Scheduler → Scheduler
schedule_each [] s = s
schedule_each (id ∷ ids) s = schedule_each ids (schedule_if_waiting id s)

unfoldable pub schedule_waiting : Scheduler → Scheduler
unfolding schedule_each
schedule_waiting s = schedule_each s.order s

-- The loop body pauses a running slot user beyond the ones that are kept.
unfoldable pub enforce_from : ℕ → List String → Scheduler → Scheduler
enforce_from kept [] s = s
enforce_from kept (id ∷ ids) s =
    let keep = enforce_from (suc kept) ids s in
    let pass = enforce_from kept ids s in
    let stop =
      enforce_from kept ids (cancel id (record s { tasks = modify id pause_task s.tasks })) in
    if has id s.running
    then elim (lookup id s.tasks) [
      | none ↦ pass
      | some t ↦ if t.uses_slot then (if ltb kept s.max_running then keep else stop) else pass
    ]
    else pass

unfoldable pub enforce_max_running : Scheduler → Scheduler
unfolding enforce_from
enforce_max_running s =
    if leb (running_slot_count s) s.max_running then s else enforce_from 0 s.order s

-- The tasks in the listed order; an id without a task is passed over.
unfoldable pub listed_tasks : List String → Dict Task → List Task
listed_tasks [] tasks = []
listed_tasks (id ∷ ids) tasks =
    let rest = listed_tasks ids tasks in
    elim (lookup id tasks) [ none ↦ rest | some t ↦ clone_task t ∷ rest ]

unfoldable pub schedule_save : Scheduler → Scheduler
schedule_save s =
    if s.has_store
    then (if s.stopping || s.load_failed then s else record s { save_armed = true })
    else s

unfoldable pub save : Scheduler → Scheduler
unfolding listed_tasks
save s =
    if s.has_store
    then (if s.load_failed then s else record s { saves = listed_tasks s.order s.tasks ∷ s.saves })
    else s

-- The timer fires: its function is run once.
unfoldable pub save_timer_fires : Scheduler → Scheduler
unfolding save
save_timer_fires s =
    let fired = record s { save_armed = false } in
    if s.save_armed then (if s.stopping then fired else save fired) else s

-- A stable sort by CreatedAt, newest first.
unfoldable pub insert_newest : TaskSnapshot → List TaskSnapshot → List TaskSnapshot
insert_newest x [] = x ∷ []
insert_newest x (y ∷ ys) =
    if ltb x.created_at y.created_at then y ∷ insert_newest x ys else x ∷ y ∷ ys

unfoldable pub sort_newest : List TaskSnapshot → List TaskSnapshot
unfolding insert_newest
sort_newest [] = []
sort_newest (x ∷ xs) = insert_newest x (sort_newest xs)

module _ (host : Host) where
  unfoldable pub collect : List String → Dict Task → List TaskSnapshot
  collect [] tasks = []
  collect (id ∷ ids) tasks =
      let rest = collect ids tasks in
      elim (lookup id tasks) [ none ↦ rest | some t ↦ snapshot_of host t ∷ rest ]

  unfoldable pub snapshot : Scheduler → List TaskSnapshot
  unfolding collect sort_newest
  snapshot s = sort_newest (collect s.order s.tasks)

  -- A full channel loses its oldest event.
  unfoldable pub emit : Scheduler → Scheduler
  emit s =
      if s.events_closed
      then s
      else if ltb (length s.events) event_capacity
      then record s { events = s.events ++ snapshot s ∷ [] }
      else record s { events = drop_first s.events ++ snapshot s ∷ [] }

  -- The two calls that end most critical sections.
  abbrev pub publish : Scheduler → Scheduler
  publish s = emit (schedule_save s)

  -- Task: a detached copy of a task.
  unfoldable pub get_task : String → Scheduler → Option Task
  get_task id s = elim (lookup id s.tasks) [ none ↦ none | some t ↦ some (clone_task t) ]
