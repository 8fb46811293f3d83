-- ===== src/Core/Scheduler/Control.antt =====
-- internal/core/scheduler.go: the operations that are one critical section, and StopAll, which is
-- two with a wait between them.
use godown.Base.{
  ℕ, ◌+◌, ◌%◌, ◌^◌, Bool, true, false, not, ◌&&◌, ◌||◌, Option, none, some, List, [], ◌∷◌, ◌++◌,
  String, Dict, str_eq, lookup, has, insert, delete, modify, erase_first, if◌then◌else◌,
}
use godown.Base.Int.{ℤ, positive_or}
use godown.Core.Task.{
  Task, TaskStatus, waiting, failed, clone_task, is_live, is_waiting, is_paused, is_completed,
}
use godown.Core.Output.{
  Error, message, Result, ok, err, Host, output_file, prepare_ftp_directory_output,
}
use godown.Core.Scheduler.{
  Run, Scheduler, pause_task, set_status, pause_if, cancel_run, cancel, schedule, schedule_waiting,
  enforce_max_running, schedule_save, save, emit, publish,
}

abbrev pub u64_mod : ℕ
u64_mod = 2 ^ 64

abbrev pub task_not_found : Error
task_not_found = message "task not found"

-- The writes of a task into the map and of its id behind the order.
unfoldable pub put_task : Task → Scheduler → Scheduler
put_task t s = record s { tasks = insert t.id t s.tasks; order = s.order ++ t.id ∷ [] }

abbrev pub is_startable : TaskStatus → Bool
is_startable status = is_paused status || is_waiting status

abbrev pub is_stoppable : TaskStatus → Bool
is_stoppable status = is_live status || is_waiting status

abbrev pub wait_if : (TaskStatus → Bool) → Task → Task
wait_if test t = if test t.status then set_status waiting t else t

unfoldable pub start_each : List String → Dict Task → Dict Task
start_each [] tasks = tasks
start_each (id ∷ ids) tasks = start_each ids (modify id (wait_if is_startable) tasks)

-- `for id, running := range s.running`: the task of every entry is paused.
unfoldable pub pause_running : Dict Run → Dict Task → Dict Task
pause_running [] tasks = tasks
pause_running ((id, r) ∷ rs) tasks = pause_running rs (modify id pause_task tasks)

-- `for _, task := range`: a change of every entry that passes a test.
unfoldable pub pause_each : (TaskStatus → Bool) → Dict Task → Dict Task
pause_each test [] = []
pause_each test ((id, t) ∷ m) = (id, pause_if test t) ∷ pause_each test m

unfoldable pub cancel_each : Dict Run → Dict Run
cancel_each [] = []
cancel_each ((id, r) ∷ rs) = (id, cancel_run r) ∷ cancel_each rs

-- A task that was running when it was saved is loaded as paused.
abbrev pub demote : Task → Task
demote t = pause_if is_live t

-- A task that was asked to wait is not left paused by its move to another output.
abbrev pub restore_waiting : Task → Task → Task
restore_waiting requested prepared =
    if is_waiting requested.status && is_paused prepared.status
    then set_status waiting prepared
    else prepared

abbrev pub put_and_schedule : Task → Scheduler → Scheduler
put_and_schedule t s = if is_paused t.status then put_task t s else schedule t.id (put_task t s)

abbrev pub drop_task : String → Scheduler → Scheduler
drop_task id s = record s { tasks = delete id s.tasks; order = erase_first id s.order }

module _ (host : Host) where
  unfoldable pub output_paths : Dict Task → List String
  output_paths [] = []
  output_paths ((id, t) ∷ m) = output_file host t ∷ output_paths m

  abbrev pub reserved_outputs : Scheduler → List String
  reserved_outputs s = output_paths s.tasks

  -- The loop of Load, with `migrated`. An error ends it; what was loaded before stays.
  unfoldable pub load_each : List Task → Bool → Scheduler → Scheduler × Bool × Option Error
  load_each [] migrated s = (s, migrated, none)
  load_each (loaded ∷ rest) migrated s =
      let t = clone_task loaded in
      elim (prepare_ftp_directory_output host (reserved_outputs s) t) [
        | err e ↦ (record s { load_failed = true }, migrated, some e)
        | ok prepared ↦
            load_each rest
              (migrated || not (str_eq (output_file host prepared) (output_file host t)))
              (put_task (demote prepared) s)
      ]

  abbrev pub end_load : Scheduler × Bool × Option Error → Scheduler × Option Error
  end_load (s, migrated, some e) = (s, some e)
  end_load (s, migrated, none) = (emit host (if migrated then schedule_save s else s), none)

  -- The argument is what store.Load returned.
  unfoldable pub load : Result (List Task) → Scheduler → Scheduler × Option Error
  unfolding load_each
  load stored s =
      if s.has_store
      then elim stored [
        | err e ↦ (record s { load_failed = true }, some e)
        | ok tasks ↦ end_load (load_each tasks false (record s { load_failed = false }))
      ]
      else (s, none)

  unfoldable pub set_max_running : ℤ → Scheduler → Scheduler
  set_max_running n s =
      publish host
        (schedule_waiting (enforce_max_running (record s { max_running = positive_or 1 n })))

  unfoldable pub fail_with : Error → Task → Task
  fail_with e t = record t {
    status = failed;
    error = host.error_text e;
    stage = record t.stage { status = failed; error = host.error_text e };
  }

  -- Add, from the task that was cloned.
  unfoldable pub add_cloned : Task → Scheduler → Scheduler
  add_cloned t s = publish host (elim (prepare_ftp_directory_output host (reserved_outputs s) t) [
    | ok prepared ↦ put_and_schedule (restore_waiting t prepared) s
    | err e ↦ put_task (fail_with e t) s
  ])

  unfoldable pub add : Task → Scheduler → Scheduler
  unfolding add_cloned
  add given s = add_cloned (clone_task given) s

  unfoldable pub toggle_task : String → Task → Scheduler → Scheduler × Option Error
  toggle_task id t s =
      let pausing = record s { tasks = modify id pause_task s.tasks } in
      let starting = record s { tasks = modify id (set_status waiting) s.tasks } in
      if is_live t.status && has id s.running
      then (publish host (cancel id pausing), none)
      else if is_waiting t.status
      then (publish host pausing, none)
      else if is_completed t.status
      then (s, some (message "task completed"))
      else (publish host (schedule id starting), none)

  unfoldable pub toggle_pause : String → Scheduler → Scheduler × Option Error
  unfolding toggle_task
  toggle_pause id s = elim (lookup id s.tasks) [
    | none ↦ (s, some task_not_found)
    | some t ↦ toggle_task id t s
  ]

  unfoldable pub start_all : Scheduler → Scheduler
  start_all s = publish host (schedule_waiting (record s { tasks = start_each s.order s.tasks }))

  unfoldable pub pause_all : Scheduler → Scheduler
  pause_all s = publish host (record s {
    pause_epoch = (s.pause_epoch + 1) % u64_mod;
    tasks = pause_each is_waiting (pause_running s.running s.tasks);
    running = cancel_each s.running;
  })

  unfoldable pub remove : String → Scheduler → Scheduler × Option Error
  remove id s =
      if has id s.tasks
      then (publish host (schedule_waiting (drop_task id (cancel id s))), none)
      else (s, some task_not_found)

-- StopAll up to its wait for the workers.
unfoldable pub stop_begin : Scheduler → Scheduler
stop_begin s = record s {
  stopping = true;
  running = cancel_each s.running;
  tasks = pause_each is_stoppable s.tasks;
  save_armed = false;
}

-- StopAll from the moment that every worker it saw has ended.
unfoldable pub stop_finish : Scheduler → Scheduler
stop_finish s = record (save (record s { save_armed = false })) { events_closed = true }
