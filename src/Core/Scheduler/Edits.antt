-- ===== src/Core/Scheduler/Edits.antt =====
-- internal/core/scheduler.go: Redownload and EditTask, which let go of `mu` while a worker stops,
-- while files are removed and while the editor runs. What other goroutines do to the scheduler in
-- such a gap is an argument, a function on the scheduler.
use godown.Base.{
  ℕ, Bool, true, false, Option, none, some, String, lookup, has, insert, modify, if◌then◌else◌,
}
use godown.Base.Int.{pos}
use godown.Core.Task.{
  Task, TaskStatus, waiting, paused, canceled, zero_percent, clone_task, clone_string_map,
  Task-discrete, same_maps, without_maps,
}
use godown.Core.Output.{Error, message, Result, ok, err, ◌>>=◌, Host}
use godown.Core.Cleanup.{Cleaning, cleanup_files}
use godown.Core.Scheduler.{
  Scheduler, Worker, pause_task, set_status, cancel, schedule, schedule_waiting, emit, publish,
}
use godown.Core.Scheduler.Control.{task_not_found}
use native.Mathlib.Decide.{ℕ_discrete}
use mathlib.Core.Logic.{ite}

abbrev pub stopping_error : Error
stopping_error = message "scheduler stopping"

-- A wait on `done` of the run with a serial is a gap; with no run to wait for there is none.
abbrev pub Gap : Type 0
Gap = Scheduler → Scheduler

abbrev pub after_wait : Option ℕ → Gap → Scheduler → Scheduler
after_wait none gap s = s
after_wait (some serial) gap s = gap s

abbrev pub serial_of : String → Scheduler → Option ℕ
serial_of id s = elim (lookup id s.running) [ none ↦ none | some r ↦ some r.serial ]

-- Redownload, first section: a running worker is told to stop.
unfoldable pub redownload_begin : String → Scheduler → Scheduler × Result (Option ℕ)
redownload_begin id s = elim (lookup id s.tasks) [
  | none ↦ (s, err task_not_found)
  | some t ↦ (
    if has id s.running
        then cancel id (record s { tasks = modify id (set_status paused) s.tasks })
        else s,
    ok (serial_of id s),
  )
]

-- Second section: a copy of the task and its worker.
unfoldable pub redownload_copy : String → Scheduler → Result (Task × Option Worker)
redownload_copy id s = elim (lookup id s.tasks) [
  | none ↦ err task_not_found
  | some t ↦ ok (clone_task t, lookup t.pack_id s.registry)
]

abbrev pub reset_by : Option Worker → Task → Result Task
reset_by none t = ok t
reset_by (some w) t = elim w.reset_task [ none ↦ ok t | some reset ↦ reset t ]

abbrev pub cleaned : Cleaning → Result (Unit {0})
cleaned (removals, none) = ok tt
cleaned (removals, some e) = err e

-- The assignments of the last section.
unfoldable pub renew : Task → Task → Task
renew copy t = record t {
  status = waiting;
  received = pos 0;
  speed = pos 0;
  progress = zero_percent;
  detail = "";
  error = "";
  file_size = copy.file_size;
  uses_slot = copy.uses_slot;
  stage = record t.stage {
    status = waiting;
    received = pos 0;
    speed = pos 0;
    progress = zero_percent;
    error = "";
    state = clone_string_map copy.stage.state;
    file_size = copy.stage.file_size;
  };
}

abbrev pub resumes : TaskStatus → Bool
resumes paused = false
resumes canceled = false
resumes _ = true

-- Second section: the task that the editor is given, and the pause epoch.
unfoldable pub edit_snapshot : String → Scheduler → Result (Task × ℕ)
edit_snapshot id s = if s.stopping then err stopping_error else elim (lookup id s.tasks) [
  | none ↦ err task_not_found
  | some t ↦ ok (clone_task t, s.pause_epoch)
]

abbrev pub resume_status : Bool → TaskStatus
resume_status true = waiting
resume_status false = paused

-- The edited task with what an editor may not change.
unfoldable pub restrict_edit : Bool → Task → Task → Task
restrict_edit resume original edited = clone_task (record edited {
  id = original.id;
  created_at = original.created_at;
  pack_id = original.pack_id;
  speed = pos 0;
  error = "";
  status = resume_status resume;
  stage = record edited.stage { speed = pos 0; error = ""; status = resume_status resume };
})

abbrev pub schedule_if : Bool → String → Scheduler → Scheduler
schedule_if resume id s = if resume then schedule id s else s

abbrev pub task_changed : Error
task_changed = message "task changed during edit"

module _ (host : Host) where
  -- Outside of `mu`: the files are removed and the worker resets its checkpoint.
  unfoldable pub redownload_prepare : Task × Option Worker → Result Task
  redownload_prepare (copy, worker) = do
    _ ← cleaned (cleanup_files host copy)
    reset ← reset_by worker copy
    ok (clone_task reset)

  unfoldable pub redownload_commit : String → Task → Scheduler → Scheduler × Option Error
  redownload_commit id copy s =
      if s.stopping
      then (s, some stopping_error)
      else if has id s.tasks
      then (
        publish host (schedule_waiting (record s { tasks = modify id (renew copy) s.tasks })),
        none,
      )
      else (s, some task_not_found)

  abbrev pub commit_renewed : String → Gap → Result Task → Scheduler → Scheduler × Option Error
  commit_renewed id gap (err e) s = (s, some e)
  commit_renewed id gap (ok copy) s = redownload_commit id copy (gap s)

  abbrev pub copy_and_commit :
      String → Gap → Gap → Scheduler × Result (Option ℕ) → Scheduler × Option Error
  copy_and_commit id wait gap (s, err e) = (s, some e)
  copy_and_commit id wait gap (s, ok serial) =
      let s' = after_wait serial wait s in
      commit_renewed id gap (redownload_copy id s' >>= redownload_prepare) s'

  unfoldable pub redownload : String → Gap → Gap → Scheduler → Scheduler × Option Error
  unfolding redownload_begin redownload_copy redownload_prepare redownload_commit
  redownload id wait gap s = copy_and_commit id wait gap (redownload_begin id s)

  -- EditTask, first section: whether the task is to be resumed, and the run to wait for.
  unfoldable pub edit_begin : String → Scheduler → Scheduler × Result (Bool × Option ℕ)
  edit_begin id s = elim (lookup id s.tasks) [
    | none ↦ (s, err task_not_found)
    | some t ↦ (
      if has id s.running
          then emit host (cancel id (record s { tasks = modify id pause_task s.tasks }))
          else s,
      ok (resumes t.status, serial_of id s),
    )
  ]

  -- After the checks: a failed edit resumes the task, another replaces it.
  unfoldable pub edit_apply :
      String → Bool → Task → Result Task → Scheduler → Scheduler × Option Error
  edit_apply id resume original (err e) s = (
    if resume
        then publish host
            (schedule id (record s { tasks = modify id (set_status waiting) s.tasks }))
        else s,
    some e,
  )
  edit_apply id resume original (ok edited) s = (
    publish host (
        schedule_if resume id
          (record s { tasks = insert id (restrict_edit resume original edited) s.tasks })),
    none,
  )

  unfoldable pub edit_commit :
      String → Bool → Task × ℕ → Result Task → Scheduler → Scheduler × Option Error
  unfolding edit_apply
  edit_commit id resume (original, epoch) outcome s =
      if s.stopping then (s, some stopping_error) else elim (lookup id s.tasks) [
        | none ↦ (s, some task_not_found)
        | some t ↦
            ite (ℕ_discrete s.pause_epoch epoch)
              (if same_maps t original
                then ite (Task-discrete (without_maps t) (without_maps original))
                    (edit_apply id resume original outcome s) (s, some task_changed)
                else (s, some task_changed))
              (s, some task_changed)
      ]

  abbrev pub run_editor :
      String
      → Bool
      → (Task → Result Task)
      → Gap
      → Result (Task × ℕ)
      → Scheduler
      → Scheduler × Option Error
  run_editor id resume edit gap (err e) s = (s, some e)
  run_editor id resume edit gap (ok (original, epoch)) s =
      edit_commit id resume (original, epoch) (edit (clone_task original)) (gap s)

  abbrev pub edit_stopped :
      String
      → (Task → Result Task)
      → Gap
      → Gap
      → Scheduler × Result (Bool × Option ℕ)
      → Scheduler × Option Error
  edit_stopped id edit wait gap (s, err e) = (s, some e)
  edit_stopped id edit wait gap (s, ok (resume, serial)) =
      let s' = after_wait serial wait s in run_editor id resume edit gap (edit_snapshot id s') s'

  -- `busy`: editSerialMu is held by another edit.
  unfoldable pub edit_task :
      String → Option (Task → Result Task) → Bool → Gap → Gap → Scheduler → Scheduler × Option Error
  unfolding edit_begin edit_snapshot edit_commit
  edit_task id none busy wait gap s = (s, some (message "task editor is nil"))
  edit_task id (some edit) busy wait gap s =
      if busy
      then (s, some (message "task edit already in progress"))
      else edit_stopped id edit wait gap (edit_begin id s)
