-- ===== src/Core/Scheduler/Runs.antt =====
-- internal/core/scheduler.go: runTask, the life of a worker's goroutine. What the worker reports and
-- how it ends are arguments.
use godown.Base.{
  Bool, true, false, Option, none, some, [], ◌∷◌, String, Dict, str_eq, lookup, insert, delete,
  modify, if◌then◌else◌,
}
use godown.Base.Int.{pos, ltb_ℤ}
use godown.Core.Task.{
  Task, StringMap, ProgressUpdate, paused, completed, clone_task, is_live, full_percent,
}
use godown.Core.Output.{Error, canceled, Host, entries}
use godown.Core.Scheduler.{
  Scheduler, Run, RunPhase, working, exited, set_status, schedule_waiting, enforce_max_running,
  publish,
}
use godown.Core.Scheduler.Control.{fail_with}

abbrev pub set_phase : RunPhase → Run → Run
set_phase phase r = record r { phase = phase }

abbrev pub enter_phase : RunPhase → String → Scheduler → Scheduler
enter_phase phase id s = record s { running = modify id (set_phase phase) s.running }

-- The goroutine's first section: a copy of the task for the worker. If the task is gone the
-- goroutine ends, and its entry in `running` stays.
unfoldable pub begin_run : String → Scheduler → Scheduler × Option Task
begin_run id s = elim (lookup id s.tasks) [
  | none ↦ (enter_phase exited id s, none)
  | some t ↦ (enter_phase working id s, some (clone_task t))
]

unfoldable pub merge : Dict String → Dict String → Dict String
merge [] m = m
merge ((k, v) ∷ news) m = merge news (insert k v m)

unfoldable pub merge_state : Dict String → StringMap → StringMap
unfolding merge
merge_state [] state = state
merge_state (e ∷ news) state = some (merge (e ∷ news) (entries state))

abbrev pub or_else {ℓ} : {A : Type ℓ} → Option A → A → A
or_else none d = d
or_else (some a) d = a

-- The status that a report asks for is taken only while the task is live.
abbrev pub update_status : ProgressUpdate → Task → Task
update_status u t = elim u.status [
  | none ↦ t
  | some status ↦ if is_live t.status then set_status status t else t
]

unfoldable pub apply_update : ProgressUpdate → Task → Task
unfolding merge_state
apply_update u t =
    let size = if ltb_ℤ (pos 0) u.file_size then u.file_size else t.file_size in
    let stage_size = if ltb_ℤ (pos 0) u.file_size then u.file_size else t.stage.file_size in
    let t' = update_status u t in
    record t' {
      received = u.received;
      file_size = size;
      speed = u.speed;
      progress = u.progress;
      detail = if str_eq u.detail "" then t.detail else u.detail;
      uses_slot = or_else u.uses_slot t.uses_slot;
      stage = record t'.stage {
        file_size = stage_size;
        received = u.received;
        speed = u.speed;
        progress = u.progress;
        state = merge_state u.stage_state t.stage.state;
      };
    }

-- A slot that is given up goes to a waiting task; one that is taken may push another task out.
abbrev pub rebalance : Bool → Bool → Scheduler → Scheduler
rebalance true false s = schedule_waiting s
rebalance false true s = enforce_max_running s
rebalance true true s = s
rebalance false false s = s

unfoldable pub complete : Task → Task
complete t = record t {
  status = completed;
  progress = full_percent;
  speed = pos 0;
  stage = record t.stage { status = completed; progress = full_percent; speed = pos 0 };
}

abbrev pub pause_status_if_live : Task → Task
pause_status_if_live t = if is_live t.status then set_status paused t else t

module _ (host : Host) where
  unfoldable pub report : String → ProgressUpdate → Scheduler → Scheduler
  report id u s = elim (lookup id s.tasks) [
    | none ↦ s
    | some t ↦ publish host (
        rebalance t.uses_slot (or_else u.uses_slot t.uses_slot)
          (record s { tasks = modify id (apply_update u) s.tasks }))
  ]

  -- The task after its worker has ended: with no error, by cancellation, or with another error.
  unfoldable pub settle : Option Error → Task → Task
  unfolding complete
  settle none t = complete t
  settle (some canceled) t = pause_status_if_live t
  settle (some e) t = fail_with host e t

  unfoldable pub finish_run : String → Option Error → Scheduler → Scheduler
  finish_run id outcome s =
      let ended = record s { running = delete id s.running } in
      elim (lookup id s.tasks) [
        | none ↦ ended
        | some t ↦
            publish host
              (schedule_waiting (record ended { tasks = modify id (settle outcome) s.tasks }))
      ]
