-- ===== src/Core/Scheduler/Steps/Overtaking.antt =====
-- PauseAll in the middle of an EditTask.
use godown.Base.{
  ℕ, ◌+◌, ◌%◌, ◌<◌, ◌≡◌, refl, ◌∙◌, inl, inr, Bool, true, false, Option, some, List, [], ◌∷◌,
  String, arith, lookup, Option-cases, Bool-cases, ◌≢◌,
}
use godown.Base.Int.{positive_or}
use godown.Core.Task.{Task, ProgressUpdate, clone_task}
use godown.Core.Output.{Error, Result, ok, err, Host, prepare_ftp_directory_output}
use godown.Core.Output.Moves.{Result-cases}
use godown.Core.Scheduler.{
  Scheduler, schedule_task, start_run, schedule, schedule_if_waiting, schedule_each,
  schedule_waiting, enforce_max_running, schedule_save, save, save_timer_fires, emit, publish,
}
use godown.Core.Scheduler.Enforce.{enforce_max_running_frame}
use godown.Core.Scheduler.Control.{
  u64_mod, put_task, load_each, load, set_max_running, add_cloned, add, toggle_task, toggle_pause,
  start_all, pause_all, remove, stop_begin, stop_finish, demote, reserved_outputs, start_each,
  task_not_found,
}
use godown.Core.Scheduler.Runs.{begin_run, report, finish_run, rebalance}
use godown.Core.Scheduler.Edits.{
  redownload_begin, redownload_commit, edit_begin, edit_snapshot, edit_commit, edit_apply,
  stopping_error, task_changed,
}
use godown.Core.Scheduler.Steps.{
  Step, loads, adds, sets_max, toggles, starts_all, pauses_all, removes, stops, stopped, begins,
  reports, finishes, redownload_begins, redownload_commits, edit_begins, edit_commits, saves,
  receives, Reach, here, next,
}

-- How often PauseAll is called among the steps.
abbrev pub step_pauses : {s t : Scheduler} → Step s t → ℕ
step_pauses (pauses_all host s) = 1
step_pauses _ = 0

abbrev pub pauses : {s t : Scheduler} → Reach s t → ℕ
pauses here = 0
pauses (next r step) = pauses r + step_pauses step

schedule-epoch : (id : String) (s : Scheduler) → (schedule id s).pause_epoch ≡ s.pause_epoch
unfolding schedule schedule_task start_run
schedule-epoch id s = ground arith

schedule_each-epoch :
    (ids : List String) (s : Scheduler) → (schedule_each ids s).pause_epoch ≡ s.pause_epoch
unfolding schedule_each
schedule_each-epoch [] s = refl
schedule_each-epoch (id ∷ ids) s =
    ground (arith, schedule_each-epoch ids (schedule_if_waiting id s), schedule-epoch id s)

schedule_waiting-epoch : (s : Scheduler) → (schedule_waiting s).pause_epoch ≡ s.pause_epoch
unfolding schedule_waiting
schedule_waiting-epoch s = schedule_each-epoch s.order s

publish-epoch : (host : Host) (s : Scheduler) → (publish host s).pause_epoch ≡ s.pause_epoch
unfolding emit schedule_save
publish-epoch host s = ground arith

enforce-epoch : (s : Scheduler) → (enforce_max_running s).pause_epoch ≡ s.pause_epoch
enforce-epoch s = ground (arith, enforce_max_running_frame s)

pass-epoch :
    (host : Host) (s : Scheduler) → (publish host (schedule_waiting s)).pause_epoch ≡ s.pause_epoch
pass-epoch host s = publish-epoch host (schedule_waiting s) ∙ schedule_waiting-epoch s

load_each-epoch :
    (host : Host) (tasks : List Task) (m : Bool) (s : Scheduler)
    → (load_each host tasks m s).0.pause_epoch ≡ s.pause_epoch
unfolding load_each put_task
load_each-epoch host [] m s = refl
load_each-epoch host (t ∷ rest) m s =
    elim (Result-cases
      (prepare_ftp_directory_output host (reserved_outputs host s) (clone_task t))) [
        | inl (p, e) ↦ rw (e, load_each) (load_each-epoch host rest _ (put_task (demote p) s))
        | inr (x, e) ↦ rw (e, load_each) refl
      ]

load-epoch :
    (host : Host) (stored : Result (List Task)) (s : Scheduler)
    → (load host stored s).0.pause_epoch ≡ s.pause_epoch
unfolding load emit schedule_save
load-epoch host (err x) s = ground arith
load-epoch host (ok tasks) s =
    ground (arith, load_each-epoch host tasks false (record s { load_failed = false }))

add_cloned-epoch :
    (host : Host) (t : Task) (s : Scheduler) → (add_cloned host t s).pause_epoch ≡ s.pause_epoch
unfolding add_cloned put_task
add_cloned-epoch host t s =
    elim (Result-cases (prepare_ftp_directory_output host (reserved_outputs host s) t)) [
      | inl (p, e) ↦ grind (arith, e, publish-epoch, schedule-epoch)
      | inr (x, e) ↦ grind (arith, e, publish-epoch)
    ]

toggle_pause-epoch :
    (host : Host) (id : String) (s : Scheduler)
    → (toggle_pause host id s).0.pause_epoch ≡ s.pause_epoch
unfolding toggle_pause toggle_task
toggle_pause-epoch host id s = grind (arith, publish-epoch, schedule-epoch)

rebalance-epoch :
    (before after : Bool) (s : Scheduler) → (rebalance before after s).pause_epoch ≡ s.pause_epoch
rebalance-epoch true true s = refl
rebalance-epoch true false s = schedule_waiting-epoch s
rebalance-epoch false true s = enforce-epoch s
rebalance-epoch false false s = refl

report-epoch :
    (host : Host) (id : String) (u : ProgressUpdate) (s : Scheduler)
    → (report host id u s).pause_epoch ≡ s.pause_epoch
unfolding report
report-epoch host id u s = elim (Option-cases (lookup id s.tasks)) [
  | inl e ↦ rw (e, report) refl
  | inr (t, e) ↦ rw (e, report) (publish-epoch host _ ∙ rebalance-epoch _ _ _)
]

finish_run-epoch :
    (host : Host) (id : String) (outcome : Option Error) (s : Scheduler)
    → (finish_run host id outcome s).pause_epoch ≡ s.pause_epoch
unfolding finish_run
finish_run-epoch host id outcome s = elim (Option-cases (lookup id s.tasks)) [
  | inl e ↦ rw (e, finish_run) refl
  | inr (t, e) ↦ rw (e, finish_run) (pass-epoch host _)
]

remove-epoch :
    (host : Host) (id : String) (s : Scheduler) → (remove host id s).0.pause_epoch ≡ s.pause_epoch
unfolding remove
remove-epoch host id s = grind (arith, pass-epoch)

edit_commit-epoch :
    (host : Host) (id : String) (resume : Bool) (original : Task) (epoch : ℕ)
    (outcome : Result Task) (s : Scheduler)
    → (edit_commit host id resume (original, epoch) outcome s).0.pause_epoch ≡ s.pause_epoch
unfolding edit_commit edit_apply
edit_commit-epoch host id resume original epoch outcome s =
    grind (arith, publish-epoch, schedule-epoch)

Step-epoch :
    {s t : Scheduler} (step : Step s t)
    → s.pause_epoch < u64_mod
    → t.pause_epoch ≡ (s.pause_epoch + step_pauses step) % u64_mod
unfolding stop_begin stop_finish save begin_run redownload_begin redownload_commit edit_begin emit
    save_timer_fires set_max_running start_all pause_all add
Step-epoch (loads host stored s) h = omega (arith, load-epoch host stored s)
Step-epoch (adds host t s free) h = omega (arith, add_cloned-epoch host (clone_task t) s)
Step-epoch (sets_max host k s) h =
    let passed =
      pass-epoch host (enforce_max_running (record s { max_running = positive_or 1 k })) in
    omega (arith, passed, enforce-epoch (record s { max_running = positive_or 1 k }))
Step-epoch (toggles host id s) h = omega (arith, toggle_pause-epoch host id s)
Step-epoch (starts_all host s) h =
    omega (arith, pass-epoch host (record s { tasks = start_each s.order s.tasks }))
Step-epoch (pauses_all host s) h = publish-epoch host _
Step-epoch (removes host id s) h = omega (arith, remove-epoch host id s)
Step-epoch (stops s) h = omega arith
Step-epoch (stopped s) h = ground arith
Step-epoch (begins id s) h = ground arith
Step-epoch (reports host id u s) h = omega (arith, report-epoch host id u s)
Step-epoch (finishes host id outcome s) h = omega (arith, finish_run-epoch host id outcome s)
Step-epoch (redownload_begins id s) h = ground arith
Step-epoch (redownload_commits host id copy s) h = grind (arith, pass-epoch)
Step-epoch (edit_begins host id s) h = ground arith
Step-epoch (edit_commits host id resume original epoch outcome s) h =
    omega (arith, edit_commit-epoch host id resume original epoch outcome s)
Step-epoch (saves s) h = ground arith
Step-epoch (receives s) h = omega arith

Reach-epoch :
    {s t : Scheduler} (r : Reach s t)
    → s.pause_epoch < u64_mod
    → t.pause_epoch ≡ (s.pause_epoch + pauses r) % u64_mod
Reach-epoch here h = omega arith
Reach-epoch (next r step) h =
    let before = Reach-epoch r h in omega (arith, before, Step-epoch step (omega (arith, before)))

snapshot-epoch :
    (id : String) (s : Scheduler) (original : Task) (epoch : ℕ)
    → edit_snapshot id s ≡ ok (original, epoch)
    → epoch ≡ s.pause_epoch
unfolding edit_snapshot
snapshot-epoch id s original epoch taken = ground (arith, taken)

other_epoch :
    (host : Host) (id : String) (resume : Bool) (original : Task) (epoch : ℕ)
    (outcome : Result Task) (s : Scheduler)
    → s.pause_epoch ≢ epoch
    → (e : Error) × (edit_commit host id resume (original, epoch) outcome s ≡ (s, some e))
unfolding edit_commit
other_epoch host id resume original epoch outcome s other = elim (Bool-cases s.stopping) [
  | inl stopping ↦ (stopping_error, ground arith)
  | inr going ↦ elim (Option-cases (lookup id s.tasks)) [
    | inl gone ↦ (task_not_found, ground arith)
    | inr (t, found) ↦ (task_changed, ground (arith, going, found, other))
  ]
]

-- An edit that PauseAll has overtaken does nothing. Where PauseAll is called, once or more, between
-- the section of EditTask that copies the task and its last section, whatever other sections of any
-- goroutine run in between, then the last section returns an error and leaves the scheduler as it
-- finds it, whatever the editor returned: the task is not replaced, and not resumed. PauseAll is
-- called fewer than 2 ^ 64 times meanwhile, and the epoch is a uint64.
pub overtaken_edit_does_nothing :
    (host : Host) (id : String) (resume : Bool) (original : Task) (epoch : ℕ)
    (outcome : Result Task) {s t : Scheduler} (r : Reach s t)
    → s.pause_epoch < u64_mod
    → edit_snapshot id s ≡ ok (original, epoch)
    → 0 < pauses r
    → pauses r < u64_mod
    → (e : Error) × (edit_commit host id resume (original, epoch) outcome t ≡ (t, some e))
overtaken_edit_does_nothing host id resume original epoch outcome {s} {t} r wide taken more less =
    let moved = Reach-epoch r wide in
    let same = snapshot-epoch id s original epoch taken in
    other_epoch host id resume original epoch outcome t
      (λ e. omega (arith, e, same, moved, wide, more, less))
