-- ===== src/Core/Scheduler/Steps/Shutdown.antt =====
-- What holds of the scheduler from the first section of StopAll on.
use godown.Base.{
  ℕ, ◌≡◌, refl, inl, inr, Bool, true, false, Option, List, [], ◌∷◌, String, arith, lookup,
  Option-cases,
}
use godown.Base.Int.{positive_or}
use godown.Core.Task.{Task, ProgressUpdate}
use godown.Core.Output.{Error, Result, ok, err, Host, prepare_ftp_directory_output}
use godown.Core.Output.Moves.{Result-cases}
use godown.Core.Scheduler.{
  Scheduler, schedule, schedule_if_waiting, schedule_each, schedule_waiting, enforce_max_running,
  schedule_save, save, save_timer_fires, emit, publish, cancel,
}
use godown.Core.Scheduler.Enforce.{enforce_max_running_frame}
use godown.Core.Scheduler.Control.{
  drop_task, restore_waiting, put_task, put_and_schedule, load_each, load, set_max_running,
  add_cloned, add, toggle_pause, start_all, pause_all, remove, stop_begin, stop_finish, demote,
  reserved_outputs,
}
use godown.Core.Task.{clone_task}
use godown.Core.Scheduler.Runs.{begin_run, report, finish_run, rebalance}
use godown.Core.Scheduler.Edits.{redownload_begin, redownload_commit, edit_begin, edit_commit}
use godown.Core.Scheduler.Steps.{
  Step, loads, adds, sets_max, toggles, starts_all, pauses_all, removes, stops, stopped, begins,
  reports, finishes, redownload_begins, redownload_commits, edit_begins, edit_commits, saves,
  receives, Reach, here, next,
}

-- The scheduler is stopping, and `n` runs were started so far.
abbrev IsStopped : ℕ → Scheduler → Type 0
IsStopped n s = (s.stopping ≡ true) × (s.next_serial ≡ n)

module _ (n : ℕ) where
  schedule-IsStopped : (id : String) (s : Scheduler) → IsStopped n s → IsStopped n (schedule id s)
  unfolding schedule
  schedule-IsStopped id s h = ground arith

  schedule_each-IsStopped :
      (ids : List String) (s : Scheduler) → IsStopped n s → IsStopped n (schedule_each ids s)
  unfolding schedule_each
  schedule_each-IsStopped [] s h = h
  schedule_each-IsStopped (id ∷ ids) s h =
      schedule_each-IsStopped ids (schedule_if_waiting id s)
        (ground (arith, schedule-IsStopped id s h))

  schedule_waiting-IsStopped : (s : Scheduler) → IsStopped n s → IsStopped n (schedule_waiting s)
  unfolding schedule_waiting
  schedule_waiting-IsStopped s h = schedule_each-IsStopped s.order s h

  publish-IsStopped : (host : Host) (s : Scheduler) → IsStopped n s → IsStopped n (publish host s)
  unfolding emit schedule_save
  publish-IsStopped host s h = ground arith

  enforce-IsStopped : (s : Scheduler) → IsStopped n s → IsStopped n (enforce_max_running s)
  enforce-IsStopped s h = ground (arith, enforce_max_running_frame s)

  pass-IsStopped :
      (host : Host) (s : Scheduler)
      → IsStopped n s
      → IsStopped n (publish host (schedule_waiting s))
  pass-IsStopped host s h = publish-IsStopped host _ (schedule_waiting-IsStopped s h)

  load_each-IsStopped :
      (host : Host) (tasks : List Task) (m : Bool) (s : Scheduler)
      → IsStopped n s
      → IsStopped n (load_each host tasks m s).0
  unfolding load_each put_task
  load_each-IsStopped host [] m s h = h
  load_each-IsStopped host (t ∷ rest) m s h =
      elim (Result-cases
        (prepare_ftp_directory_output host (reserved_outputs host s) (clone_task t))) [
          | inl (p, e) ↦
              rw (e, load_each) (load_each-IsStopped host rest _ (put_task (demote p) s) h)
          | inr (x, e) ↦ rw (e, load_each) h
        ]

  load-IsStopped :
      (host : Host) (stored : Result (List Task)) (s : Scheduler)
      → IsStopped n s
      → IsStopped n (load host stored s).0
  unfolding load emit schedule_save
  load-IsStopped host (err x) s h = ground arith
  load-IsStopped host (ok tasks) s h =
      ground (arith, load_each-IsStopped host tasks false (record s { load_failed = false }) h)

  put_and_schedule-IsStopped :
      (t : Task) (s : Scheduler) → IsStopped n s → IsStopped n (put_and_schedule t s)
  unfolding put_task
  put_and_schedule-IsStopped t s h = ground (arith, schedule-IsStopped t.id (put_task t s))

  add_cloned-IsStopped :
      (host : Host) (t : Task) (s : Scheduler) → IsStopped n s → IsStopped n (add_cloned host t s)
  unfolding add_cloned put_task
  add_cloned-IsStopped host t s h =
      publish-IsStopped host _
        (elim (Result-cases (prepare_ftp_directory_output host (reserved_outputs host s) t)) [
          | inl (p, e) ↦ rw e (put_and_schedule-IsStopped (restore_waiting t p) s h)
          | inr (x, e) ↦ rw e h
        ])

  toggle_pause-IsStopped :
      (host : Host) (id : String) (s : Scheduler)
      → IsStopped n s
      → IsStopped n (toggle_pause host id s).0
  unfolding toggle_pause emit schedule_save schedule
  toggle_pause-IsStopped host id s h = ground arith

  rebalance-IsStopped :
      (before after : Bool) (s : Scheduler) → IsStopped n s → IsStopped n (rebalance before after s)
  rebalance-IsStopped true true s h = h
  rebalance-IsStopped true false s h = schedule_waiting-IsStopped s h
  rebalance-IsStopped false true s h = enforce-IsStopped s h
  rebalance-IsStopped false false s h = h

  report-IsStopped :
      (host : Host) (id : String) (u : ProgressUpdate) (s : Scheduler)
      → IsStopped n s
      → IsStopped n (report host id u s)
  unfolding report
  report-IsStopped host id u s h = elim (Option-cases (lookup id s.tasks)) [
    | inl e ↦ rw (e, report) h
    | inr (t, e) ↦ rw (e, report) (publish-IsStopped host _ (rebalance-IsStopped _ _ _ h))
  ]

  finish_run-IsStopped :
      (host : Host) (id : String) (outcome : Option Error) (s : Scheduler)
      → IsStopped n s
      → IsStopped n (finish_run host id outcome s)
  unfolding finish_run
  finish_run-IsStopped host id outcome s h = elim (Option-cases (lookup id s.tasks)) [
    | inl e ↦ rw (e, finish_run) h
    | inr (t, e) ↦ rw (e, finish_run) (pass-IsStopped host _ h)
  ]

  remove-IsStopped :
      (host : Host) (id : String) (s : Scheduler) → IsStopped n s → IsStopped n (remove host id s).0
  unfolding remove
  remove-IsStopped host id s h = ground (arith, pass-IsStopped host (drop_task id (cancel id s)) h)

  edit_commit-IsStopped :
      (host : Host) (id : String) (resume : Bool) (original : Task) (epoch : ℕ)
      (outcome : Result Task) (s : Scheduler)
      → IsStopped n s
      → IsStopped n (edit_commit host id resume (original, epoch) outcome s).0
  unfolding edit_commit
  edit_commit-IsStopped host id resume original epoch outcome s h = ground arith

  Step-IsStopped : {s t : Scheduler} → Step s t → IsStopped n s → IsStopped n t
  unfolding stop_begin stop_finish save begin_run redownload_begin redownload_commit edit_begin emit
      save_timer_fires set_max_running start_all pause_all add
  Step-IsStopped (loads host stored s) h = load-IsStopped host stored s h
  Step-IsStopped (adds host t s free) h = add_cloned-IsStopped host (clone_task t) s h
  Step-IsStopped (sets_max host k s) h =
      pass-IsStopped host _ (enforce-IsStopped (record s { max_running = positive_or 1 k }) h)
  Step-IsStopped (toggles host id s) h = toggle_pause-IsStopped host id s h
  Step-IsStopped (starts_all host s) h = pass-IsStopped host _ h
  Step-IsStopped (pauses_all host s) h = publish-IsStopped host _ h
  Step-IsStopped (removes host id s) h = remove-IsStopped host id s h
  Step-IsStopped (stops s) h = (refl, h.1)
  Step-IsStopped (stopped s) h = ground arith
  Step-IsStopped (begins id s) h = ground arith
  Step-IsStopped (reports host id u s) h = report-IsStopped host id u s h
  Step-IsStopped (finishes host id outcome s) h = finish_run-IsStopped host id outcome s h
  Step-IsStopped (redownload_begins id s) h = ground arith
  Step-IsStopped (redownload_commits host id copy s) h = ground arith
  Step-IsStopped (edit_begins host id s) h = ground arith
  Step-IsStopped (edit_commits host id resume original epoch outcome s) h =
      edit_commit-IsStopped host id resume original epoch outcome s h
  Step-IsStopped (saves s) h = ground arith
  Step-IsStopped (receives s) h = h

  Reach-IsStopped : {s t : Scheduler} → Reach s t → IsStopped n s → IsStopped n t
  Reach-IsStopped here h = h
  Reach-IsStopped (next r st) h = Step-IsStopped st (Reach-IsStopped r h)

-- From the first section of StopAll on no worker is started, whatever the other goroutines still
-- do: the scheduler stays stopping, and the number of runs started so far does not change.
pub stop_begin_starts_nothing :
    (s t : Scheduler)
    → Reach (stop_begin s) t
    → (t.stopping ≡ true) × (t.next_serial ≡ s.next_serial)
unfolding stop_begin
stop_begin_starts_nothing s t r = Reach-IsStopped s.next_serial r (refl, refl)
