-- ===== src/Core/Scheduler/Keeping.antt =====
-- Which tasks an operation leaves in the scheduler, whatever it does to them.
use godown.Base.{
  ℕ, ◌≡◌, ◌&&◌, refl, ◌∙◌, ap, true, not, Option, none, some, List, [], ◌∷◌, String, arith, has,
  has-modify, has-insert, lookup-delete, eq_iff, str_eq, inl, inr,
}
use godown.Core.Task.{Task, clone_task}
use godown.Core.Output.{Host, Result, ok, err, ◌>>=◌, prepare_ftp_directory_output}
use godown.Core.Output.Moves.{Result-cases}
use godown.Core.Scheduler.{
  Scheduler, schedule_task, start_run, schedule, schedule_if_waiting, schedule_each,
  schedule_waiting, schedule_save, emit, publish,
}
use godown.Core.Scheduler.Control.{
  put_task, reserved_outputs, add, add_cloned, toggle_task, toggle_pause, remove,
}
use godown.Core.Scheduler.Edits.{
  Gap, after_wait, redownload, redownload_begin, redownload_copy, redownload_prepare,
  redownload_commit, commit_renewed, copy_and_commit,
}

has-schedule : (k id : String) (s : Scheduler) → has k (schedule id s).tasks ≡ has k s.tasks
unfolding schedule schedule_task start_run
has-schedule k id s = grind (arith, has-modify)

has-schedule_each :
    (k : String) (ids : List String) (s : Scheduler)
    → has k (schedule_each ids s).tasks ≡ has k s.tasks
unfolding schedule_each
has-schedule_each k [] s = refl
has-schedule_each k (id ∷ ids) s =
    ground (arith, has-schedule_each k ids (schedule_if_waiting id s), has-schedule k id s)

has-schedule_waiting :
    (k : String) (s : Scheduler) → has k (schedule_waiting s).tasks ≡ has k s.tasks
unfolding schedule_waiting
has-schedule_waiting k s = has-schedule_each k s.order s

publish_tasks : (host : Host) (s : Scheduler) → (publish host s).tasks ≡ s.tasks
unfolding emit schedule_save
publish_tasks host s = ground arith

has-publish :
    (host : Host) (k : String) (s : Scheduler) → has k (publish host s).tasks ≡ has k s.tasks
has-publish host k s = ap (λ m. has k m) (publish_tasks host s)

-- What is done while an operation waits keeps the task.
abbrev pub KeepsTask : String → Gap → Type 0
KeepsTask k gap = (s : Scheduler) → has k s.tasks ≡ true → has k (gap s).tasks ≡ true

module _ (host : Host) (k : String) where
  pub add-has :
      (t : Task) (s : Scheduler) → has k s.tasks ≡ true → has k (add host t s).tasks ≡ true
  unfolding add add_cloned put_task
  add-has t s h =
      elim (Result-cases
        (prepare_ftp_directory_output host (reserved_outputs host s) (clone_task t))) [
          | inl (prepared, e) ↦ grind (arith, has-insert, has-schedule, has-publish)
          | inr (x, e) ↦ grind (arith, has-insert, has-publish)
        ]

  pub has-toggle_pause :
      (id : String) (s : Scheduler) → has k (toggle_pause host id s).0.tasks ≡ has k s.tasks
  unfolding toggle_pause toggle_task
  has-toggle_pause id s = grind (arith, has-modify, has-schedule, has-publish)

  pub has-remove :
      (id : String) (s : Scheduler)
      → has k (remove host id s).0.tasks ≡ (not (str_eq id k) && has k s.tasks)
  unfolding remove
  has-remove id s = grind (arith, lookup-delete, eq_iff, has-schedule_waiting, has-publish)

  has-redownload_begin :
      (id : String) (s : Scheduler) → has k (redownload_begin id s).0.tasks ≡ has k s.tasks
  unfolding redownload_begin
  has-redownload_begin id s = grind (arith, has-modify)

  has-redownload_commit :
      (id : String) (copy : Task) (s : Scheduler)
      → has k (redownload_commit host id copy s).0.tasks ≡ has k s.tasks
  unfolding redownload_commit
  has-redownload_commit id copy s = grind (arith, has-modify, has-schedule_waiting, has-publish)

  after_wait-has :
      (serial : Option ℕ) (gap : Gap) (s : Scheduler)
      → KeepsTask k gap
      → has k s.tasks ≡ true
      → has k (after_wait serial gap s).tasks ≡ true
  after_wait-has none gap s keeps h = h
  after_wait-has (some serial) gap s keeps h = keeps s h

  commit_renewed-has :
      (id : String) (gap : Gap) (renewed : Result Task) (s : Scheduler)
      → KeepsTask k gap
      → has k s.tasks ≡ true
      → has k (commit_renewed host id gap renewed s).0.tasks ≡ true
  commit_renewed-has id gap (err e) s keeps h = h
  commit_renewed-has id gap (ok copy) s keeps h = has-redownload_commit id copy (gap s) ∙ keeps s h

  copy_and_commit-has :
      (id : String) (wait gap : Gap) (begun : Scheduler × Result (Option ℕ))
      → KeepsTask k wait
      → KeepsTask k gap
      → has k begun.0.tasks ≡ true
      → has k (copy_and_commit host id wait gap begun).0.tasks ≡ true
  copy_and_commit-has id wait gap (s, err e) waits keeps h = h
  copy_and_commit-has id wait gap (s, ok serial) waits keeps h =
      let later = after_wait serial wait s in
      commit_renewed-has id gap (redownload_copy id later >>= redownload_prepare host) later keeps
        (after_wait-has serial wait s waits h)

  pub redownload-has :
      (id : String) (wait gap : Gap) (s : Scheduler)
      → KeepsTask k wait
      → KeepsTask k gap
      → has k s.tasks ≡ true
      → has k (redownload host id wait gap s).0.tasks ≡ true
  unfolding redownload
  redownload-has id wait gap s waits keeps h =
      copy_and_commit-has id wait gap (redownload_begin id s) waits keeps
        (has-redownload_begin id s ∙ h)
