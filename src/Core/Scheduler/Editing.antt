-- ===== src/Core/Scheduler/Editing.antt =====
-- The sections of Redownload and EditTask, and the end of StopAll, keep the scheduler's invariant.
use godown.Base.{
  ℕ, ◌≡◌, refl, ap, sym, ◌∙◌, inl, inr, Bool, true, false, some, String, arith, eq_iff, lookup,
  insert, modify, Option-cases, lookup-insert,
}
use godown.Core.Task.{Task, waiting, paused, is_live, clone_task, Task-discrete, without_maps}
use godown.Core.Output.{Result, ok, err, Host}
use godown.Core.Scheduler.{
  Scheduler, pause_task, set_status, cancel, cancel_run, schedule_waiting, save, save_timer_fires,
}
use godown.Core.Scheduler.Counting.{live_in_slot, count_running-insert_task_le}
use godown.Core.Scheduler.Invariant.{
  IsValid, IsCalm, modify-IsValid, modify_run-IsValid, pause_task-IsCalm, set_status-IsCalm,
  schedule-IsValid, schedule_waiting-IsValid, publish-IsValid, emit-IsValid,
}
use godown.Core.Scheduler.Control.{stop_finish}
use godown.Core.Scheduler.Edits.{
  redownload_begin, redownload_commit, renew, edit_begin, edit_apply, edit_commit, restrict_edit,
}

-- The change of a task under an id and the cancellation of its run.
stopped-IsValid :
    (id : String) (f : Task → Task) (s : Scheduler)
    → IsCalm f
    → IsValid s
    → IsValid (cancel id (record s { tasks = modify id f s.tasks }))
stopped-IsValid id f s c v =
    modify_run-IsValid id cancel_run (record s { tasks = modify id f s.tasks })
      (modify-IsValid id f s c v)

pub redownload_begin-IsValid :
    (id : String) (s : Scheduler) → IsValid s → IsValid (redownload_begin id s).0
unfolding redownload_begin
redownload_begin-IsValid id s v =
    ground (arith, v, stopped-IsValid id (set_status paused) s (set_status-IsCalm paused refl) v)

renew-IsCalm : (copy : Task) → IsCalm (renew copy)
unfolding renew
renew-IsCalm copy = record { same_id = λ t. refl; calm = λ t h. ground arith }

pub redownload_commit-IsValid :
    (host : Host) (id : String) (copy : Task) (s : Scheduler)
    → IsValid s
    → IsValid (redownload_commit host id copy s).0
unfolding redownload_commit
redownload_commit-IsValid host id copy s v =
    let renewed = record s { tasks = modify id (renew copy) s.tasks } in
    ground (
      arith,
      v,
      publish-IsValid host (schedule_waiting renewed) (
          schedule_waiting-IsValid renewed
            (modify-IsValid id (renew copy) s (renew-IsCalm copy) v)),
    )

pub edit_begin-IsValid :
    (host : Host) (id : String) (s : Scheduler) → IsValid s → IsValid (edit_begin host id s).0
unfolding edit_begin
edit_begin-IsValid host id s v = ground (
  arith,
  v,
  emit-IsValid host (cancel id (record s { tasks = modify id pause_task s.tasks }))
      (stopped-IsValid id pause_task s pause_task-IsCalm v),
)

-- What an editor returns takes the id of the task, and is not live.
restrict_edit_id :
    (resume : Bool) (original edited : Task)
    → (restrict_edit resume original edited).id ≡ original.id
unfolding restrict_edit clone_task
restrict_edit_id resume original edited = refl

restrict_edit_idle :
    (resume : Bool) (original edited : Task)
    → is_live (restrict_edit resume original edited).status ≡ false
unfolding restrict_edit clone_task
restrict_edit_idle true original edited = refl
restrict_edit_idle false original edited = refl

replaced-IsValid :
    (id : String) (t : Task) (s : Scheduler) {old : Task}
    → lookup id s.tasks ≡ some old
    → t.id ≡ old.id
    → is_live t.status ≡ false
    → IsValid s
    → IsValid (record s { tasks = insert id t s.tasks })
replaced-IsValid id t s {old} e named idle v = record {
  kept = record {
    distinct = v.kept.distinct;
    keyed = λ k u h.
        ground (
          arith,
          lookup-insert id k t s.tasks,
          eq_iff id k,
          v.kept.keyed k u,
          v.kept.keyed id old e,
        );
    listed = λ k h. ground (arith, lookup-insert id k t s.tasks, eq_iff id k, v.kept.listed k);
  };
  bounded = omega (
    arith,
    count_running-insert_task_le live_in_slot id t s.tasks s.running (ground arith),
    v.bounded,
  );
}

edit_apply-IsValid :
    (host : Host) (id : String) (resume : Bool) (original t : Task) (outcome : Result Task)
    (s : Scheduler)
    → lookup id s.tasks ≡ some t
    → t.id ≡ original.id
    → IsValid s
    → IsValid (edit_apply host id resume original outcome s).0
unfolding edit_apply
edit_apply-IsValid host id true original t (err x) s e named v = publish-IsValid host _ (
    schedule-IsValid id _
      (modify-IsValid id (set_status waiting) s (set_status-IsCalm waiting refl) v))
edit_apply-IsValid host id false original t (err x) s e named v = v
edit_apply-IsValid host id resume original t (ok edited) s e named v =
    let new = restrict_edit resume original edited in
    let put =
      replaced-IsValid id new s e (restrict_edit_id resume original edited ∙ sym named)
        (restrict_edit_idle resume original edited) v in
    publish-IsValid host _
      (ground (arith, put, schedule-IsValid id (record s { tasks = insert id new s.tasks }) put))

pub edit_commit-IsValid :
    (host : Host) (id : String) (resume : Bool) (original : Task) (epoch : ℕ)
    (outcome : Result Task) (s : Scheduler)
    → IsValid s
    → IsValid (edit_commit host id resume (original, epoch) outcome s).0
unfolding edit_commit
edit_commit-IsValid host id resume original epoch outcome s v =
    elim (Option-cases (lookup id s.tasks)) [
      | inl e ↦ ground arith
      | inr (t, e) ↦ elim (Task-discrete (without_maps t) (without_maps original)) [
        | yes same ↦ ground (
          arith,
          edit_apply-IsValid host id resume original t outcome s e (ap (λ (u : Task). u.id) same) v,
        )
        | no other ↦ ground arith
      ]
    ]

pub stop_finish-IsValid : (s : Scheduler) → IsValid s → IsValid (stop_finish s)
unfolding stop_finish save
stop_finish-IsValid s v = ground arith

pub save_timer_fires-IsValid : (s : Scheduler) → IsValid s → IsValid (save_timer_fires s)
unfolding save_timer_fires
save_timer_fires-IsValid s v = ground arith
