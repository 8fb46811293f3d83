-- ===== src/Core/Scheduler/Lifecycle.antt =====
-- Tasks that enter, run, are edited and end keep the scheduler's invariant.
use godown.Base.{
  ◌≡◌, refl, ◌⊎◌, inl, inr, Bool, true, false, Option, none, some, List, [], ◌∷◌, String, arith,
  lookup, has, delete, modify, delete-Distinct, Option-cases,
}
use godown.Core.Task.{Task, ProgressUpdate, is_live, clone_task}
use godown.Core.Output.{Error, Result, ok, err, Host, prepare_ftp_directory_output, moved}
use godown.Core.Output.Moves.{Result-cases, prepare-moved}
use godown.Core.Scheduler.{
  working, exited, Scheduler, pause_task, set_status, schedule_waiting, schedule_save,
}
use godown.Core.Scheduler.Counting.{
  live_in_slot, count_running-modify_at_le, count_running-delete_le,
}
use godown.Core.Scheduler.Invariant.{
  IsValid, IsCalm, modify-IsKept, modify-IsValid, modify_run-IsValid, schedule-IsValid,
  schedule_waiting-IsValid, publish-IsValid, emit-IsValid,
}
use godown.Core.Scheduler.Enforce.{enforce_max_running-IsValid}
use godown.Core.Scheduler.Preservation.{put_task-IsValid}
use godown.Core.Scheduler.Control.{
  put_task, put_and_schedule, restore_waiting, fail_with, reserved_outputs, add_cloned, add, demote,
  end_load, load_each, load,
}
use godown.Core.Scheduler.Runs.{
  begin_run, set_phase, apply_update, report, settle, finish_run, rebalance, or_else,
}

pub begin_run-IsValid : (id : String) (s : Scheduler) → IsValid s → IsValid (begin_run id s).0
unfolding begin_run
begin_run-IsValid id s v = ground (
  arith,
  modify_run-IsValid id (set_phase working) s v,
  modify_run-IsValid id (set_phase exited) s v,
)

settle-IsCalm : (host : Host) (outcome : Option Error) → IsCalm (settle host outcome)
unfolding settle fail_with set_status
settle-IsCalm host outcome = record { same_id = λ t. ground arith; calm = λ t h. ground arith }

end_run-IsValid :
    (id : String) (s : Scheduler) → IsValid s → IsValid (record s { running = delete id s.running })
end_run-IsValid id s v = record {
  kept = record {
    distinct = delete-Distinct id s.running v.kept.distinct;
    keyed = v.kept.keyed;
    listed = v.kept.listed;
  };
  bounded = omega (arith, count_running-delete_le live_in_slot id s.tasks s.running, v.bounded);
}

pub finish_run-IsValid :
    (host : Host) (id : String) (outcome : Option Error) (s : Scheduler)
    → IsValid s
    → IsValid (finish_run host id outcome s)
unfolding finish_run
finish_run-IsValid host id outcome s v =
    let ended = record s { running = delete id s.running } in
    let settled = record ended { tasks = modify id (settle host outcome) s.tasks } in
    ground (
      arith,
      end_run-IsValid id s v,
      publish-IsValid host (schedule_waiting settled) (
          schedule_waiting-IsValid settled (
            modify-IsValid id (settle host outcome) ended (settle-IsCalm host outcome)
              (end_run-IsValid id s v))),
    )

-- A report makes no task live that was not.
apply_update_same_id : (u : ProgressUpdate) (t : Task) → (apply_update u t).id ≡ t.id
unfolding apply_update set_status
apply_update_same_id u t = ground arith

apply_update_calm :
    (u : ProgressUpdate) (t : Task)
    → (t.uses_slot ≡ true) ⊎ (or_else u.uses_slot t.uses_slot ≡ false)
    → live_in_slot (apply_update u t) ≡ true
    → live_in_slot t ≡ true
unfolding apply_update set_status
apply_update_calm u t h l = ground arith

updated-IsValid :
    (id : String) (u : ProgressUpdate) (s : Scheduler) {t : Task}
    → lookup id s.tasks ≡ some t
    → (t.uses_slot ≡ true) ⊎ (or_else u.uses_slot t.uses_slot ≡ false)
    → IsValid s
    → IsValid (record s { tasks = modify id (apply_update u) s.tasks })
updated-IsValid id u s {t} e h v = record {
  kept = modify-IsKept id (apply_update u) s (apply_update_same_id u) v.kept;
  bounded = omega (
    arith,
    count_running-modify_at_le live_in_slot id (apply_update u) s.tasks s.running e
        (apply_update_calm u t h),
    v.bounded,
  );
}

-- The slot flag of the report before and after.
rebalance-IsValid :
    (id : String) (u : ProgressUpdate) (s : Scheduler) {t : Task} (before after : Bool)
    → lookup id s.tasks ≡ some t
    → t.uses_slot ≡ before
    → or_else u.uses_slot t.uses_slot ≡ after
    → IsValid s
    → IsValid (rebalance before after (record s { tasks = modify id (apply_update u) s.tasks }))
rebalance-IsValid id u s true true e b a v = updated-IsValid id u s e (inl b) v
rebalance-IsValid id u s true false e b a v =
    schedule_waiting-IsValid (record s { tasks = modify id (apply_update u) s.tasks })
      (updated-IsValid id u s e (inl b) v)
rebalance-IsValid id u s false false e b a v = updated-IsValid id u s e (inr a) v
rebalance-IsValid id u s false true e b a v =
    enforce_max_running-IsValid (record s { tasks = modify id (apply_update u) s.tasks })
      (modify-IsKept id (apply_update u) s (apply_update_same_id u) v.kept)

pub report-IsValid :
    (host : Host) (id : String) (u : ProgressUpdate) (s : Scheduler)
    → IsValid s
    → IsValid (report host id u s)
unfolding report
report-IsValid host id u s v = elim (Option-cases (lookup id s.tasks)) [
  | inl e ↦ rw (e, report) v
  | inr (t, e) ↦
      rw (e, report)
        (publish-IsValid host _
          (rebalance-IsValid id u s t.uses_slot (or_else u.uses_slot t.uses_slot) e refl refl v))
]

-- A moved task has the id that it had.
pub prepare_same_id :
    (host : Host) (paths : List String) (t : Task) {p : Task}
    → prepare_ftp_directory_output host paths t ≡ ok p
    → p.id ≡ t.id
unfolding moved
prepare_same_id host paths t h = ground (arith, prepare-moved host paths t h)

restore_waiting_same_id : (t p : Task) → (restore_waiting t p).id ≡ p.id
unfolding set_status
restore_waiting_same_id t p = ground arith

put_and_schedule-IsValid :
    (t : Task) (s : Scheduler)
    → has t.id s.running ≡ false
    → IsValid s
    → IsValid (put_and_schedule t s)
put_and_schedule-IsValid t s free v = ground (
  arith,
  put_task-IsValid t s (inl free) v,
  schedule-IsValid t.id (put_task t s) (put_task-IsValid t s (inl free) v),
)

-- Add, from the task that was cloned.
add_cloned-IsValid :
    (host : Host) (t : Task) (s : Scheduler)
    → has t.id s.running ≡ false
    → IsValid s
    → IsValid (add_cloned host t s)
unfolding add_cloned fail_with
add_cloned-IsValid host t s free v =
    elim (Result-cases (prepare_ftp_directory_output host (reserved_outputs host s) t)) [
      | inl (p, e) ↦ rw e (
          publish-IsValid host _ (
            put_and_schedule-IsValid (restore_waiting t p) s
              (ground (
                arith,
                restore_waiting_same_id t p,
                prepare_same_id host (reserved_outputs host s) t e,
              ))
              v))
      | inr (x, e) ↦
          rw e (publish-IsValid host _ (put_task-IsValid (fail_with host x t) s (inl free) v))
    ]

-- The id of a new task has no run.
pub add-IsValid :
    (host : Host) (t : Task) (s : Scheduler)
    → has t.id s.running ≡ false
    → IsValid s
    → IsValid (add host t s)
unfolding add clone_task
add-IsValid host t s free v = add_cloned-IsValid host (clone_task t) s free v

demote_idle : (t : Task) → is_live (demote t).status ≡ false
unfolding pause_task
demote_idle t = ground arith

load_each-IsValid :
    (host : Host) (loaded : List Task) (migrated : Bool) (s : Scheduler)
    → IsValid s
    → IsValid (load_each host loaded migrated s).0
unfolding load_each
load_each-IsValid host [] migrated s v = v
load_each-IsValid host (given ∷ rest) migrated s v =
    elim (Result-cases
      (prepare_ftp_directory_output host (reserved_outputs host s) (clone_task given))) [
        | inr (x, e) ↦
            rw (e, load_each)
              (record {
                kept = record {
                  distinct = v.kept.distinct;
                  keyed = v.kept.keyed;
                  listed = v.kept.listed;
                };
                bounded = v.bounded;
              })
        | inl (p, e) ↦
            rw (e, load_each)
              (load_each-IsValid host rest _ (put_task (demote p) s)
                (put_task-IsValid (demote p) s (inr (demote_idle p)) v))
      ]

end_load-IsValid :
    (host : Host) (s : Scheduler) (migrated : Bool) (x : Option Error)
    → IsValid s
    → IsValid (end_load host (s, migrated, x)).0
unfolding schedule_save
end_load-IsValid host s migrated (some x) v = v
end_load-IsValid host s migrated none v = emit-IsValid host _ (ground arith)

pub load-IsValid :
    (host : Host) (stored : Result (List Task)) (s : Scheduler)
    → IsValid s
    → IsValid (load host stored s).0
unfolding load
load-IsValid host (err x) s v = ground arith
load-IsValid host (ok tasks) s v =
    let fresh = record s { load_failed = false } in
    let loaded = load_each-IsValid host tasks false fresh (ground arith) in
    let result = load_each host tasks false fresh in
    ground (arith, v, end_load-IsValid host result.0 result.1 result.2 loaded)
