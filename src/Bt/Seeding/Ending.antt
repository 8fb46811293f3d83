-- ===== src/Bt/Seeding/Ending.antt =====
-- How a run ends.
use godown.Base.{
  ℕ, ◌≡◌, refl, sym, ap, subst, Bool, true, false, Option, none, some, List, [], ◌∷◌, arith,
  if◌then◌else◌,
}
use godown.Base.Int.{◌≤ℤ◌}
use godown.Core.Task.{Task, ProgressUpdate, running, seeding}
use godown.Core.Output.{Error, Result, ok, err}
use godown.Bt.Checkpoint.{
  Codec, RuntimeState, RuntimeOptions, runtime_state_from_task, runtime_state_patch,
  runtime_options_from_task,
}
use godown.Bt.Seeding.{
  Snapshot, Sampling, Fixed, Round, tick, done, End, returned, open_ended, is_complete,
  should_stop_seeding, take_snapshot, plain_report, sample_report, stops, go_on, close_with,
  open_with, take_rounds, checking, at_start, fixed_at, run_transfer,
}
use godown.Bt.Seeding.Sound.{run_transfer_read}

-- A report of a whole download, whose checkpoint has reached a limit of seeding.
pub record IsSeeded (codec : Codec) (options : RuntimeOptions) (u : ProgressUpdate) : Type 0 where
  pub state : RuntimeState
  pub checkpoint : u.stage_state ≡ runtime_state_patch codec state
  pub status : u.status ≡ some seeding
  pub whole : u.file_size ≤ℤ u.received
  pub limit : should_stop_seeding options state ≡ true

pub data EndsSeeded (codec : Codec) (options : RuntimeOptions) : List ProgressUpdate → Type 0 where
  last_report : {u : ProgressUpdate} → IsSeeded codec options u → EndsSeeded codec options (u ∷ [])
  earlier_report :
      {u : ProgressUpdate} {reports : List ProgressUpdate}
      → EndsSeeded codec options reports
      → EndsSeeded codec options (u ∷ reports)

module _ (codec : Codec) where
  complete_after :
      (fixed : Fixed) (now : ℕ) (snapshot : Snapshot) (v : Sampling)
      → (take_snapshot fixed now snapshot v).last_complete ≡ true
      → is_complete (take_snapshot fixed now snapshot v).state.files ≡ true
  unfolding take_snapshot
  complete_after fixed now snapshot v h = h

  stopped-IsSeeded :
      (fixed : Fixed) (v : Sampling)
      → v.last_complete ≡ true
      → is_complete v.state.files ≡ true
      → should_stop_seeding fixed.options v.state ≡ true
      → IsSeeded codec fixed.options (sample_report codec v)
  unfolding sample_report plain_report
  stopped-IsSeeded fixed v complete whole limit = record {
    state = v.state;
    checkpoint = refl;
    status = ap (λ b. some (if b then seeding else running)) complete;
    whole = ground (arith, whole);
    limit = limit;
  }

  go_on-EndsSeeded :
      (options : RuntimeOptions) (stop : Bool) (u : ProgressUpdate)
      → (rest : List ProgressUpdate × End) → (stop ≡ true → IsSeeded codec options u)
      → (rest.1 ≡ returned [] → EndsSeeded codec options rest.0)
      → (go_on stop u rest).1 ≡ returned []
      → EndsSeeded codec options (go_on stop u rest).0
  go_on-EndsSeeded options true u rest here later h = last_report (here refl)
  go_on-EndsSeeded options false u rest here later h = earlier_report (later h)

  take_rounds-EndsSeeded :
      (fixed : Fixed) (rounds : List Round) (v : Sampling)
      → (take_rounds codec fixed rounds v).1 ≡ returned []
      → EndsSeeded codec fixed.options (take_rounds codec fixed rounds v).0
  unfolding take_rounds
  take_rounds-EndsSeeded fixed [] v h =
      let impossible : ⊥ = ground (arith, h) in elim impossible [ ]
  take_rounds-EndsSeeded fixed (done now (err e) cause ∷ rounds) v h =
      let impossible : ⊥ = ground (arith, h) in elim impossible [ ]
  take_rounds-EndsSeeded fixed (done now (ok snapshot) cause ∷ rounds) v h =
      let impossible : ⊥ = ground (arith, h) in elim impossible [ ]
  take_rounds-EndsSeeded fixed (tick now (err e) ∷ rounds) v h =
      let impossible : ⊥ = ground (arith, h) in elim impossible [ ]
  take_rounds-EndsSeeded fixed (tick now (ok snapshot) ∷ rounds) v h =
      let v' = take_snapshot fixed now snapshot v in
      go_on-EndsSeeded fixed.options (stops codec fixed v') (sample_report codec v')
        (take_rounds codec fixed rounds v')
        (λ stop.
          stopped-IsSeeded fixed v' (ground (arith, stop))
            (complete_after fixed now snapshot v (ground (arith, stop))) (ground (arith, stop)))
        (take_rounds-EndsSeeded fixed rounds v') h

  closed_well :
      (close_error : Option Error) (end : End)
      → close_with close_error end ≡ returned []
      → end ≡ returned []
  closed_well none end h = h
  closed_well (some e) (returned []) h = refl
  closed_well (some e) (returned (x ∷ errors)) h =
      let impossible : ⊥ = ground (arith, h) in elim impossible [ ]
  closed_well (some e) open_ended h = let impossible : ⊥ = ground (arith, h) in elim impossible [ ]

  opened_well :
      (options : RuntimeOptions) (open_error close_error : Option Error) (u : ProgressUpdate)
      → (rest : List ProgressUpdate × End)
      → (rest.1 ≡ returned [] → EndsSeeded codec options rest.0)
      → (open_with open_error close_error u rest).1 ≡ returned []
      → EndsSeeded codec options (open_with open_error close_error u rest).0
  opened_well options none close_error u rest later h =
      earlier_report (later (closed_well close_error rest.1 h))
  opened_well options (some e) close_error u rest later h =
      let impossible : ⊥ = ground (arith, h) in elim impossible [ ]

  -- A run that returns no error has made a last report, of a whole download in the status of
  -- seeding, whose checkpoint has reached the ratio or the time that the task's options set as
  -- limits.
  pub run_transfer-EndsSeeded :
      (t : Task) (s : RuntimeState)
      → runtime_state_from_task codec t ≡ ok s
      → (open_error : Option Error) (started now : ℕ) (first : Result Snapshot)
      → (rounds : List Round) (close_error : Option Error)
      → (run_transfer codec t open_error started now first rounds close_error).1 ≡ returned []
      → EndsSeeded codec
          (runtime_options_from_task codec t)
          (run_transfer codec t open_error started now first rounds close_error).0
  run_transfer-EndsSeeded t s e open_error started now first rounds close_error h =
      let whole_run =
        run_transfer_read codec t s e open_error started now first rounds close_error in
      let fixed = fixed_at codec started t s in
      let all = tick now first ∷ rounds in
      let v = at_start codec started (checking codec s) in
      subst (λ (r : List ProgressUpdate × End). EndsSeeded codec fixed.options r.0) (sym whole_run)
        (opened_well fixed.options open_error close_error
          (plain_report codec (checking codec s) true) (take_rounds codec fixed all v)
          (take_rounds-EndsSeeded fixed all v)
          (subst (λ (r : List ProgressUpdate × End). r.1 ≡ returned []) whole_run h))
