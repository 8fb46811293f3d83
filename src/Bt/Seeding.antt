-- ===== src/Bt/Seeding.antt =====
-- internal/download/bt/worker.go: Run of the engine's worker. The transfer is what its snapshots
-- give, a time is a number of nanoseconds, and a quotient of floats is the exact one.
pub mod Sound
pub mod Ending
use godown.Base.{
  ℕ, suc, ◌+◌, ◌*◌, ◌/◌, ◌≡◌, Bool, true, false, not, ◌&&◌, ◌||◌, Option, none, some, List, [], ◌∷◌,
  ◌++◌, String, concat, str_eq, if◌then◌else◌,
}
use godown.Base.Int.{ℤ, pos, negsuc, pos_part, ltb_ℤ, ◌+ℤ◌, ◌-ℤ◌, ◌*ℤ◌}
use godown.Core.Task.{
  Task, Percent, percent, zero_percent, full_percent, ProgressUpdate, running, seeding,
}
use godown.Core.Output.{Error, Result, ok, err}
use godown.Bt.Files.{File, selected_size}
use godown.Bt.Checkpoint.{
  Codec, RuntimeState, RuntimeOptions, or_fallback, runtime_state_from_task, runtime_state_patch,
  runtime_options_from_task,
}

-- transferSnapshot.
pub record Snapshot : Type 0 where
  pub file_bytes : List (ℤ × ℤ)
  pub session_downloaded : ℤ
  pub session_uploaded : ℤ
  pub peers : ℤ
  pub seeds : ℤ

abbrev pub min_ℤ : ℤ → ℤ → ℤ
min_ℤ a b = if ltb_ℤ a b then a else b

abbrev pub max_ℤ : ℤ → ℤ → ℤ
max_ℤ a b = if ltb_ℤ b a then a else b

unfoldable pub selected_downloaded : List File → ℤ
selected_downloaded [] = pos 0
selected_downloaded (f ∷ files) =
    let rest = selected_downloaded files in
    if f.selected then min_ℤ (max_ℤ f.downloaded (pos 0)) f.size +ℤ rest else rest

unfoldable pub progress_percent : ℤ → ℤ → Percent
progress_percent received total =
    if not (ltb_ℤ (pos 0) total)
    then full_percent
    else if ltb_ℤ received (pos 0)
    then zero_percent
    else if ltb_ℤ total received
    then full_percent
    else percent received total

-- Of a number of bytes in a number of nanoseconds.
unfoldable pub non_negative_rate : ℤ → ℤ → ℤ
non_negative_rate delta elapsed =
    if not (ltb_ℤ (pos 0) delta) || not (ltb_ℤ (pos 0) elapsed)
    then pos 0
    else pos (pos_part delta * 1000000000 / pos_part elapsed)

unfoldable pub bytes_at : ℤ → List (ℤ × ℤ) → ℤ
bytes_at index [] = pos 0
bytes_at index ((i, n) ∷ rest) =
    let later = bytes_at index rest in if ltb_ℤ i index || ltb_ℤ index i then later else n

-- The bytes that the loop of `sample` takes for a file.
abbrev pub measured_bytes : Snapshot → File → ℤ
measured_bytes snapshot f =
    let n = bytes_at f.index snapshot.file_bytes in
    let from_zero = if ltb_ℤ n (pos 0) then pos 0 else n in
    let to_size = if ltb_ℤ f.size from_zero then f.size else from_zero in
    if not f.selected then pos 0 else to_size

abbrev pub measured : Snapshot → File → File
measured snapshot f =
    let n = measured_bytes snapshot f in
    record f { downloaded = n; completed = f.selected && not (ltb_ℤ n f.size) }

unfoldable pub measure : Snapshot → List File → List File
measure snapshot [] = []
measure snapshot (f ∷ files) = measured snapshot f ∷ measure snapshot files

-- A duration of nanoseconds in whole seconds; the division is towards zero.
abbrev pub whole_seconds : ℤ → ℤ
whole_seconds (pos n) = pos (n / 1000000000)
whole_seconds (negsuc n) = pos 0 -ℤ pos (suc n / 1000000000)

-- Whether a ratio is a number of percent at least.
abbrev pub reaches : Percent → ℤ → Bool
reaches (percent n d) limit = not (ltb_ℤ (n *ℤ pos 100) (limit *ℤ d))

unfoldable pub should_stop_seeding : RuntimeOptions → RuntimeState → Bool
should_stop_seeding options s =
    (ltb_ℤ (pos 0) options.seed_ratio_limit_percent
      && reaches s.share_ratio options.seed_ratio_limit_percent)
    || (ltb_ℤ (pos 0) options.seed_time_limit_minutes
        && not (ltb_ℤ s.seeding_seconds (options.seed_time_limit_minutes *ℤ pos 60)))

-- The variables of Run that change.
pub record Sampling : Type 0 where
  pub state : RuntimeState
  pub previous_at : ℕ
  pub previous_downloaded : ℤ
  pub previous_uploaded : ℤ
  pub seeding_started : Option ℕ
  pub last_complete : Bool
  pub uses_slot : Bool

-- Those that do not.
pub record Fixed : Type 0 where
  pub options : RuntimeOptions
  pub started : ℕ
  pub base_uploaded : ℤ
  pub base_seeding_seconds : ℤ

abbrev pub is_complete : List File → Bool
is_complete files = not (ltb_ℤ (selected_downloaded files) (selected_size files))

abbrev pub since : ℕ → ℕ → ℤ
since now before = pos now -ℤ pos before

abbrev pub elapsed_at : Fixed → Sampling → ℕ → ℤ
elapsed_at fixed v now =
    let elapsed = since now v.previous_at in
    if ltb_ℤ (pos 0) elapsed then elapsed else since now fixed.started

-- What `sample` makes of the variables.
unfoldable pub take_snapshot : Fixed → ℕ → Snapshot → Sampling → Sampling
take_snapshot fixed now snapshot v =
    let files = measure snapshot v.state.files in
    let total = selected_size files in
    let complete = is_complete files in
    let elapsed = elapsed_at fixed v now in
    let timed = ltb_ℤ (pos 0) elapsed in
    let uploaded = fixed.base_uploaded +ℤ max_ℤ snapshot.session_uploaded (pos 0) in
    let seeding_from = or_fallback v.seeding_started now in
    record {
      state = record {
        files = files;
        uploaded_bytes = uploaded;
        seeding_seconds =
            if complete
            then fixed.base_seeding_seconds +ℤ whole_seconds (since now seeding_from)
            else v.state.seeding_seconds;
        phase = if complete then "seeding" else "downloading";
        peer_count = snapshot.peers;
        seed_count = snapshot.seeds;
        download_rate =
            if timed
            then non_negative_rate (snapshot.session_downloaded -ℤ v.previous_downloaded) elapsed
            else v.state.download_rate;
        upload_rate =
            if timed
            then non_negative_rate (snapshot.session_uploaded -ℤ v.previous_uploaded) elapsed
            else v.state.upload_rate;
        share_ratio = if ltb_ℤ (pos 0) total then percent uploaded total else v.state.share_ratio;
      };
      previous_at = now;
      previous_downloaded = snapshot.session_downloaded;
      previous_uploaded = snapshot.session_uploaded;
      seeding_started = if complete then some seeding_from else v.seeding_started;
      last_complete = complete;
      uses_slot = not complete;
    }

-- What happens in a round of the loop: the ticker, or the end of the context with its error. The
-- answer is that of the transfer's snapshot.
pub data Round : Type 0 where
  tick : ℕ → Result Snapshot → Round
  done : ℕ → Result Snapshot → Error → Round

-- How a run ends: with its errors, or not within the rounds that are given.
pub data End : Type 0 where
  returned : List Error → End
  open_ended : End

-- A report, and behind it the rest of the run, where it does not stop.
abbrev pub go_on : Bool → ProgressUpdate → List ProgressUpdate × End → List ProgressUpdate × End
go_on true u rest = (u ∷ [], returned [])
go_on false u rest = (u ∷ rest.0, rest.1)

abbrev pub close_with : Option Error → End → End
close_with none end = end
close_with (some e) (returned errors) = returned (errors ++ e ∷ [])
close_with (some e) open_ended = open_ended

-- The first report, and the run behind a factory with its error, up to Close with its.
abbrev pub open_with :
    Option Error
    → Option Error
    → ProgressUpdate
    → List ProgressUpdate × End
    → List ProgressUpdate × End
open_with (some e) close_error opening rest = (opening ∷ [], returned (e ∷ []))
open_with none close_error opening rest = (opening ∷ rest.0, close_with close_error rest.1)

module _ (codec : Codec) where
  abbrev words : List String → String
  words [] = ""
  words (s ∷ rest) = concat s (words rest)

  -- runtimeDetail.
  unfoldable pub runtime_detail : RuntimeState → String
  runtime_detail s =
      let phase = codec.spaced s.phase in
      words (
        "BT "
        ∷ (if str_eq phase "" then "ready" else phase)
        ∷ " | peers "
        ∷ codec.format_int s.peer_count
        ∷ " | seeds "
        ∷ codec.format_int s.seed_count
        ∷ " | down "
        ∷ codec.format_int s.download_rate
        ∷ " B/s | up "
        ∷ codec.format_int s.upload_rate
        ∷ " B/s | ratio "
        ∷ codec.show_ratio s.share_ratio
        ∷ "% | seeded "
        ∷ codec.format_int s.seeding_seconds
        ∷ "s"
        ∷ [])

  -- The first report of a run, and the last of one that is cancelled.
  unfoldable pub plain_report : RuntimeState → Bool → ProgressUpdate
  plain_report s uses_slot =
      let received = selected_downloaded s.files in
      let total = selected_size s.files in
      record {
        received = received;
        file_size = total;
        speed = pos 0;
        progress = progress_percent received total;
        detail = runtime_detail s;
        status = none;
        stage_state = runtime_state_patch codec s;
        uses_slot = some uses_slot;
      }

  unfoldable pub sample_report : Sampling → ProgressUpdate
  sample_report v = record (plain_report v.state v.uses_slot) {
    speed = v.state.download_rate;
    status = some (if v.last_complete then seeding else running);
  }

  abbrev pub paused_phase : Sampling → RuntimeState
  paused_phase v = record v.state {
    phase = if v.last_complete then "paused_seeding" else "paused_download";
  }

  abbrev pub stops : Fixed → Sampling → Bool
  stops fixed v = v.last_complete && should_stop_seeding fixed.options v.state

  -- The loop: the reports, and the end.
  unfoldable pub take_rounds : Fixed → List Round → Sampling → List ProgressUpdate × End
  take_rounds fixed [] v = ([], open_ended)
  take_rounds fixed (done now (err e) cause ∷ rounds) v =
      (plain_report (paused_phase v) v.uses_slot ∷ [], returned (cause ∷ []))
  take_rounds fixed (done now (ok snapshot) cause ∷ rounds) v =
      let v' = take_snapshot fixed now snapshot v in
      (sample_report v' ∷ plain_report (paused_phase v') v'.uses_slot ∷ [], returned (cause ∷ []))
  take_rounds fixed (tick now (err e) ∷ rounds) v = ([], returned (e ∷ []))
  take_rounds fixed (tick now (ok snapshot) ∷ rounds) v =
      let v' = take_snapshot fixed now snapshot v in
      let rest = take_rounds fixed rounds v' in go_on (stops fixed v') (sample_report v') rest

  abbrev pub checking : RuntimeState → RuntimeState
  checking s = record s { phase = "checking" }

  abbrev pub at_start : ℕ → RuntimeState → Sampling
  at_start now s = record {
    state = s;
    previous_at = now;
    previous_downloaded = pos 0;
    previous_uploaded = pos 0;
    seeding_started = none;
    last_complete = false;
    uses_slot = true;
  }

  abbrev pub fixed_at : ℕ → Task → RuntimeState → Fixed
  fixed_at now t s = record {
    options = runtime_options_from_task codec t;
    started = now;
    base_uploaded = s.uploaded_bytes;
    base_seeding_seconds = s.seeding_seconds;
  }

  -- Run from a task: the error of the factory, the time of the start, the first snapshot and its
  -- time as a first tick, the rounds of the loop, and the error of Close.
  unfoldable pub run_transfer :
      Task
      → Option Error
      → ℕ
      → ℕ
      → Result Snapshot
      → List Round
      → Option Error
      → List ProgressUpdate × End
  run_transfer t open_error started now first rounds close_error =
      elim (runtime_state_from_task codec t) [
        | err e ↦ ([], returned (e ∷ []))
        | ok s ↦
            let checked = checking s in
            let fixed = fixed_at started t s in
            let rest = take_rounds fixed (tick now first ∷ rounds) (at_start started checked) in
            open_with open_error close_error (plain_report checked true) rest
      ]
