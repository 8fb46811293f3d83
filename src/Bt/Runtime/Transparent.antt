-- ===== src/Bt/Runtime/Transparent.antt =====
-- The two processes together.
use godown.Base.{
  ℕ, zero, suc, ◌≤◌, ◌≡◌, refl, ap, ◌∙◌, true, false, Option, none, some, List, [], ◌∷◌, ◌++◌,
  String, str_eq, length, take, arith, if◌then◌else◌,
}
use godown.Core.Task.{ProgressUpdate}
use godown.Core.Output.{Error, message}
use godown.Bt.Runtime.{
  RuntimeMessage, Frame, decoded, take_message, read_messages, Process, no_terminal, nothing_read,
  conclude, run, end_text, run_worker,
}
use mathlib.Core.List.{append_assoc, append-nil}

abbrev pub frames_of : List RuntimeMessage → List Frame
frames_of [] = []
frames_of (m ∷ messages) = decoded m ∷ frames_of messages

-- A process that is started, is sent its task, and ends without an error of its own.
abbrev pub process_of : List Frame → Process
process_of frames = record {
  pipe_error = none;
  start_error = none;
  send_error = none;
  frames = frames;
  exit_error = none;
  context_error = none;
}

-- The error that the text of the last message stands for.
abbrev pub told : String → Option Error
told text = if str_eq text "" then none else some (message text)

-- The first of two errors.
abbrev pub first_of : Option Error → Option Error → Option Error
first_of none later = later
first_of (some e) later = some e

module _ (error_text : Error → String) where
  read_whole :
      (updates : List ProgressUpdate) (outcome : Option Error) (reports : List ProgressUpdate)
      → read_messages
          (frames_of (run_worker error_text updates outcome))
          (record { reports = reports; failure = none; saw_done = false })
        ≡ record {
          reports = reports ++ updates;
          failure = told (end_text error_text outcome);
          saw_done = true;
        }
  unfolding read_messages run_worker take_message
  read_whole [] outcome reports = rw (append-nil reports) refl
  read_whole (update ∷ updates) outcome reports =
      rw⁻¹ (append_assoc reports (update ∷ []) updates)
        (read_whole updates outcome (reports ++ update ∷ []))

  -- The messages of a run that breaks off: the updates that were written by then.
  read_part :
      (updates : List ProgressUpdate) (outcome : Option Error) (k : ℕ)
      (reports : List ProgressUpdate)
      → k ≤ length updates
      → read_messages
          (frames_of (take k (run_worker error_text updates outcome)))
          (record { reports = reports; failure = none; saw_done = false })
        ≡ record { reports = reports ++ take k updates; failure = none; saw_done = false }
  unfolding read_messages run_worker take_message
  read_part updates outcome zero reports h = rw (append-nil reports) refl
  read_part [] outcome (suc k) reports h = let impossible : ⊥ = omega arith in elim impossible [ ]
  read_part (update ∷ updates) outcome (suc k) reports h =
      rw⁻¹ (append_assoc reports (update ∷ []) (take k updates))
        (read_part updates outcome k (reports ++ update ∷ []) (omega arith))

  -- A run through a process that was started and sent its task, and that writes what the run of
  -- the engine's worker gives it, is that run: the program gets its updates, all of them and in
  -- their order. Then it returns the error of its own context, if that has ended by then, and the
  -- process was asked to stop; or else the engine's error with its text; or else, where the engine
  -- ended well, was cancelled, or gave an error with no text, the error of the process's exit, if
  -- there is one.
  pub run_is_transparent :
      (p : Process) (updates : List ProgressUpdate) (outcome : Option Error)
      → p.pipe_error ≡ none
      → p.start_error ≡ none
      → p.send_error ≡ none
      → p.frames ≡ frames_of (run_worker error_text updates outcome)
      → run p ≡ (
        updates,
        first_of p.context_error (first_of (told (end_text error_text outcome)) p.exit_error),
      )
  unfolding run conclude
  run_is_transparent p updates outcome pipes starts sends frames =
      let whole = read_whole updates outcome [] in
      let read = ap (λ (l : List Frame). read_messages l nothing_read) frames ∙ whole in
      ground (arith, read, pipes, starts, sends)

  -- A process whose messages break off before the last, however it ends, is an error, and the
  -- updates that it wrote by then were reported.
  pub run_broken_off :
      (updates : List ProgressUpdate) (outcome : Option Error) (k : ℕ) (exit : Option Error)
      → k ≤ length updates
      → run (record (process_of (frames_of (take k (run_worker error_text updates outcome)))) {
        exit_error = exit;
      })
        ≡ (take k updates, some no_terminal)
  unfolding run conclude
  run_broken_off updates outcome k exit h =
      let part = read_part updates outcome k [] h in ground (arith, part)
