-- ===== src/Bt/Runtime.antt =====
-- internal/btruntime/client.go and cmd/gd3-bt-runtime/main.go: the process of the BitTorrent
-- engine, and the worker that stands for it in the program. A message is JSON as decoded.
pub mod Transparent
use godown.Base.{
  ℕ, Bool, true, false, not, ◌||◌, Option, none, some, List, [], ◌∷◌, ◌++◌, String, str_eq, length,
  if◌then◌else◌,
}
use godown.Core.Task.{Task, ProgressUpdate}
use godown.Core.Output.{Error, message, canceled, Result, ok, err, ◌>>=◌}

-- An error of "" is none.
pub record RuntimeMessage : Type 0 where
  pub task : Option Task
  pub update : Option ProgressUpdate
  pub error : String
  pub done : Bool

-- What decoder.Decode gives, one after the other; behind the last it gives io.EOF.
pub data Frame : Type 0 where
  decoded : RuntimeMessage → Frame
  broken : Error → Frame

-- The variables of the loop that reads.
pub record Reading : Type 0 where
  pub reports : List ProgressUpdate  -- oldest first
  pub failure : Option Error
  pub saw_done : Bool

abbrev pub reported : Option ProgressUpdate → List ProgressUpdate → List ProgressUpdate
reported none reports = reports
reported (some update) reports = reports ++ update ∷ []

unfoldable pub take_message : RuntimeMessage → Reading → Reading
take_message m r = record {
  reports = reported m.update r.reports;
  failure = if str_eq m.error "" then r.failure else some (message m.error);
  saw_done = r.saw_done || m.done;
}

unfoldable pub read_messages : List Frame → Reading → Reading
read_messages [] r = r
read_messages (broken e ∷ frames) r = record r { failure = some e }
read_messages (decoded m ∷ frames) r =
    let read = take_message m r in
    let rest = read_messages frames read in if m.done then read else rest

-- What the process and the context do in a run of the worker.
pub record Process : Type 0 where
  pub pipe_error : Option Error  -- of stdin or stdout
  pub start_error : Option Error
  pub send_error : Option Error  -- of the task
  pub frames : List Frame
  pub exit_error : Option Error
  pub context_error : Option Error  -- ctx.Err() once the process has ended

abbrev pub nothing_read : Reading
nothing_read = record { reports = []; failure = none; saw_done = false }

abbrev pub no_terminal : Error
no_terminal = message "BitTorrent runtime closed without a terminal message"

-- The checks behind the loop.
unfoldable pub conclude : Process → Reading → Option Error
conclude p r = elim p.context_error [
  | some e ↦ some e
  | none ↦ elim r.failure [
    | some e ↦ some e
    | none ↦ if not r.saw_done then some no_terminal else p.exit_error
  ]
]

-- Worker.Run: the updates that it reports, and its error.
unfoldable pub run : Process → List ProgressUpdate × Option Error
run p = elim p.pipe_error [
  | some e ↦ ([], some e)
  | none ↦ elim p.start_error [
    | some e ↦ ([], some e)
    | none ↦ elim p.send_error [
      | some e ↦ ([], some e)
      | none ↦ let r = read_messages p.frames nothing_read in (r.reports, conclude p r)
    ]
  ]
]

-- What a single call gives: the error of marshalling, of the process or of the decoding, or else
-- the message.
unfoldable pub single_answer : Error → Result RuntimeMessage → Result Task
single_answer no_task answer = do
  m ← answer
  if str_eq m.error ""
      then elim m.task [ none ↦ err no_task | some t ↦ ok t ]
      else err (message m.error)

abbrev pub resolve_answer : Result RuntimeMessage → Result Task
resolve_answer = single_answer (message "BitTorrent runtime returned no task")

abbrev pub reset_answer : Result RuntimeMessage → Result Task
reset_answer = single_answer (message "BitTorrent runtime returned no reset task")

-- The process: the message that ends a resolve or a reset.
unfoldable pub encode_result : (Error → String) → Result Task → RuntimeMessage
encode_result error_text (ok t) = record { task = some t; update = none; error = ""; done = true }
encode_result error_text (err e) = record {
  task = none;
  update = none;
  error = error_text e;
  done = true;
}

abbrev pub update_message : ProgressUpdate → RuntimeMessage
update_message update = record { task = none; update = some update; error = ""; done = false }

-- A run that was cancelled ends like one that succeeded.
abbrev pub end_text : (Error → String) → Option Error → String
end_text error_text none = ""
end_text error_text (some canceled) = ""
end_text error_text (some e) = error_text e

abbrev pub end_message : (Error → String) → Option Error → RuntimeMessage
end_message error_text outcome = record {
  task = none;
  update = none;
  error = end_text error_text outcome;
  done = true;
}

-- runWorker, from the updates and the error of the engine's worker.
unfoldable pub run_worker :
    (Error → String) → List ProgressUpdate → Option Error → List RuntimeMessage
run_worker error_text [] outcome = end_message error_text outcome ∷ []
run_worker error_text (update ∷ updates) outcome =
    update_message update ∷ run_worker error_text updates outcome
