-- ===== src/Tests/Bridging.antt =====
-- A client of the bridge on concrete messages.
use godown.Base.{◌≡◌, refl, ◌⊎◌, true, false, Option, none, some, List, [], ◌∷◌, String, is_some}
use godown.Base.Int.{ℤ, pos}
use godown.Core.Output.{Error, ok, message}
use godown.Core.Scheduler.{Scheduler, new_scheduler}
use godown.Bridge.Message.{
  Fields, Value, text, number, object, with_field, empty_object, value_at, string_value, int_value,
}
use godown.Bridge.Reply.{Reply, pair_result}
use godown.Bridge.State.{System, Settings, Session, Bridge, new_session}
use godown.Bridge.Session.{handle_message}
use godown.Bridge.Session.Access.{snapshots_in}
use godown.Bridge.Session.History.{Event, history, LeavesBridge, guests_get_nothing}
use godown.Bridge.Session.Cancels.{is_there, message_cancels_exactly}
use godown.Bridge.Session.Secrets.{tokens, token_told_when_approved}
use godown.Bridge.Session.Answers.{answered, answered_once}
use godown.Bridge.Server.{Meeting, new_bridge, accept, apply}
use godown.Bridge.Server.Serving.{
  begun, then_serves, applies, IsServing, IsQuiet, unhandled, then_handles, accepts, serves_guarded,
}
use godown.Bridge.Server.Changing.{Follows, IsDown, apply_outcome}
use godown.Tests.Data.{host, registry, machine}
use godown.Tests.Scheduling.{one_task}

abbrev system : System
system = record {
  host = host;
  exists = λ p. true;
  extension = λ p. ".bin";
  start_command = λ l. none;
  marshal = λ rows. some "rows";
  wait_gap = λ s. s;
  files_gap = λ s. s;
}

abbrev scheduler : Scheduler
scheduler = new_scheduler registry false (pos 2)

abbrev bridge : Bridge
bridge = record {
  scheduler = some scheduler;
  create_task = none;
  pair_approval = some (λ r. ok true);
  settings = record { enabled = true; token = "secret"; port = pos 14370 };
  listening = some (pos 14370);
  sessions = [];
  dropped = [];
}

abbrev hello : String → Option Value
hello token = some (
    object (
      with_field "type" (text "hello") (
        with_field "protocolVersion" (number (pos 1) 0)
          (with_field "token" (text token) empty_object))))

abbrev cancel_request : Option Value
cancel_request = some (
    object (
      with_field "type" (text "task_action") (
        with_field "requestId" (text "r1")
          (with_field "action" (text "cancel") (with_field "taskId" (text "t1") empty_object)))))

abbrev pairing : Option Value
pairing = some (
    object (
      with_field "type" (text "pair_request") (
        with_field "requestId" (text "p1")
          (with_field "protocolVersion" (number (pos 1) 0) empty_object))))

abbrev guest : Session
guest = new_session "127.0.0.1"

abbrev answer : Reply
answer = pair_result "p1" true "secret" "pairing approved"

abbrev attempts : List Event
attempts =
    Event.message bridge (hello "guess")
    ∷ Event.message bridge cancel_request
    ∷ Event.tick bridge
    ∷ []

guests_get_nothing_example :
    ((history system attempts guest).authenticated ≡ false)
    × (snapshots_in (history system attempts guest).sent ≡ 0)
    × ((history system attempts guest).launched ≡ [])
    × LeavesBridge system attempts guest
unfolding string_value int_value value_at
guests_get_nothing_example = guests_get_nothing system "127.0.0.1" attempts refl

abbrev member : Session
member = record guest { authenticated = true }

-- A bridge whose scheduler runs the task "a", and the request to cancel it.
abbrev busy : Bridge
busy = record bridge { scheduler = some one_task }

abbrev cancel_fields : Fields
cancel_fields = with_field "type" (text "task_action") (
    with_field "requestId" (text "r2")
      (with_field "action" (text "cancel") (with_field "taskId" (text "a") empty_object)))

message_cancels_exactly_example :
    is_there "a" (handle_message system (some (object cancel_fields)) busy member).0.scheduler
    ≡ false
unfolding machine string_value value_at
message_cancels_exactly_example =
    message_cancels_exactly system "a" (λ s h. h) (λ s h. h) cancel_fields
      (some (object cancel_fields)) busy member refl refl refl

token_told_when_approved_example :
    tokens (handle_message system pairing bridge guest).1.sent ≡ "secret" ∷ []
unfolding new_session string_value int_value value_at tokens
token_told_when_approved_example = token_told_when_approved system pairing bridge guest

answered_once_example :
    answered (handle_message system cancel_request bridge member).1.sent ≡ "r1" ∷ []
unfolding new_session string_value value_at answered
answered_once_example = answered_once system cancel_request bridge member refl

abbrev pub wanted : Settings
wanted = record { enabled = true; token = "secret"; port = pos 14370 }

-- A client comes behind the section of Stop.
abbrev pub met : Meeting
met = record { shutdown = none; before_stop = λ b. b; behind_stop = accept "127.0.0.1" }

pub met-IsQuiet : IsQuiet met
met-IsQuiet = record {
  before_stop = λ b. unhandled;
  behind_stop = λ b. then_handles unhandled (accepts "127.0.0.1" b);
}

abbrev pub opened : Bridge
opened = (apply (λ port. none) met wanted (new_bridge none)).0

pub opened-IsServing : IsServing opened
opened-IsServing =
    serves_guarded none
      (then_serves begun (applies (λ port. none) met wanted (new_bridge none) met-IsQuiet))

abbrev pub taken : ℤ → Option Error
taken port = some (message "address in use")

apply_outcome_example :
    let r = apply taken met wanted opened in
    ((r.1 ≡ none) × Follows wanted r.0) ⊎ ((is_some r.1 ≡ true) × IsDown opened r.0)
apply_outcome_example = apply_outcome taken met wanted opened met-IsQuiet opened-IsServing
