-- ===== src/Bridge/Session.antt =====
-- internal/browserbridge/bridge.go: what a connection does with each message. A message is
-- handled in one step: of what other goroutines do to the scheduler meanwhile, there are the gaps
-- of Redownload.
pub mod Access
pub mod History
pub mod Secrets
pub mod Answers
pub mod Cancels
pub mod Snapshots
pub mod Frame
use godown.Base.{
  Bool, true, false, not, ◌&&◌, Option, none, some, List, [], ◌∷◌, ◌++◌, String, str_eq, is_some,
  if◌then◌else◌,
}
use godown.Base.Int.{eq_ℤ}
use godown.Core.Task.{Task, TaskSnapshot}
use godown.Core.Output.{Error, Result, ok, err}
use godown.Core.Scheduler.{Scheduler, snapshot, sort_newest}
use godown.Core.Scheduler.Control.{add, toggle_pause, remove}
use godown.Core.Scheduler.Edits.{redownload}
use godown.Bridge.Message.{
  Value, null, object, Fields, empty_object, value_at, object_of, string_value, int_value,
  create_request, CreateTaskRequest, PairRequest, pair_request,
}
use godown.Bridge.Reply.{
  pair_result, create_task_result, task_action_result, hello_ack, error, protocol_version, Row,
  rows_of,
}
use godown.Bridge.State.{
  Launch, explorer, opener, System, Session, Bridge, Sent, task_snapshot, deliver, send, close,
}

-- A message as json.Unmarshal reads it into a map: `none` where the text is not JSON or is
-- neither an object nor null, and null is the nil map.
abbrev pub decoded : Option Value → Option Fields
decoded none = none
decoded (some null) = some empty_object
decoded (some (object fields)) = some fields
decoded (some _) = none

unfoldable pub find_task : String → List TaskSnapshot → Option TaskSnapshot
find_task id [] = none
find_task id (t ∷ ts) = if str_eq t.id id then some t else find_task id ts

abbrev pub succeeds : Option Error → Bool
succeeds e = not (is_some e)

-- Approvals are asked of the user by the function that is set.
unfoldable pub pair_answer : Result Bool → String → String → (Error → String) → Session → Session
pair_answer (err e) request_id token error_text s =
    send (pair_result request_id false "" (error_text e)) s
pair_answer (ok false) request_id token error_text s =
    send (pair_result request_id false "" "pair request rejected") s
pair_answer (ok true) request_id token error_text s =
    send (pair_result request_id true token "pairing approved") s

module _ (system : System) where
  unfoldable pub handle_pair_request : String → Fields → Bridge → Session → Session
  handle_pair_request request_id message b s =
      if str_eq request_id ""
      then send (pair_result "" false "" "missing requestId") s
      else if not (eq_ℤ (int_value "protocolVersion" message) protocol_version)
      then send (pair_result request_id false "" "protocol version mismatch") s
      else elim b.pair_approval [
        | none ↦ send (pair_result request_id false "" "pair approval is unavailable") s
        | some approve ↦
            pair_answer (approve (pair_request request_id message s.remote_addr)) request_id
              b.settings.token system.host.error_text s
      ]

  abbrev pub snapshots : Option Scheduler → List TaskSnapshot
  snapshots none = []
  snapshots (some scheduler) = snapshot system.host scheduler

  -- The scheduler's snapshot is sorted once more.
  unfoldable pub task_snapshot_payload : Option Scheduler → List Row
  task_snapshot_payload scheduler =
      rows_of system.host.join system.exists system.extension (sort_newest (snapshots scheduler))

  -- A snapshot with the text of the last one is not sent.
  unfoldable pub send_task_snapshot : Bridge → Session → Session
  send_task_snapshot b s =
      let rows = task_snapshot_payload b.scheduler in
      elim (system.marshal rows) [
        | none ↦ s
        | some body ↦
            if str_eq body s.last_snapshot
            then s
            else deliver (task_snapshot rows) (record s { last_snapshot = body })
      ]

  -- From the creation of the task on.
  abbrev pub add_created : Scheduler → String → Result Task → Bridge → Session → Bridge × Session
  add_created scheduler request_id (err e) b s =
      (b, send (create_task_result request_id false "" (system.host.error_text e)) s)
  add_created scheduler request_id (ok t) b s =
      let b' = record b { scheduler = some (add system.host t scheduler) } in
      (b', send_task_snapshot b' (send (create_task_result request_id true t.id "") s))

  abbrev pub refuse_task : String → String → Bridge → Session → Bridge × Session
  refuse_task request_id message b s = (b, send (create_task_result request_id false "" message) s)

  unfoldable pub create_with : CreateTaskRequest → String → Bridge → Session → Bridge × Session
  create_with request request_id b s =
      if str_eq request.url "" && not (str_eq request.source "resource_merge")
      then refuse_task request_id "missing download URL" b s
      else elim b.create_task [
        | none ↦ refuse_task request_id "task creation is unavailable" b s
        | some create ↦ elim b.scheduler [
          | none ↦ refuse_task request_id "task creation is unavailable" b s
          | some scheduler ↦ add_created scheduler request_id (create request) b s
        ]
      ]

  unfoldable pub handle_create_task : String → Fields → Bridge → Session → Bridge × Session
  handle_create_task request_id message b s =
      if str_eq request_id ""
      then refuse_task "" "missing requestId" b s
      else elim (object_of (value_at "payload" message)) [
        | none ↦ refuse_task request_id "invalid task payload" b s
        | some payload ↦ create_with (create_request message payload) request_id b s
      ]

  abbrev pub error_message : Option Error → String
  error_message none = ""
  error_message (some e) = system.host.error_text e

  unfoldable pub action_answer : String → Option Error → Session → Session
  action_answer request_id e s =
      send (task_action_result request_id (succeeds e) (error_message e)) s

  -- An operation of the scheduler and the answer to it.
  abbrev pub acted : String → Scheduler × Option Error → Bridge → Session → Bridge × Session
  acted request_id (scheduler, e) b s =
      (record b { scheduler = some scheduler }, action_answer request_id e s)

  abbrev pub refuse_action : String → String → Session → Session
  refuse_action request_id message s = send (task_action_result request_id false message) s

  unfoldable pub start : String → Launch → Session → Session
  start request_id launch s =
      action_answer request_id (system.start_command launch)
        (record s { launched = s.launched ++ launch ∷ [] })

  unfoldable pub open_folder : String → Option TaskSnapshot → Session → Session
  open_folder request_id none s = refuse_action request_id "task not found" s
  open_folder request_id (some t) s = start request_id (explorer t.path) s

  unfoldable pub open_file : String → Option TaskSnapshot → Session → Session
  open_file request_id none s = refuse_action request_id "task not found" s
  open_file request_id (some t) s =
      let output_file = system.host.join t.path t.title in
      if system.exists output_file
      then start request_id (opener output_file) s
      else refuse_action request_id "file is not available" s

  unfoldable pub take_action :
      String → String → String → Scheduler → Bridge → Session → Bridge × Session
  take_action action task_id request_id scheduler b s =
      if str_eq action "toggle_pause"
      then acted request_id (toggle_pause system.host task_id scheduler) b s
      else if str_eq action "redownload"
      then acted request_id
          (redownload system.host task_id system.wait_gap system.files_gap scheduler) b s
      else if str_eq action "cancel"
      then acted request_id (remove system.host task_id scheduler) b s
      else if str_eq action "open_folder"
      then (b, open_folder request_id (find_task task_id (snapshot system.host scheduler)) s)
      else if str_eq action "open_file"
      then (b, open_file request_id (find_task task_id (snapshot system.host scheduler)) s)
      else (b, refuse_action request_id "unsupported task action" s)

  unfoldable pub handle_task_action : String → Fields → Bridge → Session → Bridge × Session
  handle_task_action request_id message b s =
      let task_id = string_value "taskId" message in
      if str_eq request_id ""
      then (b, refuse_action "" "missing requestId" s)
      else if str_eq task_id ""
      then (b, refuse_action request_id "missing taskId" s)
      else elim b.scheduler [
        | none ↦ (b, refuse_action request_id "scheduler is unavailable" s)
        | some scheduler ↦
            take_action (string_value "action" message) task_id request_id scheduler b s
      ]

  unfoldable pub handle_hello : String → Fields → Bridge → Session → Session
  handle_hello request_id message b s =
      if not (eq_ℤ (int_value "protocolVersion" message) protocol_version)
      then close (send (error request_id "protocol_mismatch" "protocol version mismatch") s)
      else if not (str_eq (string_value "token" message) b.settings.token)
      then close (send (error request_id "unauthorized" "invalid pair token") s)
      else send hello_ack (record s { authenticated = true })

  unfoldable pub subscribe : Bridge → Session → Session
  subscribe b s = send_task_snapshot b (record s { subscribed_tasks = true; last_snapshot = "" })

  -- What requireAuthenticated does where it returns false.
  unfoldable pub refuse_guest : String → Session → Session
  refuse_guest request_id s =
      close (send (error request_id "unauthorized" "authenticate with hello first") s)

  -- The cases of the switch for which requireAuthenticated has returned true.
  unfoldable pub serve : String → String → Fields → Bridge → Session → Bridge × Session
  serve kind request_id message b s =
      if str_eq kind "subscribe_tasks"
      then (b, subscribe b s)
      else if str_eq kind "task_action"
      then handle_task_action request_id message b s
      else if str_eq kind "create_task"
      then handle_create_task request_id message b s
      else (b, send (error request_id "bad_request" "unsupported message type") s)

  unfoldable pub handle_fields : String → String → Fields → Bridge → Session → Bridge × Session
  handle_fields kind request_id message b s =
      if str_eq kind "pair_request"
      then (b, handle_pair_request request_id message b s)
      else if str_eq kind "hello"
      then (b, handle_hello request_id message b s)
      else if s.authenticated
      then serve kind request_id message b s
      else (b, refuse_guest request_id s)

  unfoldable pub handle_message : Option Value → Bridge → Session → Bridge × Session
  handle_message raw b s = elim (decoded raw) [
    | none ↦ (b, send (error "" "bad_request" "invalid JSON message") s)
    | some message ↦
        handle_fields (string_value "type" message) (string_value "requestId" message) message b s
  ]

  -- A tick of pushSnapshots.
  unfoldable pub push_snapshots : Bridge → Session → Session
  push_snapshots b s = if s.authenticated && s.subscribed_tasks then send_task_snapshot b s else s
