-- ===== src/Bridge/Session/Answers.antt =====
-- That each message is answered.
use godown.Base.{
  ◌≡◌, refl, ◌∙◌, Bool, true, false, ◌&&◌, Option, none, some, List, [], ◌∷◌, ◌++◌, String, str_eq,
  arith, if◌then◌else◌, Option-cases, inl, inr, str_eq_apart, eq_iff,
}
use godown.Core.Task.{TaskSnapshot}
use godown.Core.Scheduler.{Scheduler}
use godown.Core.Output.{Error, Result, ok, err}
use godown.Bridge.Message.{Value, Fields, string_value, CreateTaskRequest}
use godown.Bridge.Reply.{Reply, Row, request_id_of, error}
use godown.Bridge.State.{System, Session, Bridge, Sent, reply, task_snapshot, send}
use godown.Bridge.Session.{
  decoded, task_snapshot_payload, pair_answer, handle_pair_request, handle_hello,
  handle_task_action, handle_create_task, take_action, create_with, subscribe, send_task_snapshot,
  action_answer, start, open_folder, open_file, serve, refuse_guest, handle_fields, handle_message,
}
use godown.Bridge.Session.Access.{has_token}
use mathlib.Core.List.{append-nil}

-- The ids of the requests that were answered, oldest first.
unfoldable pub answered : List Sent → List String
answered [] = []
answered (reply r ∷ l) = request_id_of r ∷ answered l
answered (task_snapshot rows ∷ l) = answered l

answered-append : (l m : List Sent) → answered (l ++ m) ≡ answered l ++ answered m
unfolding answered
answered-append [] m = refl
answered-append (reply r ∷ l) m = ground (arith, answered-append l m)
answered-append (task_snapshot rows ∷ l) m = answered-append l m

answered-snapshot :
    (l : List Sent) (rows : List Row) → answered (l ++ task_snapshot rows ∷ []) ≡ answered l
unfolding answered
answered-snapshot l rows = answered-append l (task_snapshot rows ∷ []) ∙ append-nil (answered l)

answered-send :
    (r : Reply) (s : Session)
    → answered (send r s).sent
      ≡ (if s.closed then answered s.sent else answered s.sent ++ request_id_of r ∷ [])
unfolding send answered
answered-send r s = ground (arith, answered-append s.sent (reply r ∷ []))

-- On a connection that is open.
abbrev Answers : String → Session → Session → Type 0
Answers request_id s t = answered t.sent ≡ answered s.sent ++ request_id ∷ []

send-Answers : (r : Reply) (s : Session) → s.closed ≡ false → Answers (request_id_of r) s (send r s)
send-Answers r s live = ground (arith, answered-send r s)

module _ (system : System) where
  answered-send_task_snapshot :
      (b : Bridge) (s : Session) → answered (send_task_snapshot system b s).sent ≡ answered s.sent
  unfolding send_task_snapshot
  answered-send_task_snapshot b s =
      elim (Option-cases (system.marshal (task_snapshot_payload system b.scheduler))) [
        | inl e ↦ ground arith
        | inr (body, e) ↦
            ground (arith, answered-snapshot s.sent (task_snapshot_payload system b.scheduler))
      ]

  answered-subscribe :
      (b : Bridge) (s : Session) → answered (subscribe system b s).sent ≡ answered s.sent
  unfolding subscribe
  answered-subscribe b s =
      answered-send_task_snapshot b (record s { subscribed_tasks = true; last_snapshot = "" })

  pair_answer-Answers :
      (answer : Result Bool) (request_id token : String) (error_text : Error → String) (s : Session)
      → s.closed ≡ false
      → Answers request_id s (pair_answer answer request_id token error_text s)
  unfolding pair_answer
  pair_answer-Answers (err e) request_id token error_text s live = send-Answers _ s live
  pair_answer-Answers (ok true) request_id token error_text s live = send-Answers _ s live
  pair_answer-Answers (ok false) request_id token error_text s live = send-Answers _ s live

  pair_request-Answers :
      (request_id : String) (message : Fields) (b : Bridge) (s : Session)
      → s.closed ≡ false
      → Answers request_id s (handle_pair_request system request_id message b s)
  unfolding handle_pair_request
  pair_request-Answers request_id message b s live =
      grind (arith, answered-send, pair_answer-Answers, eq_iff request_id "")

  action_answer-Answers :
      (request_id : String) (e : Option Error) (s : Session)
      → s.closed ≡ false
      → Answers request_id s (action_answer system request_id e s)
  unfolding action_answer
  action_answer-Answers request_id e s live = send-Answers _ s live

  open_folder-Answers :
      (request_id : String) (found : Option TaskSnapshot) (s : Session)
      → s.closed ≡ false
      → Answers request_id s (open_folder system request_id found s)
  unfolding open_folder start
  open_folder-Answers request_id none s live = send-Answers _ s live
  open_folder-Answers request_id (some t) s live = grind (arith, action_answer-Answers)

  open_file-Answers :
      (request_id : String) (found : Option TaskSnapshot) (s : Session)
      → s.closed ≡ false
      → Answers request_id s (open_file system request_id found s)
  unfolding open_file start
  open_file-Answers request_id none s live = send-Answers _ s live
  open_file-Answers request_id (some t) s live = grind (arith, answered-send, action_answer-Answers)

  take_action-Answers :
      (action task_id request_id : String) (scheduler : Scheduler) (b : Bridge) (s : Session)
      → s.closed ≡ false
      → Answers request_id s (take_action system action task_id request_id scheduler b s).1
  unfolding take_action
  take_action-Answers action task_id request_id scheduler b s live =
      grind (arith, answered-send, action_answer-Answers, open_folder-Answers, open_file-Answers)

  task_action-Answers :
      (request_id : String) (message : Fields) (b : Bridge) (s : Session)
      → s.closed ≡ false
      → Answers request_id s (handle_task_action system request_id message b s).1
  unfolding handle_task_action
  task_action-Answers request_id message b s live =
      grind (arith, answered-send, take_action-Answers, eq_iff request_id "")

  create_with-Answers :
      (request : CreateTaskRequest) (request_id : String) (b : Bridge) (s : Session)
      → s.closed ≡ false
      → Answers request_id s (create_with system request request_id b s).1
  unfolding create_with
  create_with-Answers request request_id b s live =
      grind (arith, answered-send, answered-send_task_snapshot)

  create_task-Answers :
      (request_id : String) (message : Fields) (b : Bridge) (s : Session)
      → s.closed ≡ false
      → Answers request_id s (handle_create_task system request_id message b s).1
  unfolding handle_create_task
  create_task-Answers request_id message b s live =
      grind (arith, answered-send, create_with-Answers, eq_iff request_id "")

  refuse_guest-Answers :
      (request_id : String) (s : Session)
      → s.closed ≡ false
      → Answers request_id s (refuse_guest system request_id s)
  unfolding refuse_guest
  refuse_guest-Answers request_id s live =
      ground
        (arith, answered-send (error request_id "unauthorized" "authenticate with hello first") s)

  answered-hello :
      (request_id : String) (message : Fields) (b : Bridge) (s : Session)
      → s.closed ≡ false
      → answered (handle_hello system request_id message b s).sent
        ≡ answered s.sent ++ (if has_token message b then "" else request_id) ∷ []
  unfolding handle_hello
  answered-hello request_id message b s live = grind (arith, answered-send)

  -- The ids that a message is answered under: a hello that is accepted is acknowledged without
  -- its id, and a subscription is answered by the snapshot alone.
  abbrev pub expected : Option Fields → Bridge → Session → List String
  expected none b s = "" ∷ []
  expected (some message) b s =
      let kind = string_value "type" message in
      let request_id = string_value "requestId" message in
      if str_eq kind "hello"
      then (if has_token message b then "" else request_id) ∷ []
      else if str_eq kind "subscribe_tasks" && s.authenticated
      then []
      else request_id ∷ []

  -- On an open connection every message is answered once, under the id of its request: a text
  -- that is no message under "", a hello that is accepted by the acknowledgement, which has no id,
  -- and a subscription of a client that is let in by nothing but a snapshot.
  pub answered_once :
      (raw : Option Value) (b : Bridge) (s : Session)
      → s.closed ≡ false
      → answered (handle_message system raw b s).1.sent
        ≡ answered s.sent ++ expected (decoded raw) b s
  unfolding handle_message handle_fields serve
  answered_once raw b s live = elim (Option-cases (decoded raw)) [
    | inl e ↦ ground (arith, answered-send (error "" "bad_request" "invalid JSON message") s)
    | inr (message, e) ↦
        let kind = string_value "type" message in
        let request_id = string_value "requestId" message in
        ground (
          arith,
          append-nil (answered s.sent),
          str_eq_apart kind "pair_request" "hello" refl,
          str_eq_apart kind "pair_request" "subscribe_tasks" refl,
          str_eq_apart kind "hello" "subscribe_tasks" refl,
          pair_request-Answers request_id message b s live,
          answered-hello request_id message b s live,
          answered-subscribe b s,
          task_action-Answers request_id message b s live,
          create_task-Answers request_id message b s live,
          refuse_guest-Answers request_id s live,
          answered-send (error request_id "bad_request" "unsupported message type") s,
        )
  ]
