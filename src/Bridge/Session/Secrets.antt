-- ===== src/Bridge/Session/Secrets.antt =====
-- To whom the token is told.
use godown.Base.{
  ◌≡◌, refl, ◌∙◌, Bool, true, false, not, ◌&&◌, Option, none, some, List, [], ◌∷◌, ◌++◌, String,
  str_eq, arith, if◌then◌else◌, Option-cases, inl, inr, str_eq_apart,
}
use godown.Base.Int.{eq_ℤ}
use godown.Core.Output.{Error, Result, ok, err}
use godown.Core.Task.{TaskSnapshot}
use godown.Core.Scheduler.{Scheduler}
use godown.Bridge.Message.{
  Value, Fields, string_value, int_value, pair_request, PairRequest, CreateTaskRequest,
}
use godown.Bridge.Reply.{
  Reply, Row, pair_result, create_task_result, task_action_result, hello_ack, error, token_of,
  protocol_version,
}
use godown.Bridge.State.{System, Session, Bridge, Sent, reply, task_snapshot, send}
use godown.Bridge.Session.{
  decoded, task_snapshot_payload, pair_answer, handle_pair_request, handle_hello,
  handle_task_action, handle_create_task, take_action, create_with, subscribe, send_task_snapshot,
  action_answer, start, open_folder, open_file, serve, refuse_guest, handle_fields, handle_message,
}
use mathlib.Core.List.{append-nil}

-- The tokens in what was sent, oldest first.
unfoldable pub tokens : List Sent → List String
tokens [] = []
tokens (reply r ∷ l) =
    let rest = tokens l in if str_eq (token_of r) "" then rest else token_of r ∷ rest
tokens (task_snapshot rows ∷ l) = tokens l

tokens-append : (l m : List Sent) → tokens (l ++ m) ≡ tokens l ++ tokens m
unfolding tokens
tokens-append [] m = refl
tokens-append (reply r ∷ l) m = ground (arith, tokens-append l m)
tokens-append (task_snapshot rows ∷ l) m = tokens-append l m

tokens-reply :
    (l : List Sent) (r : Reply)
    → tokens (l ++ reply r ∷ [])
      ≡ (if str_eq (token_of r) "" then tokens l else tokens l ++ token_of r ∷ [])
unfolding tokens
tokens-reply l r = ground (arith, tokens-append l (reply r ∷ []), append-nil (tokens l))

tokens-snapshot :
    (l : List Sent) (rows : List Row) → tokens (l ++ task_snapshot rows ∷ []) ≡ tokens l
unfolding tokens
tokens-snapshot l rows = tokens-append l (task_snapshot rows ∷ []) ∙ append-nil (tokens l)

tokens-pair :
    (request_id token message : String) (approved : Bool) (s : Session)
    → tokens (send (pair_result request_id approved token message) s).sent ≡ (
        if not s.closed && not (str_eq token "")
        then tokens s.sent ++ token ∷ []
        else tokens s.sent)
unfolding send
tokens-pair request_id token message approved s =
    ground (arith, tokens-reply s.sent (pair_result request_id approved token message))

-- No other answer holds a token.
tokens-create_result :
    (request_id task_id message : String) (created : Bool) (s : Session)
    → tokens (send (create_task_result request_id created task_id message) s).sent ≡ tokens s.sent
unfolding send
tokens-create_result request_id task_id message created s =
    ground (arith, tokens-reply s.sent (create_task_result request_id created task_id message))

tokens-action_result :
    (request_id message : String) (done : Bool) (s : Session)
    → tokens (send (task_action_result request_id done message) s).sent ≡ tokens s.sent
unfolding send
tokens-action_result request_id message done s =
    ground (arith, tokens-reply s.sent (task_action_result request_id done message))

tokens-hello_ack : (s : Session) → tokens (send hello_ack s).sent ≡ tokens s.sent
unfolding send
tokens-hello_ack s = ground (arith, tokens-reply s.sent hello_ack)

tokens-error :
    (request_id code message : String) (s : Session)
    → tokens (send (error request_id code message) s).sent ≡ tokens s.sent
unfolding send
tokens-error request_id code message s =
    ground (arith, tokens-reply s.sent (error request_id code message))

ruleset telling =
    (arith, tokens-create_result, tokens-action_result, tokens-hello_ack, tokens-error)

module _ (system : System) where
  tokens-send_task_snapshot :
      (b : Bridge) (s : Session) → tokens (send_task_snapshot system b s).sent ≡ tokens s.sent
  unfolding send_task_snapshot
  tokens-send_task_snapshot b s =
      elim (Option-cases (system.marshal (task_snapshot_payload system b.scheduler))) [
        | inl e ↦ ground arith
        | inr (body, e) ↦
            ground (arith, tokens-snapshot s.sent (task_snapshot_payload system b.scheduler))
      ]

  tokens-subscribe : (b : Bridge) (s : Session) → tokens (subscribe system b s).sent ≡ tokens s.sent
  unfolding subscribe
  tokens-subscribe b s =
      tokens-send_task_snapshot b (record s { subscribed_tasks = true; last_snapshot = "" })

  tokens-open_folder :
      (request_id : String) (found : Option TaskSnapshot) (s : Session)
      → tokens (open_folder system request_id found s).sent ≡ tokens s.sent
  unfolding open_folder start action_answer
  tokens-open_folder request_id none s = grind telling
  tokens-open_folder request_id (some t) s = grind telling

  tokens-open_file :
      (request_id : String) (found : Option TaskSnapshot) (s : Session)
      → tokens (open_file system request_id found s).sent ≡ tokens s.sent
  unfolding open_file start action_answer
  tokens-open_file request_id none s = grind telling
  tokens-open_file request_id (some t) s = grind telling

  tokens-take_action :
      (action task_id request_id : String) (scheduler : Scheduler) (b : Bridge) (s : Session)
      → tokens (take_action system action task_id request_id scheduler b s).1.sent ≡ tokens s.sent
  unfolding take_action action_answer
  tokens-take_action action task_id request_id scheduler b s =
      grind (telling, tokens-open_folder, tokens-open_file)

  tokens-task_action :
      (request_id : String) (message : Fields) (b : Bridge) (s : Session)
      → tokens (handle_task_action system request_id message b s).1.sent ≡ tokens s.sent
  unfolding handle_task_action
  tokens-task_action request_id message b s = grind (telling, tokens-take_action)

  tokens-create_with :
      (request : CreateTaskRequest) (request_id : String) (b : Bridge) (s : Session)
      → tokens (create_with system request request_id b s).1.sent ≡ tokens s.sent
  unfolding create_with
  tokens-create_with request request_id b s = grind (telling, tokens-send_task_snapshot)

  tokens-create_task :
      (request_id : String) (message : Fields) (b : Bridge) (s : Session)
      → tokens (handle_create_task system request_id message b s).1.sent ≡ tokens s.sent
  unfolding handle_create_task
  tokens-create_task request_id message b s = grind (telling, tokens-create_with)

  tokens-serve :
      (kind request_id : String) (message : Fields) (b : Bridge) (s : Session)
      → tokens (serve system kind request_id message b s).1.sent ≡ tokens s.sent
  unfolding serve
  tokens-serve kind request_id message b s =
      grind (telling, tokens-subscribe, tokens-task_action, tokens-create_task)

  tokens-hello :
      (request_id : String) (message : Fields) (b : Bridge) (s : Session)
      → tokens (handle_hello system request_id message b s).sent ≡ tokens s.sent
  unfolding handle_hello
  tokens-hello request_id message b s = grind telling

  tokens-refuse_guest :
      (request_id : String) (s : Session)
      → tokens (refuse_guest system request_id s).sent ≡ tokens s.sent
  unfolding refuse_guest
  tokens-refuse_guest request_id s = grind telling

  abbrev pub approves : Result Bool → Bool
  approves (ok approved) = approved
  approves (err e) = false

  -- The user was asked and has approved.
  abbrev pub user_approves : Bridge → PairRequest → Bool
  user_approves b request = elim b.pair_approval [
    | none ↦ false
    | some approve ↦ approves (approve request)
  ]

  abbrev pub is_approved_pairing : Option Value → Bridge → Session → Bool
  is_approved_pairing raw b s = elim (decoded raw) [
    | none ↦ false
    | some message ↦
        let request_id = string_value "requestId" message in
        str_eq (string_value "type" message) "pair_request"
        && not (str_eq request_id "")
        && eq_ℤ (int_value "protocolVersion" message) protocol_version
        && user_approves b (pair_request request_id message s.remote_addr)
  ]

  tokens-pair_answer :
      (answer : Result Bool) (request_id token : String) (error_text : Error → String) (s : Session)
      → tokens (pair_answer answer request_id token error_text s).sent ≡ (
          if not s.closed && not (str_eq token "") && approves answer
          then tokens s.sent ++ token ∷ []
          else tokens s.sent)
  unfolding pair_answer
  tokens-pair_answer (err e) request_id token error_text s =
      ground (arith, tokens-pair request_id "" (error_text e) false s)
  tokens-pair_answer (ok true) request_id token error_text s =
      ground (arith, tokens-pair request_id token "pairing approved" true s)
  tokens-pair_answer (ok false) request_id token error_text s =
      ground (arith, tokens-pair request_id "" "pair request rejected" false s)

  tokens-pair_request :
      (request_id : String) (message : Fields) (b : Bridge) (s : Session)
      → tokens (handle_pair_request system request_id message b s).sent ≡ (
          if not s.closed
            && not (str_eq b.settings.token "")
            && not (str_eq request_id "")
            && eq_ℤ (int_value "protocolVersion" message) protocol_version
            && user_approves b (pair_request request_id message s.remote_addr)
          then tokens s.sent ++ b.settings.token ∷ []
          else tokens s.sent)
  unfolding handle_pair_request
  tokens-pair_request request_id message b s = grind (arith, tokens-pair, tokens-pair_answer)

  -- The token is told in answer to a request for pairing with an id and the version of the
  -- protocol that the user has approved, once, on a connection that is open, and never else:
  -- whatever else a client sends, known or not, no more tokens are told than before.
  pub token_told_when_approved :
      (raw : Option Value) (b : Bridge) (s : Session)
      → tokens (handle_message system raw b s).1.sent ≡ (
          if not s.closed && not (str_eq b.settings.token "") && is_approved_pairing raw b s
          then tokens s.sent ++ b.settings.token ∷ []
          else tokens s.sent)
  unfolding handle_message handle_fields
  token_told_when_approved raw b s = elim (Option-cases (decoded raw)) [
    | inl e ↦ ground (arith, tokens-error "" "bad_request" "invalid JSON message" s)
    | inr (message, e) ↦
        let kind = string_value "type" message in
        let request_id = string_value "requestId" message in
        ground (
          arith,
          str_eq_apart kind "pair_request" "hello" refl,
          tokens-pair_request request_id message b s,
          tokens-hello request_id message b s,
          tokens-serve kind request_id message b s,
          tokens-refuse_guest request_id s,
        )
  ]
