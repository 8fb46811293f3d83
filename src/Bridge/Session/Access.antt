-- ===== src/Bridge/Session/Access.antt =====
-- Who may do what: a connection that has not shown the token, over any history of messages.
use godown.Base.{
  ℕ, suc, ◌≡◌, refl, ap, Bool, true, false, ◌&&◌, ◌||◌, Option, none, some, List, [], ◌∷◌, ◌++◌,
  String, str_eq, arith, Option-cases, inl, inr, str_eq_apart,
}
use godown.Base.Int.{eq_ℤ}
use godown.Core.Output.{Error, Result, ok, err}
use godown.Bridge.Message.{Value, Fields, string_value, int_value}
use godown.Bridge.Reply.{Reply, error, protocol_version}
use godown.Bridge.State.{System, Session, Bridge, Sent, reply, task_snapshot, send}
use godown.Bridge.Session.{
  decoded, pair_answer, handle_pair_request, handle_hello, refuse_guest, handle_fields,
  handle_message,
}

abbrev pub has_token : Fields → Bridge → Bool
has_token message b =
    eq_ℤ (int_value "protocolVersion" message) protocol_version
    && str_eq (string_value "token" message) b.settings.token

abbrev pub is_greeting : Fields → Bridge → Bool
is_greeting message b = str_eq (string_value "type" message) "hello" && has_token message b

-- A hello with the version of the protocol and the token of the settings.
abbrev pub presents_token : Option Value → Bridge → Bool
presents_token raw b = elim (decoded raw) [ none ↦ false | some message ↦ is_greeting message b ]

unfoldable pub snapshots_in : List Sent → ℕ
snapshots_in [] = 0
snapshots_in (reply r ∷ l) = snapshots_in l
snapshots_in (task_snapshot rows ∷ l) = suc (snapshots_in l)

snapshots_in-reply : (l : List Sent) (r : Reply) → snapshots_in (l ++ reply r ∷ []) ≡ snapshots_in l
unfolding snapshots_in
snapshots_in-reply [] r = refl
snapshots_in-reply (reply q ∷ l) r = snapshots_in-reply l r
snapshots_in-reply (task_snapshot rows ∷ l) r = ap suc (snapshots_in-reply l r)

snapshots_in-send : (r : Reply) (s : Session) → snapshots_in (send r s).sent ≡ snapshots_in s.sent
unfolding send
snapshots_in-send r s = ground (arith, snapshots_in-reply s.sent r)

launched-send : (r : Reply) (s : Session) → (send r s).launched ≡ s.launched
unfolding send
launched-send r s = ground arith

authenticated-send : (r : Reply) (s : Session) → (send r s).authenticated ≡ s.authenticated
unfolding send
authenticated-send r s = ground arith

-- The step from s to t gives the client nothing but answers.
pub record IsNoGain (s t : Session) : Type 0 where
  pub snapshots : snapshots_in t.sent ≡ snapshots_in s.sent
  pub launched : t.launched ≡ s.launched

ruleset sending = (arith, snapshots_in-send, launched-send, authenticated-send)

pair_answer-IsNoGain :
    (approved : Result Bool) (request_id token : String) (error_text : Error → String) (s : Session)
    → IsNoGain s (pair_answer approved request_id token error_text s)
unfolding pair_answer
pair_answer-IsNoGain (err e) request_id token error_text s = record {
  snapshots = grind sending;
  launched = grind sending;
}
pair_answer-IsNoGain (ok true) request_id token error_text s = record {
  snapshots = grind sending;
  launched = grind sending;
}
pair_answer-IsNoGain (ok false) request_id token error_text s = record {
  snapshots = grind sending;
  launched = grind sending;
}

authenticated-pair_answer :
    (approved : Result Bool) (request_id token : String) (error_text : Error → String) (s : Session)
    → (pair_answer approved request_id token error_text s).authenticated ≡ s.authenticated
unfolding pair_answer
authenticated-pair_answer (err e) request_id token error_text s = grind sending
authenticated-pair_answer (ok true) request_id token error_text s = grind sending
authenticated-pair_answer (ok false) request_id token error_text s = grind sending

module _ (system : System) where
  pair_request-IsNoGain :
      (request_id : String) (message : Fields) (b : Bridge) (s : Session)
      → IsNoGain s (handle_pair_request system request_id message b s)
  unfolding handle_pair_request
  pair_request-IsNoGain request_id message b s = record {
    snapshots = grind (sending, pair_answer-IsNoGain);
    launched = grind (sending, pair_answer-IsNoGain);
  }

  authenticated-pair_request :
      (request_id : String) (message : Fields) (b : Bridge) (s : Session)
      → (handle_pair_request system request_id message b s).authenticated ≡ s.authenticated
  unfolding handle_pair_request
  authenticated-pair_request request_id message b s = grind (sending, authenticated-pair_answer)

  hello-IsNoGain :
      (request_id : String) (message : Fields) (b : Bridge) (s : Session)
      → IsNoGain s (handle_hello system request_id message b s)
  unfolding handle_hello
  hello-IsNoGain request_id message b s = record {
    snapshots = grind sending;
    launched = grind sending;
  }

  authenticated-hello :
      (request_id : String) (message : Fields) (b : Bridge) (s : Session)
      → (handle_hello system request_id message b s).authenticated
        ≡ (has_token message b || s.authenticated)
  unfolding handle_hello
  authenticated-hello request_id message b s = grind sending

  refuse_guest-IsNoGain :
      (request_id : String) (s : Session) → IsNoGain s (refuse_guest system request_id s)
  unfolding refuse_guest
  refuse_guest-IsNoGain request_id s = record {
    snapshots = grind sending;
    launched = grind sending;
  }

  -- A guest's message leaves the bridge and gets answers only.
  guest_fields-IsNoGain :
      (kind request_id : String) (message : Fields) (b : Bridge) (s : Session)
      → s.authenticated ≡ false
      → IsNoGain s (handle_fields system kind request_id message b s).1
  unfolding handle_fields
  guest_fields-IsNoGain kind request_id message b s guest = ground (
    arith,
    pair_request-IsNoGain request_id message b s,
    hello-IsNoGain request_id message b s,
    refuse_guest-IsNoGain request_id s,
  )

  guest_fields_bridge :
      (kind request_id : String) (message : Fields) (b : Bridge) (s : Session)
      → s.authenticated ≡ false
      → (handle_fields system kind request_id message b s).0 ≡ b
  unfolding handle_fields
  guest_fields_bridge kind request_id message b s guest = ground arith

  guest_fields_authenticated :
      (kind request_id : String) (message : Fields) (b : Bridge) (s : Session)
      → s.authenticated ≡ false
      → (handle_fields system kind request_id message b s).1.authenticated
        ≡ (str_eq kind "hello" && has_token message b)
  unfolding handle_fields refuse_guest
  guest_fields_authenticated kind request_id message b s guest = ground (
    arith,
    str_eq_apart kind "pair_request" "hello" refl,
    authenticated-pair_request request_id message b s,
    authenticated-hello request_id message b s,
    authenticated-send (error request_id "unauthorized" "authenticate with hello first") s,
  )

  pub guest_message-IsNoGain :
      (raw : Option Value) (b : Bridge) (s : Session)
      → s.authenticated ≡ false
      → IsNoGain s (handle_message system raw b s).1
  unfolding handle_message
  guest_message-IsNoGain raw b s guest = elim (Option-cases (decoded raw)) [
    | inl e ↦ record { snapshots = grind sending; launched = grind sending }
    | inr (message, e) ↦ ground (
      arith,
      guest_fields-IsNoGain (string_value "type" message) (string_value "requestId" message) message
          b s,
    )
  ]

  pub guest_message_bridge :
      (raw : Option Value) (b : Bridge) (s : Session)
      → s.authenticated ≡ false
      → (handle_message system raw b s).0 ≡ b
  unfolding handle_message
  guest_message_bridge raw b s guest = elim (Option-cases (decoded raw)) [
    | inl e ↦ ground arith
    | inr (message, e) ↦ ground (
      arith,
      guest_fields_bridge (string_value "type" message) (string_value "requestId" message) message b
          s,
    )
  ]

  -- A connection that is not let in is let in by a message exactly if that is a hello with the
  -- version of the protocol and the token of the settings.
  pub guest_message_authenticated :
      (raw : Option Value) (b : Bridge) (s : Session)
      → s.authenticated ≡ false
      → (handle_message system raw b s).1.authenticated ≡ presents_token raw b
  unfolding handle_message
  guest_message_authenticated raw b s guest = elim (Option-cases (decoded raw)) [
    | inl e ↦ ground (arith, authenticated-send (error "" "bad_request" "invalid JSON message") s)
    | inr (message, e) ↦ ground (
      arith,
      guest_fields_authenticated (string_value "type" message) (string_value "requestId" message)
          message b s,
    )
  ]
