-- ===== src/Bridge/Session/History.antt =====
-- A connection over a history of messages and ticks, while the rest of the program makes what it
-- will of the bridge between any two of them.
use godown.Base.{
  ◌≡◌, refl, sym, subst, ◌∙◌, Bool, false, ◌||◌, Option, List, [], ◌∷◌, String, arith,
}
use godown.Bridge.Message.{Value}
use godown.Bridge.State.{System, Session, Bridge, new_session}
use godown.Bridge.Session.{handle_message, push_snapshots}
use godown.Bridge.Session.Access.{
  presents_token, snapshots_in, IsNoGain, guest_message-IsNoGain, guest_message_bridge,
  guest_message_authenticated,
}

-- What the connection does next, with the bridge as it finds it.
pub data Event : Type 0 where
  message : Bridge → Option Value → Event
  tick : Bridge → Event

abbrev pub presented : List Event → Bool
presented [] = false
presented (message b raw ∷ events) = presents_token raw b || presented events
presented (tick b ∷ events) = presented events

module _ (system : System) where
  abbrev pub after_event : Event → Session → Session
  after_event (message b raw) s = (handle_message system raw b s).1
  after_event (tick b) s = push_snapshots system b s

  abbrev pub LeavesOne : Event → Session → Type 0
  LeavesOne (message b raw) s = (handle_message system raw b s).0 ≡ b
  LeavesOne (tick b) s = Unit {0}

  unfoldable pub history : List Event → Session → Session
  history [] s = s
  history (e ∷ events) s = history events (after_event e s)

  -- No message of the history changes the bridge.
  abbrev pub LeavesBridge : List Event → Session → Type 0
  LeavesBridge [] s = Unit {0}
  LeavesBridge (e ∷ events) s = LeavesOne e s × LeavesBridge events (after_event e s)

  tick-guest : (b : Bridge) (s : Session) → s.authenticated ≡ false → push_snapshots system b s ≡ s
  unfolding push_snapshots
  tick-guest b s guest = ground arith

  event-IsNoGain :
      (e : Event) (s : Session) → s.authenticated ≡ false → IsNoGain s (after_event e s)
  event-IsNoGain (message b raw) s guest = guest_message-IsNoGain system raw b s guest
  event-IsNoGain (tick b) s guest =
      subst (IsNoGain s) (sym (tick-guest b s guest)) (record { snapshots = refl; launched = refl })

  event_guest :
      (e : Event) (events : List Event) (s : Session)
      → s.authenticated ≡ false
      → presented (e ∷ events) ≡ false
      → ((after_event e s).authenticated ≡ false) × (presented events ≡ false)
  event_guest (message b raw) events s guest silent =
      ground (arith, guest_message_authenticated system raw b s guest)
  event_guest (tick b) events s guest silent = ground (arith, tick-guest b s guest)

  event-LeavesOne : (e : Event) (s : Session) → s.authenticated ≡ false → LeavesOne e s
  event-LeavesOne (message b raw) s guest = guest_message_bridge system raw b s guest
  event-LeavesOne (tick b) s guest = tt

  -- As long as no message presents the token, the session is no more than a guest.
  pub history_guest :
      (events : List Event) (s : Session)
      → s.authenticated ≡ false
      → presented events ≡ false
      → ((history events s).authenticated ≡ false)
        × (snapshots_in (history events s).sent ≡ snapshots_in s.sent)
        × ((history events s).launched ≡ s.launched)
        × LeavesBridge events s
  unfolding history
  history_guest [] s guest silent = (guest, refl, refl, tt)
  history_guest (e ∷ events) s guest silent =
      let still = event_guest e events s guest silent in
      let rest = history_guest events (after_event e s) still.0 still.1 in
      let step = event-IsNoGain e s guest in
      (rest.0, rest.1 ∙ step.snapshots, rest.2 ∙ step.launched, (event-LeavesOne e s guest, rest.3))

  -- A connection whose client has never sent a hello with the version of the protocol and the
  -- token that the settings then had is not let in, gets no snapshot of the tasks, starts no
  -- program, and leaves the bridge and its scheduler as they are by each of its messages,
  -- whatever they hold and whatever the rest of the program does between them.
  pub guests_get_nothing :
      (remote_addr : String) (events : List Event)
      → presented events ≡ false
      → let s = new_session remote_addr in
        ((history events s).authenticated ≡ false)
        × (snapshots_in (history events s).sent ≡ 0)
        × ((history events s).launched ≡ [])
        × LeavesBridge events s
  unfolding snapshots_in new_session
  guests_get_nothing remote_addr events silent =
      history_guest events (new_session remote_addr) refl silent
