-- ===== src/Bridge/Server/Serving.antt =====
-- What is true of the bridge whenever its lock is free.
use godown.Base.{
  ◌≡◌, refl, sym, ◌∙◌, ap, subst, ◌⊎◌, Bool, true, false, ◌&&◌, Option, none, some, List, [], ◌∷◌,
  ◌++◌, String, Dict, lookup, str_eq, is_some, arith, Option-cases, Bool-cases, inl, inr,
}
use godown.Base.Int.{ℤ}
use godown.Core.Task.{Task}
use godown.Core.Output.{Error, Result}
use godown.Bridge.Message.{Value, CreateTaskRequest, PairRequest}
use godown.Bridge.Session.Frame.{message-KeepsRest}
use godown.Core.Scheduler.{Scheduler}
use godown.Bridge.State.{System, Settings, Session, Bridge}
use godown.Bridge.Server.{
  set_create_task_func, set_pair_approval_func, leave, receive, tick, new_bridge,
  normalized_settings, same_settings, accept, close_all, stop, publish_server, start_server,
  apply_stopped, Meeting, between, apply,
}

abbrev pub AllClosed : List Session → Type 0
AllClosed [] = Unit {0}
AllClosed (s ∷ l) = (s.closed ≡ true) × AllClosed l

AllClosed-append : (l m : List Session) → AllClosed l → AllClosed m → AllClosed (l ++ m)
AllClosed-append [] m c d = d
AllClosed-append (s ∷ l) m c d = (c.0, AllClosed-append l m c.1 d)

close_all-AllClosed : (l : Dict Session) → AllClosed (close_all l)
unfolding close_all
close_all-AllClosed [] = tt
close_all-AllClosed ((k, s) ∷ l) = (refl, close_all-AllClosed l)

-- A server runs with settings that enable it, with a token and a port that is no negative number,
-- on the port of the settings; the connections that were taken from the map are closed.
pub record IsServing (b : Bridge) : Type 0 where
  pub enabled : is_some b.listening ≡ true → b.settings.enabled ≡ true
  pub guarded : is_some b.listening ≡ true → str_eq b.settings.token "" ≡ false
  pub ported : is_some b.listening ≡ true → b.listening ≡ some b.settings.port
  pub shut : AllClosed b.dropped

new_bridge-IsServing : (scheduler : Option Scheduler) → IsServing (new_bridge scheduler)
unfolding new_bridge
new_bridge-IsServing scheduler = record {
  enabled = λ h. ground arith;
  guarded = λ h. ground arith;
  ported = λ h. ground arith;
  shut = tt;
}

-- A step that changes no part of the server.
same_server :
    (b c : Bridge)
    → c.settings ≡ b.settings
    → c.listening ≡ b.listening
    → c.dropped ≡ b.dropped
    → IsServing b
    → IsServing c
same_server b c same_settings same_port same_dropped v = record {
  enabled = ground (arith, v.enabled);
  guarded = ground (arith, v.guarded);
  ported = ground (arith, v.ported);
  shut = subst AllClosed (sym same_dropped) v.shut;
}

receive_server :
    (system : System) (addr : String) (raw : Option Value) (b : Bridge)
    → ((receive system addr raw b).settings ≡ b.settings)
      × ((receive system addr raw b).listening ≡ b.listening)
      × ((receive system addr raw b).dropped ≡ b.dropped)
unfolding receive
receive_server system addr raw b = elim (Option-cases (lookup addr b.sessions)) [
  | inl e ↦ ground arith
  | inr (s, e) ↦
      let same = message-KeepsRest system raw b s in
      ground (
        arith,
        ap (λ (c : Bridge). c.settings) same,
        ap (λ (c : Bridge). c.listening) same,
        ap (λ (c : Bridge). c.dropped) same,
      )
]

-- The steps of its handlers, and what the rest of the program changes beside the server.
pub data Handles : Bridge → Bridge → Type 0 where
  accepts : (addr : String) (b : Bridge) → Handles b (accept addr b)
  sets_create_task :
      (create : Option (CreateTaskRequest → Result Task)) (b : Bridge)
      → Handles b (set_create_task_func create b)
  sets_pair_approval :
      (approval : Option (PairRequest → Result Bool)) (b : Bridge)
      → Handles b (set_pair_approval_func approval b)
  leaves : (addr : String) (b : Bridge) → Handles b (leave addr b)
  receives :
      (system : System) (addr : String) (raw : Option Value) (b : Bridge)
      → Handles b (receive system addr raw b)
  ticks : (system : System) (addr : String) (b : Bridge) → Handles b (tick system addr b)
  -- The rest of the program has changed the scheduler.
  works :
      (scheduler : Option Scheduler) (b : Bridge) → Handles b (record b { scheduler = scheduler })

pub data Handled (b : Bridge) : Bridge → Type 0 where
  unhandled : Handled b b
  then_handles : {c d : Bridge} → Handled b c → Handles c d → Handled b d

-- The parts of the server.
pub record IsSameServer (b c : Bridge) : Type 0 where
  pub settings : c.settings ≡ b.settings
  pub listening : c.listening ≡ b.listening
  pub dropped : c.dropped ≡ b.dropped

Handles-IsSameServer : {b c : Bridge} → Handles b c → IsSameServer b c
unfolding accept leave tick set_create_task_func set_pair_approval_func
Handles-IsSameServer (accepts addr b) = record { settings = refl; listening = refl; dropped = refl }
Handles-IsSameServer (sets_create_task create b) = record {
  settings = refl;
  listening = refl;
  dropped = refl;
}
Handles-IsSameServer (sets_pair_approval approval b) = record {
  settings = refl;
  listening = refl;
  dropped = refl;
}
Handles-IsSameServer (leaves addr b) = record { settings = refl; listening = refl; dropped = refl }
Handles-IsSameServer (receives system addr raw b) =
    let same = receive_server system addr raw b in
    record { settings = same.0; listening = same.1; dropped = same.2 }
Handles-IsSameServer (ticks system addr b) = record {
  settings = refl;
  listening = refl;
  dropped = refl;
}
Handles-IsSameServer (works scheduler b) = record {
  settings = refl;
  listening = refl;
  dropped = refl;
}

pub Handled-IsSameServer : {b c : Bridge} → Handled b c → IsSameServer b c
Handled-IsSameServer unhandled = record { settings = refl; listening = refl; dropped = refl }
Handled-IsSameServer (then_handles r step) =
    let before = Handled-IsSameServer r in
    let last = Handles-IsSameServer step in
    record {
      settings = last.settings ∙ before.settings;
      listening = last.listening ∙ before.listening;
      dropped = last.dropped ∙ before.dropped;
    }

pub handled-IsServing : {b c : Bridge} → IsSameServer b c → IsServing b → IsServing c
handled-IsServing {b} {c} same v = same_server b c same.settings same.listening same.dropped v

-- What happens between the sections of Apply is what handlers do.
pub record IsQuiet (m : Meeting) : Type 0 where
  pub before_stop : (b : Bridge) → Handled b (m.before_stop b)
  pub behind_stop : (b : Bridge) → Handled b (m.behind_stop b)

pub stop-IsServing :
    (shutdown : Option Error) (b : Bridge) → IsServing b → IsServing (stop shutdown b).0
unfolding stop
stop-IsServing shutdown b v = record {
  enabled = λ h. ground arith;
  guarded = λ h. ground arith;
  ported = λ h. ground arith;
  shut = AllClosed-append b.dropped (close_all b.sessions) v.shut (close_all-AllClosed b.sessions);
}

-- A bridge with no server is serving, whatever its settings.
idle-IsServing : (b : Bridge) → is_some b.listening ≡ false → AllClosed b.dropped → IsServing b
idle-IsServing b idle shut = record {
  enabled = λ h. ground arith;
  guarded = λ h. ground arith;
  ported = λ h. ground arith;
  shut = shut;
}

pub stop_idle :
    (shutdown : Option Error) (b : Bridge) → is_some (stop shutdown b).0.listening ≡ false
unfolding stop
stop_idle shutdown b = refl

module _ (listen : ℤ → Option Error) where
  start-IsServing :
      (settings : Settings) (b : Bridge)
      → IsServing b
      → IsServing (start_server listen settings b).0
  unfolding start_server publish_server
  start-IsServing settings b v = record {
    enabled = ground (arith, v.enabled);
    guarded = ground (arith, v.guarded);
    ported = ground (arith, v.ported);
    shut = ground (arith, v.shut);
  }

  apply_stopped-IsServing :
      (settings : Settings) (stopped : Bridge × Option Error)
      → IsServing stopped.0
      → is_some stopped.0.listening ≡ false
      → IsServing (apply_stopped listen settings stopped).0
  apply_stopped-IsServing settings (b, some e) v idle = v
  apply_stopped-IsServing settings (b, none) v idle = elim (Bool-cases settings.enabled) [
    | inl e ↦ ground (arith, start-IsServing settings b v)
    | inr e ↦ ground (arith, idle-IsServing (record b { settings = settings }) idle v.shut)
  ]

  abbrev pub stopped_by : Meeting → Bridge → Bridge × Option Error
  stopped_by m b = between m.behind_stop (stop m.shutdown (m.before_stop b))

  pub apply_cases :
      (m : Meeting) (settings : Settings) (b : Bridge)
      → ((is_some b.listening && same_settings b.settings (normalized_settings settings) ≡ true)
          × (apply listen m settings b ≡ (b, none)))
        ⊎ (apply listen m settings b
            ≡ apply_stopped listen (normalized_settings settings) (stopped_by m b))
  unfolding apply
  apply_cases m settings b =
      elim (Bool-cases
        (is_some b.listening && same_settings b.settings (normalized_settings settings))) [
          | inl e ↦ inl (e, ground arith)
          | inr e ↦ inr (ground arith)
        ]

  -- Behind Stop no server runs, with the settings from before.
  pub stopped_idle : (m : Meeting) (b : Bridge) → IsQuiet m → (stopped_by m b).0.listening ≡ none
  unfolding stop
  stopped_idle m b quiet =
      (Handled-IsSameServer (quiet.behind_stop (stop m.shutdown (m.before_stop b)).0)).listening

  pub stopped_settings :
      (m : Meeting) (b : Bridge) → IsQuiet m → (stopped_by m b).0.settings ≡ b.settings
  unfolding stop
  stopped_settings m b quiet =
      (Handled-IsSameServer (quiet.behind_stop (stop m.shutdown (m.before_stop b)).0)).settings
      ∙ (Handled-IsSameServer (quiet.before_stop b)).settings

  stopped-IsServing :
      (m : Meeting) (b : Bridge) → IsQuiet m → IsServing b → IsServing (stopped_by m b).0
  stopped-IsServing m b quiet v =
      handled-IsServing
        (Handled-IsSameServer (quiet.behind_stop (stop m.shutdown (m.before_stop b)).0))
        (stop-IsServing m.shutdown (m.before_stop b)
          (handled-IsServing (Handled-IsSameServer (quiet.before_stop b)) v))

  pub apply-IsServing :
      (m : Meeting) (settings : Settings) (b : Bridge)
      → IsQuiet m
      → IsServing b
      → IsServing (apply listen m settings b).0
  apply-IsServing m settings b quiet v = elim (apply_cases m settings b) [
    | inl (same, e) ↦ subst (λ r. IsServing r.0) (sym e) v
    | inr e ↦
        subst (λ r. IsServing r.0) (sym e)
          (apply_stopped-IsServing (normalized_settings settings) (stopped_by m b)
            (stopped-IsServing m b quiet v)
            (ap (λ (l : Option ℤ). is_some l) (stopped_idle m b quiet)))
  ]

-- The calls, one after the other, and the steps of handlers in between and within an Apply.
pub data Serves : Bridge → Bridge → Type 0 where
  handles : {b c : Bridge} → Handles b c → Serves b c
  stops : (shutdown : Option Error) (b : Bridge) → Serves b (stop shutdown b).0
  applies :
      (listen : ℤ → Option Error) (m : Meeting) (settings : Settings) (b : Bridge)
      → IsQuiet m
      → Serves b (apply listen m settings b).0
  starts :
      (listen : ℤ → Option Error) (settings : Settings) (b : Bridge)
      → Serves b (start_server listen settings b).0

pub data Served (b : Bridge) : Bridge → Type 0 where
  begun : Served b b
  then_serves : {c d : Bridge} → Served b c → Serves c d → Served b d

Serves-IsServing : {b c : Bridge} → Serves b c → IsServing b → IsServing c
Serves-IsServing (handles step) v = handled-IsServing (Handles-IsSameServer step) v
Serves-IsServing (stops shutdown b) v = stop-IsServing shutdown b v
Serves-IsServing (applies listen m settings b quiet) v = apply-IsServing listen m settings b quiet v
Serves-IsServing (starts listen settings b) v = start-IsServing listen settings b v

Served-IsServing : {b c : Bridge} → Served b c → IsServing b → IsServing c
Served-IsServing begun v = v
Served-IsServing (then_serves r step) v = Serves-IsServing step (Served-IsServing r v)

pub serves_guarded :
    (scheduler : Option Scheduler) {b : Bridge} → Served (new_bridge scheduler) b → IsServing b
serves_guarded scheduler r = Served-IsServing r (new_bridge-IsServing scheduler)
