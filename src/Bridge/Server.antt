-- ===== src/Bridge/Server.antt =====
-- internal/browserbridge/bridge.go: the settings of the bridge, and its server as it is started,
-- stopped and changed. Each section under the bridge's lock is one function; Apply is three, and
-- what handlers do between them is an argument.
pub mod Serving
pub mod Changing
use godown.Base.{
  Bool, true, false, not, ◌&&◌, Option, none, some, List, [], ◌∷◌, ◌++◌, String, Dict, str_eq,
  is_some, lookup, insert, delete, modify, if◌then◌else◌,
}
use godown.Base.Int.{ℤ, pos, ltb_ℤ, eq_ℤ}
use godown.Config.Settings.{Settings as ConfigSettings}
use godown.Core.Task.{Task}
use godown.Core.Output.{Error, message, Result}
use godown.Core.Scheduler.{Scheduler}
use godown.Bridge.State.{System, Settings, Session, Bridge, new_session, close}
use godown.Bridge.Message.{Value, CreateTaskRequest, PairRequest}
use godown.Bridge.Session.{handle_message, push_snapshots}

unfoldable pub new_bridge : Option Scheduler → Bridge
new_bridge scheduler = record {
  scheduler = scheduler;
  create_task = none;
  pair_approval = none;
  settings = record { enabled = false; token = ""; port = pos 0 };
  listening = none;
  sessions = [];
  dropped = [];
}

abbrev pub default_port : ℤ
default_port = pos 14370

unfoldable pub normalized_settings : Settings → Settings
normalized_settings settings =
    if ltb_ℤ settings.port (pos 0) then record settings { port = default_port } else settings

abbrev eq_bool : Bool → Bool → Bool
eq_bool true b = b
eq_bool false b = not b

abbrev pub same_settings : Settings → Settings → Bool
same_settings a b = eq_bool a.enabled b.enabled && str_eq a.token b.token && eq_ℤ a.port b.port

-- A connection whose handler has begun.
unfoldable pub accept : String → Bridge → Bridge
accept remote_addr b = record b {
  sessions = insert remote_addr (new_session remote_addr) b.sessions;
}

-- The handler ends: the connection could not be read from any more.
unfoldable pub leave : String → Bridge → Bridge
leave remote_addr b = record b { sessions = delete remote_addr b.sessions }

unfoldable pub close_all : Dict Session → List Session
close_all [] = []
close_all ((k, s) ∷ l) = close s ∷ close_all l

unfoldable pub set_create_task_func : Option (CreateTaskRequest → Result Task) → Bridge → Bridge
set_create_task_func create b = record b { create_task = create }

unfoldable pub set_pair_approval_func : Option (PairRequest → Result Bool) → Bridge → Bridge
set_pair_approval_func approval b = record b { pair_approval = approval }

-- A message of the connection of a client, and a tick of its second goroutine.
unfoldable pub receive : System → String → Option Value → Bridge → Bridge
receive system remote_addr raw b = elim (lookup remote_addr b.sessions) [
  | none ↦ b
  | some s ↦
      let r = handle_message system raw b s in
      record r.0 { sessions = insert remote_addr r.1 r.0.sessions }
]

unfoldable pub tick : System → String → Bridge → Bridge
tick system remote_addr b = record b {
  sessions = modify remote_addr (push_snapshots system b) b.sessions;
}

unfoldable pub settings_from_config : ConfigSettings → Settings
settings_from_config settings = record {
  enabled = settings.browser_extension_enabled;
  token = settings.browser_pair_token;
  port = settings.browser_bridge_port;
}

-- The argument is what Shutdown returns.
unfoldable pub stop : Option Error → Bridge → Bridge × Option Error
stop shutdown b = (
  record b { listening = none; sessions = []; dropped = b.dropped ++ close_all b.sessions },
  if is_some b.listening then shutdown else none,
)

-- The section of Start under the lock, after the port was taken.
unfoldable pub publish_server : Settings → Bridge → Bridge × Option Error
publish_server settings b =
    if is_some b.listening
    then (b, some (message "browser bridge already running"))
    else (record b { settings = settings; listening = some settings.port }, none)

-- What a call of Apply meets: what Shutdown returns, and what others do to the bridge between its
-- check and the section of Stop, and behind that section.
pub record Meeting : Type 0 where
  pub shutdown : Option Error
  pub before_stop : Bridge → Bridge
  pub behind_stop : Bridge → Bridge

abbrev pub between : (Bridge → Bridge) → Bridge × Option Error → Bridge × Option Error
between others (b, e) = (others b, e)

-- `listen` is what net.Listen gives for a port.
module _ (listen : ℤ → Option Error) where
  unfoldable pub start_server : Settings → Bridge → Bridge × Option Error
  start_server given b =
      let settings = normalized_settings given in
      if not settings.enabled
      then (b, none)
      else if str_eq settings.token ""
      then (b, some (message "browser bridge token is empty"))
      else elim (listen settings.port) [ some e ↦ (b, some e) | none ↦ publish_server settings b ]

  abbrev pub apply_stopped : Settings → Bridge × Option Error → Bridge × Option Error
  apply_stopped settings (b, some e) = (b, some e)
  apply_stopped settings (b, none) =
      if not settings.enabled
      then (record b { settings = settings }, none)
      else start_server settings b

  unfoldable pub apply : Meeting → Settings → Bridge → Bridge × Option Error
  apply m given b =
      let settings = normalized_settings given in
      if is_some b.listening && same_settings b.settings settings
      then (b, none)
      else apply_stopped settings (between m.behind_stop (stop m.shutdown (m.before_stop b)))
