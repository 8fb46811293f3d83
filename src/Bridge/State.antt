-- ===== src/Bridge/State.antt =====
-- internal/browserbridge/bridge.go: the bridge, one connection of an extension, and what both use
-- of the platform.
use godown.Base.{Bool, true, false, Option, List, [], ◌∷◌, ◌++◌, String, Dict, if◌then◌else◌}
use godown.Base.Int.{ℤ}
use godown.Core.Task.{Task}
use godown.Core.Output.{Error, Result, Host}
use godown.Core.Scheduler.{Scheduler}
use godown.Core.Scheduler.Edits.{Gap}
use godown.Bridge.Message.{CreateTaskRequest, PairRequest}
use godown.Bridge.Reply.{Reply, Row}

-- A program that is started on a path.
pub data Launch : Type 0 where
  explorer opener : String → Launch

-- The platform as the call finds it, and what other goroutines do to the scheduler while
-- Redownload waits for the worker and removes its files.
pub record System : Type 0 where
  pub host : Host
  pub exists : String → Bool  -- os.Stat gives no error
  pub extension : String → String  -- filepath.Ext
  pub start_command : Launch → Option Error  -- exec.Command(...).Start()
  pub marshal : List Row → Option String  -- json.Marshal of a snapshot, `none` for an error
  pub wait_gap : Gap
  pub files_gap : Gap

pub record Settings : Type 0 where
  pub enabled : Bool
  pub token : String
  pub port : ℤ

-- What is given to the connection to send.
pub data Sent : Type 0 where
  reply : Reply → Sent
  task_snapshot : List Row → Sent

-- One connection. The last snapshot is "" where it is nil.
pub record Session : Type 0 where
  pub authenticated : Bool
  pub subscribed_tasks : Bool
  pub last_snapshot : String
  pub remote_addr : String
  pub closed : Bool  -- the connection is closed
  pub sent : List Sent  -- oldest first
  pub launched : List Launch  -- the programs that its messages started, oldest first

-- `listening` is the port of the server; none where there is no server.
pub record Bridge : Type 0 where
  pub scheduler : Option Scheduler
  pub create_task : Option (CreateTaskRequest → Result Task)
  pub pair_approval : Option (PairRequest → Result Bool)
  pub settings : Settings
  pub listening : Option ℤ
  pub sessions : Dict Session  -- by the address of the client, which tells connections apart
  pub dropped : List Session  -- those that Stop took from the map, closed

unfoldable pub new_session : String → Session
new_session remote_addr = record {
  authenticated = false;
  subscribed_tasks = false;
  last_snapshot = "";
  remote_addr = remote_addr;
  closed = false;
  sent = [];
  launched = [];
}

-- Nothing is sent on a closed connection; the error is only logged.
abbrev pub deliver : Sent → Session → Session
deliver m s = if s.closed then s else record s { sent = s.sent ++ m ∷ [] }

unfoldable pub send : Reply → Session → Session
send r s = deliver (reply r) s

abbrev pub close : Session → Session
close s = record s { closed = true }
