-- ===== src/Core/State.antt =====
-- internal/core/scheduler.go: the state of the scheduler and its start.
use godown.Base.{ℕ, Bool, false, Option, List, [], String, Dict}
use godown.Base.Int.{ℤ, positive_or}
use godown.Core.Task.{Task, TaskSnapshot}
use godown.Core.Output.{Result}

-- A registered worker: the optional TaskResetter. What its Run does comes as arguments of the steps.
pub record Worker : Type 0 where
  pub reset_task : Option (Task → Result Task)

-- Where the goroutine of a runningTask is; `exited` has closed `done` and left its entry.
pub data RunPhase : Type 0 where
  spawned working exited : RunPhase

-- runningTask. `serial` tells two runs of one task apart.
pub record Run : Type 0 where
  pub serial : ℕ
  pub cancelled : Bool
  pub phase : RunPhase

pub record Scheduler : Type 0 where
  pub tasks : Dict Task
  pub order : List String
  pub running : Dict Run
  pub registry : Dict Worker
  pub has_store : Bool
  pub saves : List (List Task)  -- the arguments of store.Save, newest first
  pub events : List (List TaskSnapshot)  -- the channel's buffer, oldest first
  pub max_running : ℕ
  pub save_armed : Bool  -- saveTimer is set and has not fired
  pub stopping : Bool
  pub events_closed : Bool
  pub load_failed : Bool
  pub pause_epoch : ℕ
  pub next_serial : ℕ

abbrev pub event_capacity : ℕ
event_capacity = 16

unfoldable pub new_scheduler : Dict Worker → Bool → ℤ → Scheduler
new_scheduler registry has_store max_running = record {
  tasks = [];
  order = [];
  running = [];
  registry = registry;
  has_store = has_store;
  saves = [];
  events = [];
  max_running = positive_or 3 max_running;
  save_armed = false;
  stopping = false;
  events_closed = false;
  load_failed = false;
  pause_epoch = 0;
  next_serial = 0;
}
