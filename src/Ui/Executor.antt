-- ===== src/Ui/Executor.antt =====
-- internal/ui/dispatcher.go: the executor that runs actions one after the other. `mu` makes each
-- function here one step; the goroutine's steps come between those of its callers in any order.
pub mod Order
use godown.Base.{Bool, true, false, not, Option, none, some, List, [], ◌∷◌, ◌++◌, if◌then◌else◌}

-- `ran` are the actions that the goroutine has taken and called, oldest first, and `done` is the
-- closed channel at its end.
pub record SerialExecutor {ℓ} (A : Type ℓ) : Type ℓ where
  pub queue : List A
  pub closed : Bool
  pub done : Bool
  pub ran : List A

module _ {ℓ} {A : Type ℓ} where
  abbrev pub new_serial_executor : SerialExecutor A
  new_serial_executor = record { queue = []; closed = false; done = false; ran = [] }

  -- `none` is the nil action.
  unfoldable pub submit : Option A → SerialExecutor A → SerialExecutor A × Bool
  submit none e = (e, false)
  submit (some action) e =
      if e.closed then (e, false) else (record e { queue = e.queue ++ action ∷ [] }, true)

  -- CloseAndWait up to its wait for `done`.
  unfoldable pub close : SerialExecutor A → SerialExecutor A
  close e = if e.closed then e else record e { closed = true }

  -- With an empty queue: the end, or a wait, which changes nothing.
  abbrev pub idle : SerialExecutor A → SerialExecutor A
  idle e = if e.closed then record e { done = true } else e

  abbrev pub take_action : List A → SerialExecutor A → SerialExecutor A
  take_action [] e = idle e
  take_action (action ∷ rest) e = record e { queue = rest; ran = e.ran ++ action ∷ [] }

  -- One round of run; after the end there is none.
  unfoldable pub run_round : SerialExecutor A → SerialExecutor A
  run_round e = if e.done then e else take_action e.queue e
