-- ===== src/Tests/Showing.antt =====
-- The window's parts on concrete inputs.
use godown.Base.{◌≡◌, refl, false, some, List, [], ◌∷◌, ◌++◌, String, str_eq, ℕ}
use godown.Base.Int.{pos, ◌-ℤ◌}
use godown.Core.Task.{TaskStatus, TaskSnapshot, running, completed, waiting, zero_percent}
use godown.Ui.Notifications.{notification_for, new_tracker, update, notify_each}
use godown.Ui.Notifications.Changes.{IsChange}
use godown.Ui.Executor.{SerialExecutor, new_serial_executor, submit, close, run_round}
use godown.Ui.Executor.Order.{Reach, start, accepts, runs, runs_in_order}
use godown.Ui.Table.{Texts, TaskTable, new_task_table, set_tasks, active, set_filter}
use godown.Ui.Table.Shown.{IsOrder, IsShown, Reach as TableReach, rows-IsShown}
use mathlib.Core.List.{Memᴰ}

abbrev row : String → TaskStatus → ℕ → TaskSnapshot
row id status created = record {
  id = id;
  pack_id = "http";
  title = id;
  url = "http://example";
  status = status;
  path = "/d";
  output_path = "/d/x";
  file_size = pos 10;
  received = pos 0;
  speed = pos 0;
  progress = zero_percent;
  detail = "";
  error = "";
  created_at = created;
}

abbrev earlier : List TaskSnapshot
earlier = row "a" running 1 ∷ row "b" waiting 2 ∷ []

abbrev later : List TaskSnapshot
later = row "a" completed 1 ∷ row "b" running 2 ∷ row "c" completed 3 ∷ []

told : (update later (new_tracker earlier)).1 ≡ notification_for (row "a" completed 1) ∷ []
unfolding update new_tracker notify_each
told = refl

change : IsChange earlier later (row "a" completed 1)
change = record {
  in_new = Memᴰ.head refl;
  before = row "a" running 1;
  in_old = Memᴰ.head refl;
  same_id = refl;
  changed = λ e. cc;
  at_end = refl;
}

abbrev two_submitted : SerialExecutor ℕ
two_submitted = (submit (some 2) (submit (some 1) new_serial_executor).0).0

two_submitted-Reach : Reach (1 ∷ 2 ∷ []) two_submitted
unfolding submit
two_submitted-Reach = accepts 2 (accepts 1 start refl) refl

runs_in_order_example :
    (run_round two_submitted).ran ++ (run_round two_submitted).queue ≡ 1 ∷ 2 ∷ []
runs_in_order_example =
    runs_in_order (1 ∷ 2 ∷ []) (run_round two_submitted) (runs two_submitted-Reach)

abbrev ended : SerialExecutor ℕ
ended = run_round (run_round (run_round (close two_submitted)))

-- A comparison of texts that tells nothing apart, and no order of float64.
abbrev texts : Texts
texts = record {
  to_lower = λ s. s;
  trim_space = λ s. s;
  contains = λ s t. str_eq s t;
  compare = λ a b. pos 0;
  less_float = λ a b. false;
  status_text = λ status. "";
}

texts-IsOrder : IsOrder texts
unfolding ◌-ℤ◌
texts-IsOrder = record { flips = λ a b. refl; asymmetric = λ a b h. refl }

abbrev shown : TaskTable
shown = set_filter texts active (set_tasks texts later (new_task_table texts))

rows-IsShown_example : IsShown texts shown
rows-IsShown_example =
    rows-IsShown texts shown texts-IsOrder
      (TableReach.filters active (TableReach.sets_tasks later TableReach.fresh))
