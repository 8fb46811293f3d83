-- ===== src/Ui/Table.antt =====
-- internal/ui/task_table_model.go: which tasks the table shows, and in which order. The notices to
-- the list view and the drawing of the cells are left out.
pub mod Sorting
pub mod Shown
use godown.Base.{
  ℕ, zero, suc, ◌+◌, Bool, true, false, not, ◌&&◌, ◌||◌, Option, none, some, List, [], ◌∷◌, String,
  str_eq, ltb, length, if◌then◌else◌,
}
use godown.Base.Int.{ℤ, pos, negsuc, ltb_ℤ, eq_ℤ}
use godown.Core.Task.{
  TaskStatus, waiting, running, seeding, paused, completed, failed, canceled, other, Percent,
  TaskSnapshot, is_completed,
}

-- The functions on strings, and the order of float64, that the table calls; a comparison of texts is
-- negative, zero or positive.
pub record Texts : Type 0 where
  pub to_lower : String → String
  pub trim_space : String → String
  pub contains : String → String → Bool
  pub compare : String → String → ℤ
  pub less_float : Percent → Percent → Bool
  pub status_text : TaskStatus → String

pub data TaskFilter : Type 0 where
  every active finished broken : TaskFilter

pub data SortOrder : Type 0 where
  ascending descending : SortOrder

pub record TaskTable : Type 0 where
  pub all : List TaskSnapshot
  pub rows : List TaskSnapshot
  pub search_text : String
  pub filter : TaskFilter
  pub sort_column : ℤ
  pub sort_order : SortOrder
  pub dark_mode : Bool

abbrev pub sort_created_at : ℤ
sort_created_at = negsuc 0

unfoldable pub compare_int64 : ℤ → ℤ → ℤ
compare_int64 left right =
    if ltb_ℤ left right then negsuc 0 else if ltb_ℤ right left then pos 1 else pos 0

abbrev pub is_failed : TaskStatus → Bool
is_failed failed = true
is_failed _ = false

unfoldable pub matches_filter : TaskFilter → TaskSnapshot → Bool
matches_filter every task = true
matches_filter active task = not (is_completed task.status)
matches_filter finished task = is_completed task.status
matches_filter broken task = is_failed task.status

abbrev pub same_filter : TaskFilter → TaskFilter → Bool
same_filter every every = true
same_filter active active = true
same_filter finished finished = true
same_filter broken broken = true
same_filter _ _ = false

abbrev pub is_ascending : SortOrder → Bool
is_ascending ascending = true
is_ascending descending = false

-- The size shown: what was received, where the size is unknown.
abbrev pub shown_size : TaskSnapshot → ℤ
shown_size task = if ltb_ℤ (pos 0) task.file_size then task.file_size else task.received

-- Time.Compare.
abbrev pub compare_time : ℕ → ℕ → ℤ
compare_time a b = compare_int64 (pos a) (pos b)

unfoldable pub display_status : TaskStatus → String
display_status waiting = "等待中"
display_status running = "下载中"
display_status seeding = "做种中"
display_status paused = "已暂停"
display_status completed = "已完成"
display_status failed = "失败"
display_status canceled = "已取消"
display_status (other text) = text

unfoldable pub task_by_id : String → List TaskSnapshot → Option TaskSnapshot
task_by_id task_id [] = none
task_by_id task_id (task ∷ tasks) =
    if str_eq task.id task_id then some task else task_by_id task_id tasks

abbrev pub row_at : ℕ → List TaskSnapshot → Option TaskSnapshot
row_at n [] = none
row_at zero (task ∷ tasks) = some task
row_at (suc n) (task ∷ tasks) = row_at n tasks

unfoldable pub task_at : ℤ → TaskTable → Option TaskSnapshot
task_at (pos n) m = row_at n m.rows
task_at (negsuc n) m = none

pub record Counts : Type 0 where
  pub all : ℕ
  pub active : ℕ
  pub completed : ℕ
  pub failed : ℕ

-- The cases of one task in Counts.
abbrev pub count_status : TaskStatus → Counts → Counts
count_status completed c = record c { completed = suc c.completed }
count_status failed c = record c { failed = suc c.failed; active = suc c.active }
count_status _ c = record c { active = suc c.active }

unfoldable pub count_each : List TaskSnapshot → Counts → Counts
count_each [] c = c
count_each (task ∷ tasks) c = count_each tasks (count_status task.status c)

unfoldable pub counts : TaskTable → Counts
unfolding count_each
counts m = count_each m.all (record { all = length m.all; active = 0; completed = 0; failed = 0 })

-- sort.SliceStable.
unfoldable pub insert_row {ℓ} : {A : Type ℓ} → (A → A → Bool) → A → List A → List A
insert_row less x [] = x ∷ []
insert_row less x (y ∷ ys) =
    let rest = insert_row less x ys in if less y x then y ∷ rest else x ∷ y ∷ ys

unfoldable pub stable_sort {ℓ} : {A : Type ℓ} → (A → A → Bool) → List A → List A
unfolding insert_row
stable_sort less [] = []
stable_sort less (x ∷ xs) = insert_row less x (stable_sort less xs)

unfoldable pub keep {ℓ} : {A : Type ℓ} → (A → Bool) → List A → List A
keep test [] = []
keep test (x ∷ xs) = let rest = keep test xs in if test x then x ∷ rest else rest

unfoldable pub compare_float : (Percent → Percent → Bool) → Percent → Percent → ℤ
compare_float less_float left right =
    if less_float left right then negsuc 0 else if less_float right left then pos 1 else pos 0

module _ (texts : Texts) where
  unfoldable pub compare_by : ℤ → TaskSnapshot → TaskSnapshot → ℤ
  compare_by column left right =
      if eq_ℤ column (pos 0)
      then texts.compare (texts.to_lower left.title) (texts.to_lower right.title)
      else if eq_ℤ column (pos 1)
      then texts.compare (texts.status_text left.status) (texts.status_text right.status)
      else if eq_ℤ column (pos 2)
      then compare_float texts.less_float left.progress right.progress
      else if eq_ℤ column (pos 3)
      then compare_int64 (shown_size left) (shown_size right)
      else if eq_ℤ column (pos 4)
      then compare_int64 left.speed right.speed
      else if eq_ℤ column (pos 5)
      then texts.compare (texts.to_lower left.path) (texts.to_lower right.path)
      else compare_time left.created_at right.created_at

  unfoldable pub less : TaskTable → TaskSnapshot → TaskSnapshot → Bool
  less m left right =
      let comparison = compare_by m.sort_column left right in
      if is_ascending m.sort_order then ltb_ℤ comparison (pos 0) else ltb_ℤ (pos 0) comparison

  unfoldable pub sort_rows : TaskTable → TaskTable
  unfolding stable_sort
  sort_rows m = record m { rows = stable_sort (less m) m.rows }

  unfoldable pub matches_search : String → TaskSnapshot → Bool
  matches_search text task =
      str_eq text ""
      || texts.contains (texts.to_lower task.title) text
      || texts.contains (texts.to_lower task.url) text
      || texts.contains (texts.to_lower task.path) text

  abbrev pub is_match : TaskTable → TaskSnapshot → Bool
  is_match m task = matches_filter m.filter task && matches_search m.search_text task

  unfoldable pub rebuild : TaskTable → TaskTable
  unfolding keep
  rebuild m = sort_rows (record m { rows = keep (is_match m) m.all })

  unfoldable pub new_task_table : TaskTable
  new_task_table = rebuild (record {
    all = [];
    rows = [];
    search_text = "";
    filter = every;
    sort_column = sort_created_at;
    sort_order = descending;
    dark_mode = false;
  })

  unfoldable pub sort : ℤ → SortOrder → TaskTable → TaskTable
  sort column order m = sort_rows (record m { sort_column = column; sort_order = order })

  unfoldable pub toggle_sort : ℤ → TaskTable → TaskTable
  toggle_sort column m =
      sort column
        (if eq_ℤ m.sort_column column && is_ascending m.sort_order then descending else ascending) m

  unfoldable pub set_tasks : List TaskSnapshot → TaskTable → TaskTable
  set_tasks tasks m = rebuild (record m { all = tasks })

  unfoldable pub set_search_text : String → TaskTable → TaskTable
  set_search_text given m =
      let text = texts.to_lower (texts.trim_space given) in
      if str_eq m.search_text text then m else rebuild (record m { search_text = text })

  unfoldable pub set_filter : TaskFilter → TaskTable → TaskTable
  set_filter filter m =
      if same_filter m.filter filter then m else rebuild (record m { filter = filter })

-- It changes the colours only.
unfoldable pub set_dark_mode : Bool → TaskTable → TaskTable
set_dark_mode enabled m = record m { dark_mode = enabled }
