-- ===== src/Ui/Table/Shown.antt =====
-- The table shows the tasks that match, in order, after every operation.
use godown.Base.{◌≡◌, inl, inr, Bool, true, false, List, String, arith, Bool-cases, if◌then◌else◌}
use godown.Base.Int.{ℤ, pos, ◌-ℤ◌, ltb_ℤ, eq_ℤ}
use godown.Core.Task.{Percent, TaskSnapshot}
use godown.Ui.Table.{
  Texts, TaskFilter, SortOrder, is_ascending, TaskTable, compare_int64, compare_float, compare_by,
  less, sort_rows, keep, is_match, rebuild, new_task_table, sort, toggle_sort, set_tasks,
  set_search_text, set_filter, set_dark_mode,
}
use godown.Ui.Table.Sorting.{Sorted, stable_sort-Perm, stable_sort-Sorted}
use mathlib.Core.List.{Permᴰ}
use mathlib.Core.List.Permᴰ

-- The laws of the comparisons that are not the table's own: strings.Compare changes its sign with
-- the order of its arguments, and no float64 is below one that is below it.
pub record IsOrder (texts : Texts) : Type 0 where
  pub flips : (a b : String) → texts.compare b a ≡ pos 0 -ℤ texts.compare a b
  pub asymmetric : (a b : Percent) → texts.less_float a b ≡ true → texts.less_float b a ≡ false

-- The rows are the matching tasks, each as often as it stands in the list, and in order.
pub record IsShown (texts : Texts) (m : TaskTable) : Type 0 where
  pub matching : Permᴰ (keep (is_match texts m) m.all) m.rows
  pub sorted : Sorted (less texts m) m.rows

abbrev Opposite : ℤ → ℤ → Type 0
Opposite c d =
    (ltb_ℤ c (pos 0) ≡ true → ltb_ℤ d (pos 0) ≡ false)
    × (ltb_ℤ (pos 0) c ≡ true → ltb_ℤ (pos 0) d ≡ false)

negated-Opposite : (c d : ℤ) → d ≡ pos 0 -ℤ c → Opposite c d
unfolding ◌-ℤ◌
negated-Opposite c d e = ground arith

compare_int64-Opposite : (a b : ℤ) → Opposite (compare_int64 a b) (compare_int64 b a)
unfolding compare_int64
compare_int64-Opposite a b = ground arith

module _ (texts : Texts) (order : IsOrder texts) where
  compare-Opposite : (a b : String) → Opposite (texts.compare a b) (texts.compare b a)
  compare-Opposite a b = negated-Opposite (texts.compare a b) (texts.compare b a) (order.flips a b)

  compare_float-Opposite :
      (a b : Percent)
      → Opposite (compare_float texts.less_float a b) (compare_float texts.less_float b a)
  unfolding compare_float
  compare_float-Opposite a b = ground (arith, order.asymmetric a b, order.asymmetric b a)

  split :
      (b : Bool) (x y u v : ℤ)
      → Opposite x y
      → Opposite u v
      → Opposite (if b then x else u) (if b then y else v)
  split true x y u v o p = o
  split false x y u v o p = p

  compare_by-Opposite :
      (column : ℤ) (a b : TaskSnapshot)
      → Opposite (compare_by texts column a b) (compare_by texts column b a)
  unfolding compare_by
  compare_by-Opposite column a b = split (eq_ℤ column (pos 0)) _ _ _ _ (compare-Opposite _ _) (
      split (eq_ℤ column (pos 1)) _ _ _ _ (compare-Opposite _ _) (
        split (eq_ℤ column (pos 2)) _ _ _ _ (compare_float-Opposite _ _) (
          split (eq_ℤ column (pos 3)) _ _ _ _ (compare_int64-Opposite _ _) (
            split (eq_ℤ column (pos 4)) _ _ _ _ (compare_int64-Opposite _ _) (
              split (eq_ℤ column (pos 5)) _ _ _ _ (compare-Opposite _ _)
                (compare_int64-Opposite _ _))))))

  less_asymmetric :
      (m : TaskTable) (x y : TaskSnapshot) → less texts m x y ≡ true → less texts m y x ≡ false
  unfolding less
  less_asymmetric m x y h =
      let o = compare_by-Opposite m.sort_column x y in
      elim (Bool-cases (is_ascending m.sort_order)) [
        | inl a ↦ rw a (o.0 (rw a at h))
        | inr a ↦ rw a (o.1 (rw a at h))
      ]

  sort_rows-IsShown :
      (m : TaskTable)
      → Permᴰ (keep (is_match texts m) m.all) m.rows
      → IsShown texts (sort_rows texts m)
  unfolding sort_rows less
  sort_rows-IsShown m p = record {
    matching = Permᴰ.trans p (stable_sort-Perm (less texts m) m.rows);
    sorted = stable_sort-Sorted (less texts m) (less_asymmetric m) m.rows;
  }

  rebuild-IsShown : (m : TaskTable) → IsShown texts (rebuild texts m)
  unfolding rebuild
  rebuild-IsShown m =
      sort_rows-IsShown (record m { rows = keep (is_match texts m) m.all })
        (Permᴰ.refl (keep (is_match texts m) m.all))

  sort-IsShown :
      (column : ℤ) (o : SortOrder) (m : TaskTable)
      → IsShown texts m
      → IsShown texts (sort texts column o m)
  unfolding sort
  sort-IsShown column o m shown =
      sort_rows-IsShown (record m { sort_column = column; sort_order = o }) shown.matching

  unless_same :
      (b : Bool) (m n : TaskTable)
      → IsShown texts m
      → IsShown texts n
      → IsShown texts (if b then m else n)
  unless_same true m n s t = s
  unless_same false m n s t = t

-- The tables that the operations make.
pub data Reach (texts : Texts) : TaskTable → Type 0 where
  fresh : Reach texts (new_task_table texts)
  sets_tasks :
      {m : TaskTable} (tasks : List TaskSnapshot)
      → Reach texts m
      → Reach texts (set_tasks texts tasks m)
  searches :
      {m : TaskTable} (text : String) → Reach texts m → Reach texts (set_search_text texts text m)
  filters :
      {m : TaskTable} (filter : TaskFilter)
      → Reach texts m
      → Reach texts (set_filter texts filter m)
  sorts :
      {m : TaskTable} (column : ℤ) (o : SortOrder)
      → Reach texts m
      → Reach texts (sort texts column o m)
  toggles : {m : TaskTable} (column : ℤ) → Reach texts m → Reach texts (toggle_sort texts column m)
  darkens : {m : TaskTable} (enabled : Bool) → Reach texts m → Reach texts (set_dark_mode enabled m)

-- After any sequence of the operations the table shows each task that matches the filter and the
-- search text, as often as it stands in the list, and no other, in the order of the chosen column;
-- the string comparison and the order of float64 have the laws of IsOrder.
pub rows-IsShown : (texts : Texts) (m : TaskTable) → IsOrder texts → Reach texts m → IsShown texts m
unfolding new_task_table toggle_sort set_tasks set_search_text set_filter set_dark_mode less
rows-IsShown texts m order fresh = rebuild-IsShown texts order _
rows-IsShown texts m order (sets_tasks tasks r) = rebuild-IsShown texts order _
rows-IsShown texts m order (searches {m = n} text r) =
    unless_same texts order _ n _ (rows-IsShown texts n order r) (rebuild-IsShown texts order _)
rows-IsShown texts m order (filters {m = n} filter r) =
    unless_same texts order _ n _ (rows-IsShown texts n order r) (rebuild-IsShown texts order _)
rows-IsShown texts m order (sorts {m = n} column o r) =
    sort-IsShown texts order column o n (rows-IsShown texts n order r)
rows-IsShown texts m order (toggles {m = n} column r) =
    sort-IsShown texts order column _ n (rows-IsShown texts n order r)
rows-IsShown texts m order (darkens {m = n} enabled r) =
    let s = rows-IsShown texts n order r in record { matching = s.matching; sorted = s.sorted }
