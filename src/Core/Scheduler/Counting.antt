-- ===== src/Core/Scheduler/Counting.antt =====
-- How the number of running entries whose task passes a test changes with the two maps.
use godown.Base.{
  suc, ◌≤◌, ◌≡◌, refl, inl, inr, Bool, true, false, ◌&&◌, some, [], ◌∷◌, String, Dict, arith,
  eq_iff, lookup, has, insert, delete, modify, Distinct, lookup-modify, lookup-insert,
  lookup-delete, Option-cases,
}
use godown.Core.Task.{Task, is_live}
use godown.Core.Scheduler.{Run, count_running, takes_slot}

-- A task that uses a slot and is shown as running.
abbrev pub live_in_slot : Task → Bool
live_in_slot t = t.uses_slot && is_live t.status

module _ (test : Task → Bool) where
  -- A write to a task that makes no task pass adds nothing.
  pub count_running-modify_le :
      (id : String) (f : Task → Task) (tasks : Dict Task) (rs : Dict Run)
      → ((t : Task) → test (f t) ≡ true → test t ≡ true)
      → count_running test (modify id f tasks) rs ≤ count_running test tasks rs
  unfolding count_running
  count_running-modify_le id f tasks [] h = omega arith
  count_running-modify_le id f tasks ((k, r) ∷ rs) h = elim (Option-cases (lookup k tasks)) [
    | inl e ↦ ground (arith, lookup-modify id k f tasks, count_running-modify_le id f tasks rs h)
    | inr (t, e) ↦
        ground (arith, lookup-modify id k f tasks, h t, count_running-modify_le id f tasks rs h)
  ]

  -- The same, where the task that is written is known.
  pub count_running-modify_at_le :
      (id : String) (f : Task → Task) (tasks : Dict Task) (rs : Dict Run) {t : Task}
      → lookup id tasks ≡ some t
      → (test (f t) ≡ true → test t ≡ true)
      → count_running test (modify id f tasks) rs ≤ count_running test tasks rs
  unfolding count_running
  count_running-modify_at_le id f tasks [] e h = omega arith
  count_running-modify_at_le id f tasks ((k, r) ∷ rs) e h =
      ground (
        arith,
        eq_iff id k,
        lookup-modify id k f tasks,
        count_running-modify_at_le id f tasks rs e h,
      )

  -- A write to a task without an entry changes nothing.
  pub count_running-modify_fresh :
      (id : String) (f : Task → Task) (tasks : Dict Task) (rs : Dict Run)
      → has id rs ≡ false
      → count_running test (modify id f tasks) rs ≡ count_running test tasks rs
  unfolding count_running
  count_running-modify_fresh id f tasks [] h = refl
  count_running-modify_fresh id f tasks ((k, r) ∷ rs) h = ground (
    arith,
    eq_iff k id,
    eq_iff id k,
    lookup-modify id k f tasks,
    count_running-modify_fresh id f tasks rs,
  )

  pub count_running-insert_le :
      (id : String) (r : Run) (tasks : Dict Task) (rs : Dict Run)
      → count_running test tasks (insert id r rs) ≤ suc (count_running test tasks rs)
  unfolding count_running
  count_running-insert_le id r tasks [] = ground arith
  count_running-insert_le id r tasks ((k, q) ∷ rs) =
      ground (arith, count_running-insert_le id r tasks rs)

  pub count_running-le-insert :
      (id : String) (r : Run) (tasks : Dict Task) (rs : Dict Run)
      → count_running test tasks rs ≤ count_running test tasks (insert id r rs)
  unfolding count_running
  count_running-le-insert id r tasks [] = omega arith
  count_running-le-insert id r tasks ((k, q) ∷ rs) =
      ground (arith, eq_iff k id, count_running-le-insert id r tasks rs)

  -- A write that changes the test of no task.
  pub count_running-modify_same :
      (id : String) (f : Task → Task) (tasks : Dict Task) (rs : Dict Run)
      → ((t : Task) → test (f t) ≡ test t)
      → count_running test (modify id f tasks) rs ≡ count_running test tasks rs
  unfolding count_running
  count_running-modify_same id f tasks [] h = refl
  count_running-modify_same id f tasks ((k, r) ∷ rs) h = elim (Option-cases (lookup k tasks)) [
    | inl e ↦ ground (arith, lookup-modify id k f tasks, count_running-modify_same id f tasks rs h)
    | inr (t, e) ↦
        ground (arith, lookup-modify id k f tasks, h t, count_running-modify_same id f tasks rs h)
  ]

  pub count_running-insert_other :
      (id : String) (r : Run) (tasks : Dict Task) (rs : Dict Run) {t : Task}
      → lookup id tasks ≡ some t
      → test t ≡ false
      → count_running test tasks (insert id r rs) ≡ count_running test tasks rs
  unfolding count_running
  count_running-insert_other id r tasks [] e f = ground arith
  count_running-insert_other id r tasks ((k, q) ∷ rs) e f =
      ground (arith, count_running-insert_other id r tasks rs e f)

  pub count_running-delete_le :
      (id : String) (tasks : Dict Task) (rs : Dict Run)
      → count_running test tasks (delete id rs) ≤ count_running test tasks rs
  unfolding count_running
  count_running-delete_le id tasks [] = omega arith
  count_running-delete_le id tasks ((k, q) ∷ rs) =
      ground (arith, count_running-delete_le id tasks rs)

  pub count_running-delete_task_le :
      (id : String) (tasks : Dict Task) (rs : Dict Run)
      → count_running test (delete id tasks) rs ≤ count_running test tasks rs
  unfolding count_running
  count_running-delete_task_le id tasks [] = omega arith
  count_running-delete_task_le id tasks ((k, q) ∷ rs) =
      ground (arith, lookup-delete id k tasks, count_running-delete_task_le id tasks rs)

  -- A new task under a key that has no entry.
  pub count_running-insert_fresh :
      (id : String) (t : Task) (tasks : Dict Task) (rs : Dict Run)
      → has id rs ≡ false
      → count_running test (insert id t tasks) rs ≡ count_running test tasks rs
  unfolding count_running
  count_running-insert_fresh id t tasks [] h = refl
  count_running-insert_fresh id t tasks ((k, r) ∷ rs) h = ground (
    arith,
    eq_iff k id,
    eq_iff id k,
    lookup-insert id k t tasks,
    count_running-insert_fresh id t tasks rs,
  )

  -- A new task that does not pass.
  pub count_running-insert_task_le :
      (id : String) (t : Task) (tasks : Dict Task) (rs : Dict Run)
      → test t ≡ false
      → count_running test (insert id t tasks) rs ≤ count_running test tasks rs
  unfolding count_running
  count_running-insert_task_le id t tasks [] h = omega arith
  count_running-insert_task_le id t tasks ((k, r) ∷ rs) h =
      ground (arith, lookup-insert id k t tasks, count_running-insert_task_le id t tasks rs h)

  -- Only the keys of the entries count.
  pub count_running-modify_run :
      (id : String) (g : Run → Run) (tasks : Dict Task) (rs : Dict Run)
      → count_running test tasks (modify id g rs) ≡ count_running test tasks rs
  unfolding count_running
  count_running-modify_run id g tasks [] = refl
  count_running-modify_run id g tasks ((k, r) ∷ rs) =
      ground (arith, count_running-modify_run id g tasks rs)

pub count_running-live_le :
    (tasks : Dict Task) (rs : Dict Run)
    → count_running live_in_slot tasks rs ≤ count_running takes_slot tasks rs
unfolding count_running
count_running-live_le tasks [] = omega arith
count_running-live_le tasks ((k, r) ∷ rs) = ground (arith, count_running-live_le tasks rs)

pub modify-Distinct :
    (id : String) (g : Run → Run) (rs : Dict Run) → Distinct rs → Distinct (modify id g rs)
modify-Distinct id g [] d = tt
modify-Distinct id g ((k, r) ∷ rs) d =
    ground (arith, lookup-modify id k g rs, modify-Distinct id g rs d.1)
