-- ===== src/Core/Scheduler/Storing.antt =====
-- What is saved is loaded again.
use godown.Base.{
  ◌≡◌, refl, sym, ap, ◌∙◌, inl, inr, true, false, none, some, List, [], ◌∷◌, ◌++◌, String, Dict,
  arith, str_eq, eq_iff, lookup, lookup-insert, mem, eq_refl, first, Bool-cases, if◌then◌else◌,
}
use godown.Base.Int.{ℤ}
use godown.Core.Task.{Task, clone_task_id, is_live}
use godown.Core.Output.{ok, Host, output_file, prepare_ftp_directory_output}
use godown.Core.Scheduler.{
  Scheduler, Worker, listed_tasks, emit, save, new_scheduler, pause_task, pause_if,
}
use godown.Core.Scheduler.Control.{demote, put_task, load_each, end_load, load, reserved_outputs}
use mathlib.Core.List.{append_assoc, append-nil}

-- Each id has a task that stands under it, and none is listed twice.
abbrev pub Listed : List String → Dict Task → Type 0
Listed [] tasks = Unit {0}
Listed (id ∷ ids) tasks =
    (mem id ids ≡ false)
    × ((t : Task) × (lookup id tasks ≡ some t) × (t.id ≡ id))
    × Listed ids tasks

put_all : List Task → Scheduler → Scheduler
put_all [] s = s
put_all (t ∷ ts) s = put_all ts (put_task (demote t) s)

-- The outputs of the tasks have not to be moved, each against those of the tasks before it.
abbrev pub AllStay : Host → List Task → Scheduler → Type 0
AllStay host [] s = Unit {0}
AllStay host (t ∷ ts) s =
    (prepare_ftp_directory_output host (reserved_outputs host s) t ≡ ok t)
    × AllStay host ts (put_task (demote t) s)

load_step :
    (host : Host) (t : Task) (ts : List Task) (s : Scheduler)
    → prepare_ftp_directory_output host (reserved_outputs host s) t ≡ ok t
    → load_each host (t ∷ ts) false s ≡ load_each host ts false (put_task (demote t) s)
unfolding load_each
load_step host t ts s stays =
    rw (clone_task_id t, stays, clone_task_id t, eq_refl (output_file host t), load_each) refl

load_all :
    (host : Host) (ts : List Task) (s : Scheduler)
    → AllStay host ts s
    → load_each host ts false s ≡ (put_all ts s, false, none)
unfolding load_each put_all
load_all host [] s all = refl
load_all host (t ∷ ts) s all =
    load_step host t ts s all.0 ∙ load_all host ts (put_task (demote t) s) all.1

demote_id : (t : Task) → (demote t).id ≡ t.id
unfolding pause_task
demote_id t = ground arith

-- The tasks of a list of ids, one by one.
listed_step :
    (id : String) (ids : List String) (tasks : Dict Task) (t : Task)
    → lookup id tasks ≡ some t
    → listed_tasks (id ∷ ids) tasks ≡ t ∷ listed_tasks ids tasks
unfolding listed_tasks
listed_step id ids tasks t found = rw (found, clone_task_id t, listed_tasks) refl

some_injective {ℓ} : {A : Type ℓ} {x y : A} → some x ≡ some y → x ≡ y
some_injective e = cc

put_all-order :
    (ids : List String) (tasks : Dict Task) (s : Scheduler)
    → Listed ids tasks
    → (put_all (listed_tasks ids tasks) s).order ≡ s.order ++ ids
unfolding put_all listed_tasks put_task
put_all-order [] tasks s l = sym (append-nil s.order)
put_all-order (id ∷ ids) tasks s l =
    let t = l.1.0 in
    rw (listed_step id ids tasks t l.1.1, put_all)
      (put_all-order ids tasks (put_task (demote t) s) l.2
        ∙ ap (λ k. (s.order ++ k ∷ []) ++ ids) (demote_id t ∙ l.1.2)
        ∙ append_assoc s.order (id ∷ []) ids)

put_cases :
    (k : String) (ids : List String) (tasks : Dict Task) (s : Scheduler) (id : String) (t u : Task)
    → mem k ids ≡ false
    → lookup k tasks ≡ some u
    → u.id ≡ k
    → lookup id tasks ≡ some t
    → (if mem id ids then some (demote t) else lookup id (put_task (demote u) s).tasks)
      ≡ (if mem id (k ∷ ids) then some (demote t) else lookup id s.tasks)
unfolding put_task
put_cases k ids tasks s id t u once found same at = elim (Bool-cases (str_eq k id)) [
  | inl e ↦ ground (
    arith,
    eq_iff k id,
    ap demote (some_injective (sym found ∙ ap (λ j. lookup j tasks) ((eq_iff k id).0 e) ∙ at)),
    lookup-insert (demote u).id id (demote u) s.tasks,
    demote_id u,
  )
  | inr e ↦ ground (arith, lookup-insert (demote u).id id (demote u) s.tasks, demote_id u)
]

lookup-put_all :
    (ids : List String) (tasks : Dict Task) (s : Scheduler) (id : String) (t : Task)
    → Listed ids tasks
    → lookup id tasks ≡ some t
    → lookup id (put_all (listed_tasks ids tasks) s).tasks
      ≡ (if mem id ids then some (demote t) else lookup id s.tasks)
unfolding put_all listed_tasks put_task
lookup-put_all [] tasks s id t l found = refl
lookup-put_all (k ∷ ids) tasks s id t l found =
    let u = l.1.0 in
    rw (listed_step k ids tasks u l.1.1, put_all)
      (lookup-put_all ids tasks (put_task (demote u) s) id t l.2 found
        ∙ put_cases k ids tasks s id t u l.0 l.1.1 l.1.2 found)

emit_keeps :
    (host : Host) (s : Scheduler)
    → ((emit host s).tasks ≡ s.tasks) × ((emit host s).order ≡ s.order)
unfolding emit
emit_keeps host s = ground arith

with_store :
    (host : Host) (ts : List Task) (s : Scheduler)
    → s.has_store ≡ true
    → load host (ok ts) s
      ≡ end_load host (load_each host ts false (record s { load_failed = false }))
unfolding load
with_store host ts s stores = ground arith

load_stored :
    (host : Host) (ts : List Task) (s : Scheduler)
    → s.has_store ≡ true
    → AllStay host ts (record s { load_failed = false })
    → load host (ok ts) s ≡ (emit host (put_all ts (record s { load_failed = false })), none)
load_stored host ts s stores all =
    with_store host ts s stores
    ∙ ap (end_load host) (load_all host ts (record s { load_failed = false }) all)

-- What a scheduler with a store saves, unless its own load failed, a new scheduler loads: with no
-- error, in the same order, and each listed task as it was, except that one that ran or seeded is
-- paused. It is assumed that the ids are listed once and have tasks, and that the file system
-- leaves each task its output, against the outputs of the tasks that are listed before it.
pub load-save :
    (host : Host) (registry : Dict Worker) (n : ℤ) (s : Scheduler) (id : String) (t : Task)
    → s.has_store ≡ true
    → s.load_failed ≡ false
    → Listed s.order s.tasks
    → AllStay host (listed_tasks s.order s.tasks) (new_scheduler registry true n)
    → mem id s.order ≡ true
    → lookup id s.tasks ≡ some t
    → (stored : List Task) × (first (save s).saves ≡ some stored)
      × ((load host (ok stored) (new_scheduler registry true n)).1 ≡ none)
      × ((load host (ok stored) (new_scheduler registry true n)).0.order ≡ s.order)
      × (lookup id (load host (ok stored) (new_scheduler registry true n)).0.tasks
          ≡ some (pause_if is_live t))
unfolding save new_scheduler
load-save host registry n s id t stores fine listed stays member found =
    let stored = listed_tasks s.order s.tasks in
    let fresh = new_scheduler registry true n in
    let filled = put_all stored fresh in
    let e = load_stored host stored fresh refl stays in
    let kept = emit_keeps host filled in
    (
      stored,
      ground arith,
      ap (λ x. x.1) e,
      ap (λ x. x.0.order) e ∙ kept.1 ∙ put_all-order s.order s.tasks fresh listed,
      ap (λ x. lookup id x.0.tasks) e
          ∙ ap (λ m. lookup id m) kept.0
          ∙ lookup-put_all s.order s.tasks fresh id t listed found
          ∙ ap (λ b. if b then some (demote t) else lookup id fresh.tasks) member,
    )
