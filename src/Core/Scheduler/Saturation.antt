-- ===== src/Core/Scheduler/Saturation.antt =====
-- A free slot does not stay free while a task waits for it.
use godown.Base.{
  ◌≤◌, ◌≡◌, refl, sym, subst, ◌∙◌, ◌⊎◌, inl, inr, true, false, ◌&&◌, ◌||◌, leb, some, List, [], ◌∷◌,
  String, arith, eq_iff, lookup, has, modify, mem, has-insert, lookup-modify, Option-cases,
  Bool-cases, str_eq, str_eq→eq,
}
use godown.Core.Task.{Task, waiting, running, is_live, is_waiting, is_completed}
use godown.Core.Scheduler.{
  Scheduler, takes_slot, running_slot_count, set_status, fail_unregistered, fresh_run, start_run,
  schedule_task, schedule, schedule_if_waiting, schedule_each, schedule_waiting,
}
use godown.Core.Scheduler.Counting.{count_running-le-insert, count_running-modify_same}

-- A waiting task still has the entry of an earlier run, or it wants a slot and none is free.
abbrev pub IsServed : Scheduler → String → Type 0
IsServed s id =
    (t : Task)
    → lookup id s.tasks ≡ some t
    → t.status ≡ waiting
    → (has id s.running ≡ true) ⊎ ((t.uses_slot ≡ true) × (s.max_running ≤ running_slot_count s))

-- What scheduling one task leaves of another: its data, its entry, the slots taken, the settings.
record Keeps (k : String) (s q : Scheduler) : Type 0 where
  same_task : lookup k q.tasks ≡ lookup k s.tasks
  same_run : has k s.running ≡ true → has k q.running ≡ true
  more_slots : running_slot_count s ≤ running_slot_count q
  same_max : q.max_running ≡ s.max_running
  same_stop : q.stopping ≡ s.stopping

start_run-Keeps :
    (id k : String) (t : Task) (s : Scheduler) → str_eq id k ≡ false → Keeps k s (start_run id t s)
unfolding start_run set_status
start_run-Keeps id k t s ne = record {
  same_task = ground (arith, lookup-modify id k (set_status running) s.tasks);
  same_run = λ h. ground (arith, has-insert t.id k (fresh_run s) s.running);
  more_slots = omega (
    arith,
    count_running-modify_same takes_slot id (set_status running) s.tasks s.running (λ u. refl),
    count_running-le-insert takes_slot t.id (fresh_run s) (modify id (set_status running) s.tasks)
        s.running,
  );
  same_max = refl;
  same_stop = refl;
}

fail_unregistered-Keeps :
    (id k : String) (s : Scheduler)
    → str_eq id k ≡ false
    → Keeps k s (record s { tasks = modify id fail_unregistered s.tasks })
fail_unregistered-Keeps id k s ne = record {
  same_task = ground (arith, lookup-modify id k fail_unregistered s.tasks);
  same_run = λ h. h;
  more_slots = omega (
    arith,
    count_running-modify_same takes_slot id fail_unregistered s.tasks s.running (λ u. refl),
  );
  same_max = refl;
  same_stop = refl;
}

Keeps-refl : (k : String) (s : Scheduler) → Keeps k s s
Keeps-refl k s = record {
  same_task = refl;
  same_run = λ h. h;
  more_slots = omega arith;
  same_max = refl;
  same_stop = refl;
}

schedule_task-Keeps :
    (id k : String) (t : Task) (s : Scheduler)
    → str_eq id k ≡ false
    → Keeps k s (schedule_task id t s)
unfolding schedule_task
schedule_task-Keeps id k t s ne =
    ground (arith, Keeps-refl k s, fail_unregistered-Keeps id k s ne, start_run-Keeps id k t s ne)

schedule_if_waiting-Keeps :
    (id k : String) (s : Scheduler) → str_eq id k ≡ false → Keeps k s (schedule_if_waiting id s)
unfolding schedule
schedule_if_waiting-Keeps id k s ne = elim (Option-cases (lookup id s.tasks)) [
  | inl e ↦ ground (arith, Keeps-refl k s)
  | inr (t, e) ↦ ground (arith, Keeps-refl k s, schedule_task-Keeps id k t s ne)
]

-- A task that was served stays so while another is scheduled.
Keeps-IsServed : (k : String) (s q : Scheduler) → Keeps k s q → IsServed s k → IsServed q k
Keeps-IsServed k s q keep served t e w = elim (served t (sym keep.same_task ∙ e) w) [
  | inl r ↦ inl (keep.same_run r)
  | inr (u, full) ↦ inr (u, omega (arith, keep.more_slots, keep.same_max))
]

-- A task that is no longer waiting, or is started, is served by its own turn.
start_run-IsServed :
    (id : String) (t : Task) (s : Scheduler)
    → lookup id s.tasks ≡ some t
    → IsServed (start_run id t s) id
unfolding start_run set_status
start_run-IsServed id t s e u h w =
    ground (arith, lookup-modify id id (set_status running) s.tasks, eq_iff id id)

fail_unregistered-IsServed :
    (id : String) (t : Task) (s : Scheduler)
    → lookup id s.tasks ≡ some t
    → IsServed (record s { tasks = modify id fail_unregistered s.tasks }) id
fail_unregistered-IsServed id t s e u h w =
    ground (arith, lookup-modify id id fail_unregistered s.tasks, eq_iff id id)

schedule_task-IsServed :
    (id : String) (t : Task) (s : Scheduler)
    → lookup id s.tasks ≡ some t
    → IsServed (schedule_task id t s) id
unfolding schedule_task
schedule_task-IsServed id t s e =
    elim (Bool-cases (has id s.running || is_live t.status || is_completed t.status)) [
      | inl idle ↦ rw (idle, schedule_task) (λ u h w. inl (ground arith))
      | inr ready ↦ elim (Bool-cases (t.uses_slot && leb s.max_running (running_slot_count s))) [
        | inl full ↦ rw (ready, full, schedule_task) (λ u h w. inr (ground arith, ground arith))
        | inr free ↦ elim (Option-cases (lookup t.pack_id s.registry)) [
          | inl absent ↦
              rw (ready, free, absent, schedule_task) (fail_unregistered-IsServed id t s e)
          | inr (worker, there) ↦
              rw (ready, free, there, schedule_task) (start_run-IsServed id t s e)
        ]
      ]
    ]

schedule_if_waiting_eq :
    (id : String) (t : Task) (s : Scheduler)
    → s.stopping ≡ false
    → lookup id s.tasks ≡ some t
    → is_waiting t.status ≡ true
    → schedule_if_waiting id s ≡ schedule_task id t s
unfolding schedule
schedule_if_waiting_eq id t s go e y = ground arith

schedule_if_waiting_idle :
    (id : String) (t : Task) (s : Scheduler)
    → lookup id s.tasks ≡ some t
    → is_waiting t.status ≡ false
    → schedule_if_waiting id s ≡ s
schedule_if_waiting_idle id t s e n = ground arith

schedule_if_waiting-IsServed :
    (id : String) (s : Scheduler) → s.stopping ≡ false → IsServed (schedule_if_waiting id s) id
schedule_if_waiting-IsServed id s go = elim (Option-cases (lookup id s.tasks)) [
  | inl e ↦ λ t h w. ground arith
  | inr (t, e) ↦ elim (Bool-cases (is_waiting t.status)) [
    | inr n ↦
        subst (λ q. IsServed q id) (sym (schedule_if_waiting_idle id t s e n))
          (λ u h w. ground arith)
    | inl y ↦
        subst (λ q. IsServed q id) (sym (schedule_if_waiting_eq id t s go e y))
          (schedule_task-IsServed id t s e)
  ]
]

schedule_if_waiting_step :
    (id k : String) (s : Scheduler)
    → s.stopping ≡ false
    → (IsServed s k) ⊎ (k ≡ id)
    → IsServed (schedule_if_waiting id s) k
schedule_if_waiting_step id k s go h = elim (Bool-cases (str_eq id k)) [
  | inl same ↦
      subst (IsServed (schedule_if_waiting id s)) (str_eq→eq id k same)
        (schedule_if_waiting-IsServed id s go)
  | inr other ↦ elim h [
    | inl served ↦
        Keeps-IsServed k s (schedule_if_waiting id s) (schedule_if_waiting-Keeps id k s other)
          served
    | inr e ↦ absurd (ground (arith, eq_iff id k))
  ]
]

schedule_if_waiting_stop :
    (id : String) (s : Scheduler) → (schedule_if_waiting id s).stopping ≡ s.stopping
unfolding schedule schedule_task start_run
schedule_if_waiting_stop id s = ground arith

schedule_each-IsServed :
    (ids : List String) (k : String) (s : Scheduler)
    → s.stopping ≡ false
    → (IsServed s k) ⊎ (mem k ids ≡ true)
    → IsServed (schedule_each ids s) k
unfolding schedule_each
schedule_each-IsServed [] k s go (inl served) = served
schedule_each-IsServed [] k s go (inr m) = cc
schedule_each-IsServed (id ∷ ids) k s go h =
    schedule_each-IsServed ids k (schedule_if_waiting id s) (schedule_if_waiting_stop id s ∙ go)
      (elim h [
        | inl served ↦ inl (schedule_if_waiting_step id k s go (inl served))
        | inr m ↦ elim (Bool-cases (str_eq id k)) [
          | inl same ↦ inl (schedule_if_waiting_step id k s go (inr (sym (str_eq→eq id k same))))
          | inr other ↦ inr (ground arith)
        ]
      ])

-- After a pass over the waiting tasks, of a scheduler that is not stopping, every listed task that
-- still waits has the entry of an earlier run, or takes a slot while `max_running` slots are taken: no
-- slot stays free for nothing.
pub schedule_waiting_saturates :
    (s : Scheduler) (id : String) (t : Task)
    → s.stopping ≡ false
    → mem id s.order ≡ true
    → lookup id (schedule_waiting s).tasks ≡ some t
    → t.status ≡ waiting
    → (has id (schedule_waiting s).running ≡ true)
      ⊎ ((t.uses_slot ≡ true)
          × ((schedule_waiting s).max_running ≤ running_slot_count (schedule_waiting s)))
unfolding schedule_waiting
schedule_waiting_saturates s id t go listed e w =
    schedule_each-IsServed s.order id s go (inr listed) t e w
