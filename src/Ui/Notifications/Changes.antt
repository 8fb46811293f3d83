-- ===== src/Ui/Notifications/Changes.antt =====
-- The notifications are those of the tasks that changed to an end.
use godown.Base.{
  ◌≡◌, ◌≢◌, refl, sym, ap, subst, ◌∙◌, inl, inr, true, false, Option, none, some, List, [], ◌∷◌,
  arith, Dict, lookup, Bool-cases,
}
use godown.Core.Task.{TaskStatus, TaskSnapshot}
use godown.Ui.Notifications.{
  Notification, Tracker, put_statuses, new_tracker, is_terminal, notification_for, is_skipped,
  notify_each, update,
}
use mathlib.Core.List.{Memᴰ}
use mathlib.Core.List.Memᴰ
use godown.Ui.Notifications.Known.{eq_status_iff, DistinctIds, lookup-put_statuses, known-Source}

-- A task of the new list that stood in the old one with another status, and is at an end now.
pub record IsChange (old new : List TaskSnapshot) (task : TaskSnapshot) : Type 0 where
  pub in_new : Memᴰ task new
  pub before : TaskSnapshot
  pub in_old : Memᴰ before old
  pub same_id : before.id ≡ task.id
  pub changed : before.status ≢ task.status
  pub at_end : is_terminal task.status ≡ true

notified :
    (previous : Dict TaskStatus) (task : TaskSnapshot) (tasks : List TaskSnapshot)
    → Memᴰ task tasks
    → is_skipped (lookup task.id previous) task.status ≡ false
    → Memᴰ (notification_for task) (notify_each previous tasks)
unfolding notify_each
notified previous task [] m h = elim m [ ]
notified previous task (t ∷ ts) (Memᴰ.head e) h =
    rw
      (
        subst (λ (x : TaskSnapshot). is_skipped (lookup x.id previous) x.status ≡ false) e h,
        notify_each,
      )
      (Memᴰ.head (ap notification_for e))
notified previous task (t ∷ ts) (Memᴰ.tail m) h =
    elim (Bool-cases (is_skipped (lookup t.id previous) t.status)) [
      | inl s ↦ rw (s, notify_each) (notified previous task ts m h)
      | inr s ↦ rw (s, notify_each) (Memᴰ.tail (notified previous task ts m h))
    ]

-- Every task that changed to completed or failed since the last list, in which no two tasks have one
-- id, is told.
pub update_tells :
    (old new : List TaskSnapshot) (task : TaskSnapshot)
    → DistinctIds old
    → IsChange old new task
    → Memᴰ (notification_for task) (update new (new_tracker old)).1
unfolding update new_tracker
update_tells old new task distinct c =
    let known = lookup-put_statuses c.before old [] distinct c.in_old in
    notified (put_statuses old []) task new c.in_new (
      rw (sym c.same_id, known)
        (ground (arith, eq_status_iff c.before.status task.status, c.changed, c.at_end)))

-- What was told is of a task that is not passed over.
record IsTold (previous : Dict TaskStatus) (tasks : List TaskSnapshot) (n : Notification)
    : Type 0 where
  task : TaskSnapshot
  member : Memᴰ task tasks
  kept : is_skipped (lookup task.id previous) task.status ≡ false
  is_for : n ≡ notification_for task

later :
    (previous : Dict TaskStatus) (t : TaskSnapshot) (ts : List TaskSnapshot) (n : Notification)
    → IsTold previous ts n
    → IsTold previous (t ∷ ts) n
later previous t ts n told = record {
  task = told.task;
  member = Memᴰ.tail told.member;
  kept = told.kept;
  is_for = told.is_for;
}

told :
    (previous : Dict TaskStatus) (tasks : List TaskSnapshot) (n : Notification)
    → Memᴰ n (notify_each previous tasks)
    → IsTold previous tasks n
unfolding notify_each
told previous [] n m = elim m [ ]
told previous (t ∷ ts) n m = elim (Bool-cases (is_skipped (lookup t.id previous) t.status)) [
  | inl s ↦ later previous t ts n (told previous ts n (rw (s, notify_each) at m))
  | inr s ↦ elim (Memᴰ.cases_cons (rw (s, notify_each) at m)) [
    | inl e ↦ record { task = t; member = Memᴰ.head refl; kept = s; is_for = e }
    | inr i ↦ later previous t ts n (told previous ts n i)
  ]
]

-- The status that a task that was told had before.
kept_before :
    (known : Option TaskStatus) (status : TaskStatus)
    → is_skipped known status ≡ false
    → (before : TaskStatus) × (known ≡ some before)
      × (before ≢ status)
      × (is_terminal status ≡ true)
kept_before none status h = absurd (cc)
kept_before (some before) status h =
    (before, refl, (λ e. ground (arith, eq_status_iff before status)), ground arith)

-- Nothing else is told: each notification is that of a task which stood in the last list with
-- another status and is now completed or failed.
pub update_tells_only :
    (old new : List TaskSnapshot) (n : Notification)
    → Memᴰ n (update new (new_tracker old)).1
    → (task : TaskSnapshot) × IsChange old new task × (n ≡ notification_for task)
unfolding update new_tracker
update_tells_only old new n m =
    let t = told (put_statuses old []) new n m in
    let b = kept_before (lookup t.task.id (put_statuses old [])) t.task.status t.kept in
    elim (known-Source t.task.id b.0 old [] b.1) [
      | inl s ↦ (
        t.task,
        record {
          in_new = t.member;
          before = s.task;
          in_old = s.member;
          same_id = s.same_id;
          changed = λ e. b.2 (sym s.same_status ∙ e);
          at_end = b.3;
        },
        t.is_for,
      )
      | inr k ↦ absurd (cc)
    ]

silent :
    (previous : Dict TaskStatus) (tasks : List TaskSnapshot)
    → ((task : TaskSnapshot) → Memᴰ task tasks → lookup task.id previous ≡ some task.status)
    → notify_each previous tasks ≡ []
unfolding notify_each
silent previous [] h = refl
silent previous (t ∷ ts) h = ground (
  arith,
  h t (Memᴰ.head refl),
  eq_status_iff t.status t.status,
  silent previous ts (λ task m. h task (Memᴰ.tail m)),
)

-- A list of tasks that comes again, with no two tasks of one id, tells nothing, whatever the tracker
-- knew before: no notification is repeated.
pub update_again :
    (tasks : List TaskSnapshot) (t : Tracker)
    → DistinctIds tasks
    → (update tasks (update tasks t).0).1 ≡ []
unfolding update new_tracker
update_again tasks t distinct =
    silent (put_statuses tasks []) tasks (λ task m. lookup-put_statuses task tasks [] distinct m)
