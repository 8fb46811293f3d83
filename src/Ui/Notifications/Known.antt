-- ===== src/Ui/Notifications/Known.antt =====
-- What the tracker knows of a task is its status in the last list.
use godown.Base.{
  ◌≡◌, refl, sym, subst, ◌↔◌, ◌⊎◌, inl, inr, Bool, true, false, ◌||◌, some, List, [], ◌∷◌, String,
  arith, str_eq, eq_iff, Dict, lookup, lookup-insert, Bool-cases,
}
use godown.Core.Task.{TaskStatus, other, TaskSnapshot}
use godown.Ui.Notifications.{eq_status, put_status, put_statuses}
use mathlib.Core.List.{Memᴰ}

pub eq_status_iff : (a b : TaskStatus) → (eq_status a b ≡ true) ↔ (a ≡ b)
eq_status_iff (other a) (other b) = ground (arith, eq_iff a b)
eq_status_iff a b = ground arith

abbrev pub has_id : String → List TaskSnapshot → Bool
has_id id [] = false
has_id id (task ∷ tasks) = str_eq task.id id || has_id id tasks

-- No two tasks of a list have one id.
abbrev pub DistinctIds : List TaskSnapshot → Type 0
DistinctIds [] = Unit {0}
DistinctIds (task ∷ tasks) = (has_id task.id tasks ≡ false) × DistinctIds tasks

has_id-member :
    (task : TaskSnapshot) (tasks : List TaskSnapshot)
    → Memᴰ task tasks
    → has_id task.id tasks ≡ true
has_id-member task [] m = elim m [ ]
has_id-member task (t ∷ ts) (Memᴰ.head e) = ground (arith, eq_iff t.id task.id, e)
has_id-member task (t ∷ ts) (Memᴰ.tail m) = ground (arith, has_id-member task ts m)

lookup-put_statuses_absent :
    (id : String) (tasks : List TaskSnapshot) (m : Dict TaskStatus)
    → has_id id tasks ≡ false
    → lookup id (put_statuses tasks m) ≡ lookup id m
lookup-put_statuses_absent id [] m h = refl
lookup-put_statuses_absent id (t ∷ ts) m h =
    ground
      (arith, lookup-put_statuses_absent id ts (put_status t m), lookup-insert t.id id t.status m)

pub lookup-put_statuses :
    (task : TaskSnapshot) (tasks : List TaskSnapshot) (m : Dict TaskStatus)
    → DistinctIds tasks
    → Memᴰ task tasks
    → lookup task.id (put_statuses tasks m) ≡ some task.status
lookup-put_statuses task [] m d i = elim i [ ]
lookup-put_statuses task (t ∷ ts) m d (Memᴰ.tail i) =
    lookup-put_statuses task ts (put_status t m) d.1 i
lookup-put_statuses task (t ∷ ts) m d (Memᴰ.head e) =
    subst (λ (x : TaskSnapshot). lookup x.id (put_statuses ts (put_status t m)) ≡ some x.status)
      (sym e)
      (ground (
        arith,
        lookup-put_statuses_absent t.id ts (put_status t m) d.0,
        lookup-insert t.id t.id t.status m,
        eq_iff t.id t.id,
      ))

-- A known status comes from a task.
pub record Source (id : String) (status : TaskStatus) (tasks : List TaskSnapshot) : Type 0 where
  pub task : TaskSnapshot
  pub member : Memᴰ task tasks
  pub same_id : task.id ≡ id
  pub same_status : task.status ≡ status

pub known-Source :
    (id : String) (status : TaskStatus) (tasks : List TaskSnapshot) (m : Dict TaskStatus)
    → lookup id (put_statuses tasks m) ≡ some status
    → Source id status tasks ⊎ (lookup id m ≡ some status)
known-Source id status [] m h = inr h
known-Source id status (t ∷ ts) m h = elim (known-Source id status ts (put_status t m) h) [
  | inl s ↦ inl (record {
    task = s.task;
    member = Memᴰ.tail s.member;
    same_id = s.same_id;
    same_status = s.same_status;
  })
  | inr k ↦ elim (Bool-cases (str_eq t.id id)) [
    | inl same ↦ inl (record {
      task = t;
      member = Memᴰ.head refl;
      same_id = (eq_iff t.id id).0 same;
      same_status = ground (arith, lookup-insert t.id id t.status m);
    })
    | inr differs ↦ inr (ground (arith, lookup-insert t.id id t.status m))
  ]
]
