-- ===== src/Bridge/Session/Snapshots.antt =====
-- The snapshots of the tasks that a subscribed connection gets.
use godown.Base.{◌≡◌, refl, ap, ◌∙◌, false, some, List, [], ◌∷◌, ltb, arith}
use godown.Core.Task.{TaskSnapshot}
use godown.Core.Scheduler.{Scheduler, insert_newest, sort_newest, snapshot, collect}
use godown.Bridge.Reply.{rows_of}
use godown.Bridge.State.{System}
use godown.Bridge.Session.{task_snapshot_payload}

-- Newest first: no task was created before one that stands behind it.
abbrev pub IsNewestFirst : List TaskSnapshot → Type 0
IsNewestFirst [] = Unit {0}
IsNewestFirst (x ∷ []) = Unit {0}
IsNewestFirst (x ∷ y ∷ l) = (ltb x.created_at y.created_at ≡ false) × IsNewestFirst (y ∷ l)

insert_newest-IsNewestFirst :
    (x : TaskSnapshot) (l : List TaskSnapshot) → IsNewestFirst l → IsNewestFirst (insert_newest x l)
unfolding insert_newest
insert_newest-IsNewestFirst x [] sorted = tt
insert_newest-IsNewestFirst x (y ∷ []) sorted = ground arith
insert_newest-IsNewestFirst x (y ∷ z ∷ l) sorted =
    ground (arith, insert_newest-IsNewestFirst x (z ∷ l) sorted.1)

sort_newest-IsNewestFirst : (l : List TaskSnapshot) → IsNewestFirst (sort_newest l)
unfolding sort_newest
sort_newest-IsNewestFirst [] = tt
sort_newest-IsNewestFirst (x ∷ l) =
    insert_newest-IsNewestFirst x (sort_newest l) (sort_newest-IsNewestFirst l)

insert_newest_first :
    (x y : TaskSnapshot) (l : List TaskSnapshot)
    → ltb x.created_at y.created_at ≡ false
    → insert_newest x (y ∷ l) ≡ x ∷ y ∷ l
unfolding insert_newest
insert_newest_first x y l h = ground arith

sort_newest_sorted : (l : List TaskSnapshot) → IsNewestFirst l → sort_newest l ≡ l
unfolding sort_newest insert_newest
sort_newest_sorted [] sorted = refl
sort_newest_sorted (x ∷ []) sorted = refl
sort_newest_sorted (x ∷ y ∷ l) sorted =
    ap (insert_newest x) (sort_newest_sorted (y ∷ l) sorted.1) ∙ insert_newest_first x y l sorted.0

module _ (system : System) where
  -- The scheduler sorts its snapshot, and to sort it again changes nothing.
  pub payload_rows :
      (scheduler : Scheduler)
      → task_snapshot_payload system (some scheduler)
        ≡ rows_of system.host.join system.exists system.extension (snapshot system.host scheduler)
  unfolding task_snapshot_payload snapshot
  payload_rows scheduler =
      let listed = collect system.host scheduler.order scheduler.tasks in
      ap (rows_of system.host.join system.exists system.extension)
        (sort_newest_sorted (sort_newest listed) (sort_newest-IsNewestFirst listed))
