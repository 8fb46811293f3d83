-- ===== src/Core/Scheduler/Steps.antt =====
-- The scheduler as a transition system: a step is one critical section, and the goroutines of the
-- program take turns in any order. The locks that keep some sections apart are left out, so there
-- are more runs here than the program has.
pub mod Shutdown
pub mod Overtaking
use godown.Base.{
  ℕ, ◌≤◌, ◌≡◌, refl, Bool, false, Option, none, some, List, [], ◌∷◌, String, Dict, arith, has,
  drop_first,
}
use godown.Base.Int.{ℤ}
use godown.Core.Task.{Task, ProgressUpdate}
use godown.Core.Output.{Error, Result, Host}
use godown.Core.Scheduler.{Scheduler, Worker, count_running, new_scheduler, save_timer_fires}
use godown.Core.Scheduler.Counting.{live_in_slot}
use godown.Core.Scheduler.Invariant.{IsValid}
use godown.Core.Scheduler.Control.{
  load, set_max_running, add, toggle_pause, start_all, pause_all, remove, stop_begin, stop_finish,
}
use godown.Core.Scheduler.Runs.{begin_run, report, finish_run}
use godown.Core.Scheduler.Edits.{redownload_begin, redownload_commit, edit_begin, edit_commit}
use godown.Core.Scheduler.Preservation.{
  set_max_running-IsValid, toggle_pause-IsValid, start_all-IsValid, remove-IsValid,
}
use godown.Core.Scheduler.Pausing.{pause_all-IsValid, stop_begin-IsValid}
use godown.Core.Scheduler.Lifecycle.{
  load-IsValid, add-IsValid, begin_run-IsValid, report-IsValid, finish_run-IsValid,
}
use godown.Core.Scheduler.Editing.{
  redownload_begin-IsValid, redownload_commit-IsValid, edit_begin-IsValid, edit_commit-IsValid,
  stop_finish-IsValid, save_timer_fires-IsValid,
}

-- The file system of a step is the one that it finds.
pub data Step : Scheduler → Scheduler → Type 0 where
  loads :
      (host : Host) (stored : Result (List Task)) (s : Scheduler) → Step s (load host stored s).0
  adds :
      (host : Host) (t : Task) (s : Scheduler) → has t.id s.running ≡ false → Step s (add host t s)
  sets_max : (host : Host) (n : ℤ) (s : Scheduler) → Step s (set_max_running host n s)
  toggles : (host : Host) (id : String) (s : Scheduler) → Step s (toggle_pause host id s).0
  starts_all : (host : Host) (s : Scheduler) → Step s (start_all host s)
  pauses_all : (host : Host) (s : Scheduler) → Step s (pause_all host s)
  removes : (host : Host) (id : String) (s : Scheduler) → Step s (remove host id s).0
  stops : (s : Scheduler) → Step s (stop_begin s)
  stopped : (s : Scheduler) → Step s (stop_finish s)
  begins : (id : String) (s : Scheduler) → Step s (begin_run id s).0
  reports :
      (host : Host) (id : String) (u : ProgressUpdate) (s : Scheduler) → Step s (report host id u s)
  finishes :
      (host : Host) (id : String) (outcome : Option Error) (s : Scheduler)
      → Step s (finish_run host id outcome s)
  redownload_begins : (id : String) (s : Scheduler) → Step s (redownload_begin id s).0
  redownload_commits :
      (host : Host) (id : String) (copy : Task) (s : Scheduler)
      → Step s (redownload_commit host id copy s).0
  edit_begins : (host : Host) (id : String) (s : Scheduler) → Step s (edit_begin host id s).0
  edit_commits :
      (host : Host) (id : String) (resume : Bool) (original : Task) (epoch : ℕ)
      (outcome : Result Task) (s : Scheduler)
      → Step s (edit_commit host id resume (original, epoch) outcome s).0
  saves : (s : Scheduler) → Step s (save_timer_fires s)
  -- The user interface takes the oldest event from the channel.
  receives : (s : Scheduler) → Step s (record s { events = drop_first s.events })

pub data Reach (s : Scheduler) : Scheduler → Type 0 where
  here : Reach s s
  next : {t u : Scheduler} → Reach s t → Step t u → Reach s u

-- Every step of any goroutine keeps the invariant: the maps agree, and no more than `max_running`
-- slots are taken by tasks that are shown as running.
pub Step-IsValid : {s t : Scheduler} → Step s t → IsValid s → IsValid t
Step-IsValid (loads host stored s) v = load-IsValid host stored s v
Step-IsValid (adds host t s free) v = add-IsValid host t s free v
Step-IsValid (sets_max host n s) v = set_max_running-IsValid host n s v
Step-IsValid (toggles host id s) v = toggle_pause-IsValid host id s v
Step-IsValid (starts_all host s) v = start_all-IsValid host s v
Step-IsValid (pauses_all host s) v = pause_all-IsValid host s v
Step-IsValid (removes host id s) v = remove-IsValid host id s v
Step-IsValid (stops s) v = stop_begin-IsValid s v
Step-IsValid (stopped s) v = stop_finish-IsValid s v
Step-IsValid (begins id s) v = begin_run-IsValid id s v
Step-IsValid (reports host id u s) v = report-IsValid host id u s v
Step-IsValid (finishes host id outcome s) v = finish_run-IsValid host id outcome s v
Step-IsValid (redownload_begins id s) v = redownload_begin-IsValid id s v
Step-IsValid (redownload_commits host id copy s) v = redownload_commit-IsValid host id copy s v
Step-IsValid (edit_begins host id s) v = edit_begin-IsValid host id s v
Step-IsValid (edit_commits host id resume original epoch outcome s) v =
    edit_commit-IsValid host id resume original epoch outcome s v
Step-IsValid (saves s) v = save_timer_fires-IsValid s v
Step-IsValid (receives s) v = record {
  kept = record { distinct = v.kept.distinct; keyed = v.kept.keyed; listed = v.kept.listed };
  bounded = v.bounded;
}

pub new_scheduler-IsValid :
    (registry : Dict Worker) (has_store : Bool) (n : ℤ)
    → IsValid (new_scheduler registry has_store n)
unfolding new_scheduler count_running
new_scheduler-IsValid registry has_store n = record {
  kept = record { distinct = tt; keyed = λ id t e. cc; listed = λ id h. cc };
  bounded = omega arith;
}

Reach-IsValid : {s t : Scheduler} → Reach s t → IsValid s → IsValid t
Reach-IsValid here v = v
Reach-IsValid (next r st) v = Step-IsValid st (Reach-IsValid r v)

-- Whatever the goroutines do, in any order and from the start of the program, at most `max_running`
-- of the tasks that take a slot and have a worker are shown as running or seeding.
pub live_slots_bounded :
    (registry : Dict Worker) (has_store : Bool) (n : ℤ) (s : Scheduler)
    → Reach (new_scheduler registry has_store n) s
    → count_running live_in_slot s.tasks s.running ≤ s.max_running
live_slots_bounded registry has_store n s r =
    (Reach-IsValid r (new_scheduler-IsValid registry has_store n)).bounded
