-- ===== src/Tests/Scheduling.antt =====
-- The scheduler on concrete inputs.
use godown.Base.{◌≤◌, ◌≡◌, refl, ◌⊎◌, true, false, has}
use godown.Base.Int.{pos}
use godown.Core.Task.{waiting}
use godown.Core.Scheduler.{
  Scheduler, count_running, running_slot_count, new_scheduler, schedule_waiting,
}
use godown.Core.Scheduler.Counting.{live_in_slot}
use godown.Core.Scheduler.Saturation.{schedule_waiting_saturates}
use godown.Core.Scheduler.Control.{add, stop_begin, start_all}
use godown.Core.Scheduler.Steps.{Reach, here, next, adds, starts_all, live_slots_bounded}
use godown.Core.Scheduler.Steps.Shutdown.{stop_begin_starts_nothing}
use godown.Tests.Data.{host, registry, task_of, machine}

abbrev pub empty : Scheduler
empty = new_scheduler registry true (pos 1)

abbrev pub one_task : Scheduler
one_task = add host (task_of "a" 1 waiting) empty

abbrev pub two_tasks : Scheduler
two_tasks = add host (task_of "b" 2 waiting) one_task

-- With one slot the first task runs and the second waits.
first_runs : has "a" two_tasks.running ≡ true
unfolding machine
first_runs = refl

second_waits : has "b" two_tasks.running ≡ false
unfolding machine
second_waits = refl

two_tasks-Reach : Reach (new_scheduler registry true (pos 1)) two_tasks
unfolding machine
two_tasks-Reach =
    next (next here (adds host (task_of "a" 1 waiting) empty refl))
      (adds host (task_of "b" 2 waiting) one_task refl)

live_slots_bounded_example :
    count_running live_in_slot two_tasks.tasks two_tasks.running ≤ two_tasks.max_running
live_slots_bounded_example = live_slots_bounded registry true (pos 1) two_tasks two_tasks-Reach

schedule_waiting_saturates_example :
    (has "b" (schedule_waiting two_tasks).running ≡ true)
    ⊎ ((true ≡ true)
        × ((schedule_waiting two_tasks).max_running
            ≤ running_slot_count (schedule_waiting two_tasks)))
unfolding machine
schedule_waiting_saturates_example =
    schedule_waiting_saturates two_tasks "b" (task_of "b" 2 waiting) refl refl refl refl

stop_begin_starts_nothing_example :
    ((start_all host (stop_begin two_tasks)).stopping ≡ true)
    × ((start_all host (stop_begin two_tasks)).next_serial ≡ two_tasks.next_serial)
stop_begin_starts_nothing_example =
    stop_begin_starts_nothing two_tasks (start_all host (stop_begin two_tasks))
      (next here (starts_all host (stop_begin two_tasks)))
