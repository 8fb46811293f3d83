-- ===== src/Tests/Storing.antt =====
-- Stored tasks, edits and cleanups on concrete inputs.
use godown.Base.{◌≡◌, arith, refl, true, none, some, List, [], ◌∷◌, lookup, first}
use godown.Base.Int.{pos}
use godown.Core.Task.{Task, running, waiting, paused, is_live}
use godown.Core.Output.{Error, ok}
use godown.Core.Scheduler.{Scheduler, new_scheduler, pause_if, save}
use godown.Core.Cleanup.{cleanup_files}
use godown.Core.Cleanup.Ownership.{AllOwned, cleanup_files-AllOwned}
use godown.Core.Scheduler.Control.{add, load, pause_all, output_paths}
use godown.Core.Scheduler.Edits.{edit_snapshot, edit_commit}
use godown.Core.Scheduler.Steps.{here, next, pauses_all}
use godown.Core.Scheduler.Steps.Overtaking.{overtaken_edit_does_nothing}
use godown.Core.Scheduler.Storing.{load-save}
use godown.Tests.Data.{host, registry, task_of, machine}
use godown.Tests.Scheduling.{one_task, two_tasks}

abbrev running_task : Task
running_task = record (task_of "a" 1 waiting) {
  status = running;
  stage = record (task_of "a" 1 waiting).stage { status = running };
}

-- A directory task of FTP, whose output is its own, behind the task that runs.
abbrev directory_task : Task
directory_task = record (task_of "f" 2 paused) {
  pack_id = "ftp";
  stage = record (task_of "f" 2 paused).stage {
    kind = "ftp";
    state = some (("directory", "true") ∷ []);
  };
}

abbrev shelf : Scheduler
shelf = add host directory_task one_task

load-save_example :
    (stored : List Task) × (first (save shelf).saves ≡ some stored)
    × ((load host (ok stored) (new_scheduler registry true (pos 2))).1 ≡ none)
    × ((load host (ok stored) (new_scheduler registry true (pos 2))).0.order ≡ "a" ∷ "f" ∷ [])
    × (lookup "f" (load host (ok stored) (new_scheduler registry true (pos 2))).0.tasks
        ≡ some (pause_if is_live directory_task))
unfolding machine output_paths
load-save_example =
    load-save host registry (pos 2) shelf "f" directory_task refl refl
      (refl, (running_task, refl, refl), (refl, (directory_task, refl, refl), tt))
      (refl, (refl, tt)) refl refl

-- An editor of the waiting task "b" has changed its address; PauseAll came meanwhile.
abbrev edited : Task
edited = record (task_of "b" 2 waiting) { url = "http://mirror" }

overtaken_edit_does_nothing_example :
    (e : Error) × (edit_commit host "b" true
        (task_of "b" 2 waiting, 0)
        (ok edited)
        (pause_all host two_tasks)
      ≡ (pause_all host two_tasks, some e))
unfolding machine edit_snapshot
overtaken_edit_does_nothing_example =
    overtaken_edit_does_nothing host "b" true (task_of "b" 2 waiting) 0 (ok edited)
      (next here (pauses_all host two_tasks)) (omega arith) refl (omega arith) (omega arith)

-- A torrent task, whose cleanup removes trees and a file.
abbrev torrent : Task
torrent = record (task_of "t" 1 waiting) { pack_id = "bt" }

cleanup_files-AllOwned_example : AllOwned host torrent (cleanup_files host torrent).0
cleanup_files-AllOwned_example = cleanup_files-AllOwned host torrent
