-- ===== src/Ftp/Worker.antt =====
-- internal/download/ftp/ftp.go: Run, for a file and for a directory.
pub mod Running
use godown.Base.{ℕ, Bool, true, false, Option, none, some, List, String, if◌then◌else◌}
use godown.Core.Task.{Task}
use godown.Core.Output.{Error, Result, ok, err, Host}
use godown.Ftp.Names.{Unicode}
use godown.Ftp.Listing.{DirectoryEntry}
use godown.Ftp.Run.{Attempt, PartStat, Finish, Finished, run}
use godown.Ftp.Directory.{Paths, Visit, DirectoryRun, Entering, run_directory}
use godown.Ftp.Source.{Web, SourceInfo, source_from_task}

-- What a run meets: the error of MkdirAll for task.Path, and what a file or a directory does.
pub record Meets : Type 0 where
  pub mkdir_error : Option Error
  pub partial : PartStat
  pub cut_error : Option Error
  pub attempts : List Attempt
  pub finish : Finish
  pub entering : Entering
  pub visits : ℕ → Visit

pub data Worked : Type 0 where
  not_started : Error → Worked
  one_file : Finished → Worked
  whole_directory : DirectoryRun → Worked

module _ (web : Web) (unicode : Unicode) (paths : Paths) (host : Host)
    (decode : String → Result (List DirectoryEntry)) where
  -- From the source of the task on.
  unfoldable pub run_source : Task → Meets → SourceInfo → Worked
  run_source t m info = elim m.mkdir_error [
    | some e ↦ not_started e
    | none ↦
        if info.directory
        then whole_directory (
            run_directory unicode paths host decode t (web.letters info.remote_path) m.entering
              m.visits)
        else one_file
            (run t.file_size t.stage.max_retries m.partial m.cut_error m.attempts m.finish)
  ]

  unfoldable pub run_worker : Task → Meets → Worked
  run_worker t m = elim (source_from_task web t) [
    | err e ↦ not_started e
    | ok info ↦ run_source t m info
  ]
