-- ===== src/Tests/Data.antt =====
-- A file system and tasks for the tests.
use godown.Base.{ℕ, true, false, none, [], ◌∷◌, String, Dict, concat, str_eq, if◌then◌else◌}
use godown.Base.Int.{pos}
use godown.Core.Task.{Task, Stage, TaskStatus, zero_percent}
use godown.Core.Output.{Host, ok, entry, missing}
use godown.Core.Task.{clone_string_map, clone_task}
use godown.Core.Output.{prepare_ftp_directory_output}
use godown.Core.Scheduler.{
  Worker, new_scheduler, start_run, set_status, pause_task, cancel_run, schedule, schedule_waiting,
  count_running, enforce_max_running, schedule_save, save, emit, snapshot,
}
use godown.Core.Scheduler.Control.{
  put_task, add, toggle_pause, start_all, pause_all, start_each, pause_each, pause_running,
  cancel_each, remove, set_max_running, stop_begin, stop_finish, load,
}
use godown.Core.Scheduler.Runs.{begin_run, report, apply_update, settle, finish_run}

-- What a test of the scheduler has to compute with.
unfoldable pub machine : Unit {0}
unfolding clone_string_map clone_task prepare_ftp_directory_output new_scheduler start_run
    set_status pause_task cancel_run schedule schedule_waiting count_running enforce_max_running
    schedule_save save emit snapshot put_task add toggle_pause start_all pause_all start_each
    pause_each pause_running cancel_each remove set_max_running stop_begin stop_finish load
    begin_run report apply_update settle finish_run
machine = tt

-- Paths are clean as they stand, and `rel` gives a path that stays inside.
abbrev pub host : Host
host = record {
  abs_clean = λ p. ok p;
  rel = λ base target. ok (if str_eq base target then "." else target);
  join = λ a b. concat (concat a "/") b;
  separator = "/";
  equal_fold = str_eq;
  trim_space = λ s. s;
  lstat = λ p. if str_eq p "/d/taken" then entry true false false else missing;
  read_file = λ p. ok "";
  remove_all = λ p. none;
  remove = λ p. none;
  error_text = λ e. "error";
}

abbrev pub registry : Dict Worker
registry = ("http", record { reset_task = none }) ∷ ("bt", record { reset_task = none }) ∷ []

abbrev pub stage_of : TaskStatus → Stage
stage_of status = record {
  id = "stg";
  index = 1;
  kind = "http";
  status = status;
  progress = zero_percent;
  received = pos 0;
  speed = pos 0;
  error = "";
  url = "http://example";
  file_size = pos 10;
  headers = none;
  proxy_url = "";
  block_num = pos 8;
  max_retries = pos 3;
  supports_range = true;
  state = none;
}

abbrev pub task_of : String → ℕ → TaskStatus → Task
task_of id created status = record {
  id = id;
  pack_id = "http";
  title = id;
  url = "http://example";
  status = status;
  path = "/d";
  file_size = pos 10;
  received = pos 0;
  speed = pos 0;
  progress = zero_percent;
  detail = "";
  created_at = created;
  error = "";
  uses_slot = true;
  stage = stage_of status;
}
