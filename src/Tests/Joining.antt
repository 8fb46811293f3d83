-- ===== src/Tests/Joining.antt =====
-- The application on concrete settings and titles.
use godown.Base.{
  ℕ, ◌≤◌, arith, ◌≡◌, refl, ◌⊎◌, true, false, none, some, List, [], ◌∷◌, concat, str_eq, ◌==◌,
  if◌then◌else◌,
}
use godown.Base.Int.{pos}
use godown.Core.Task.{Task, TaskSnapshot, waiting}
use godown.Core.Output.{message, ok, err, snapshot_of}
use godown.Config.Settings.{normalized, default_settings}
use godown.Bridge.Message.{CreateTaskRequest}
use godown.Http.Headers.{
  Strings, parse_headers, parse_lines, merge_cookies, normalize_cookies, cookies_of,
}
use godown.Http.Titles.{Paths, used_keys, candidate, with_copy_suffix, NoneBefore}
use godown.App.Settings.{
  AppState, Network, save_settings, IsChanged, IsUnchanged, save_settings_outcome,
}
use godown.App.Tasks.{
  Parsers, create_task_from_browser, task_from_browser, create_task_from_source, parse_source,
  settings_for, merge_headers,
}
use godown.App.Fresh.{IsFreshOutput, created-IsFreshOutput}
use godown.Tests.Data.{host, task_of}
use godown.Tests.Configuring.{env, no_blocks}
use godown.Tests.Bridging.{met, met-IsQuiet, opened, opened-IsServing}

abbrev state : AppState
state = record { bridge = opened; stored = []; current = default_settings env }

abbrev free_port : Network
free_port = record { listen = λ port. none; meeting = met }

save_settings_outcome_example :
    let r = save_settings env free_port free_port (some (message "disk full")) no_blocks state in
    IsChanged (normalized env no_blocks) state r ⊎ IsUnchanged state r
save_settings_outcome_example =
    save_settings_outcome env free_port free_port (some (message "disk full")) no_blocks state
      met-IsQuiet met-IsQuiet opened-IsServing

-- Two tasks have the title and its first copy; the file system is empty.
abbrev paths : Paths
paths = record {
  clean_join = λ a b. concat (concat a "/") b;
  to_lower = λ s. s;
  extension = λ s. "";
  trim_suffix = λ s ext. s;
  is_missing = λ s. true;
  decimal = λ n. if n == 1 then "1" else "2";
}

abbrev existing : List TaskSnapshot
existing =
    snapshot_of host (task_of "a" 1 waiting) ∷ snapshot_of host (task_of "a (1)" 2 waiting) ∷ []

abbrev strings : Strings
strings = record {
  split = λ s sep. [];
  fields_of = λ s. [];
  trim_space = λ s. s;
  trim_right = λ s. s;
  cut = λ s sep. none;
  equal_fold = str_eq;
  is_control = λ s. false;
  join = λ l. "";
}

abbrev parsers : Parsers
parsers = record {
  is_bt = λ s. false;
  is_ftp = λ s. false;
  is_manifest = λ s. false;
  resolve_bt = λ s o. err (message "no torrent");
  parse_ftp = λ s d p n. err (message "no address");
  parse_m3u8 = λ s o h. err (message "no manifest");
  parse_http = λ s d b n p h. ok (task_of "a" 3 waiting);
  new_merge_task = λ t p r s. err (message "no merge");
  parse_trackers = λ s. [];
  header_error = λ e. message "header";
  plugin_error = λ p. message "plugin";
}

abbrev request : CreateTaskRequest
request = record {
  url = "http://example";
  title = "";
  path = "";
  headers = none;
  resources = [];
  size = pos 0;
  supports_range = true;
  pre_block_num = pos 4;
  source = "";
}

abbrev asked : Task
asked = task_of "a" 3 waiting

created-IsFreshOutput_example :
    (j : ℕ) × (j ≤ 2)
    × (create_task_from_browser strings
          (λ s. s)
          (λ s. s)
          parsers
          none
          (default_settings env)
          paths
          3
          (some existing)
          request
        ≡ some (ok (record asked { title = candidate paths "a" j })))
    × IsFreshOutput paths existing (record asked { title = candidate paths "a" j })
    × NoneBefore paths j "a" "/d" (used_keys paths existing)
unfolding task_from_browser create_task_from_source parse_source settings_for merge_headers
    parse_headers parse_lines merge_cookies normalize_cookies cookies_of used_keys candidate
    with_copy_suffix snapshot_of
created-IsFreshOutput_example =
    created-IsFreshOutput strings (λ s. s) (λ s. s) parsers none (default_settings env) paths 3
      existing request asked 2 refl refl (omega arith)
