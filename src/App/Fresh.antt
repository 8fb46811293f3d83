-- ===== src/App/Fresh.antt =====
-- The title of a task that is made of a request of the browser.
use godown.Base.{ℕ, suc, ◌≤◌, ◌≡◌, true, false, Option, some, List, String, mem, arith, concat}
use godown.Config.Settings.{Settings}
use godown.Core.Task.{Task, TaskSnapshot}
use godown.Core.Output.{Result, ok}
use godown.Bridge.Message.{CreateTaskRequest}
use godown.Http.Headers.{Strings}
use godown.Http.Titles.{
  Paths, key_of, used_keys, is_available, candidate, NoneBefore, deduplicate_title,
  deduplicate_ends,
}
use godown.Plugins.Manifest.{ParseParams}
use godown.Plugins.Manager.{Resolution}
use godown.App.Tasks.{Parsers, retitled, task_from_browser, create_task_from_browser}

-- No task that the scheduler had has the path with the title of this one, as the code compares
-- them, and no file has its name.
pub record IsFreshOutput (paths : Paths) (existing : List TaskSnapshot) (t : Task) : Type 0 where
  pub unused : mem (key_of paths t.path t.title) (used_keys paths existing) ≡ false
  pub no_file : paths.is_missing (paths.clean_join t.path t.title) ≡ true
  pub no_record : paths.is_missing (concat (paths.clean_join t.path t.title) ".ghd") ≡ true

available-IsFreshOutput :
    (paths : Paths) (existing : List TaskSnapshot) (t : Task)
    → is_available paths t.path (used_keys paths existing) t.title ≡ true
    → IsFreshOutput paths existing t
available-IsFreshOutput paths existing t h = record {
  unused = ground arith;
  no_file = ground arith;
  no_record = ground arith;
}

module _ (strings : Strings) (replace_unsafe trim_dots : String → String) (parsers : Parsers)
    (plugins : Option (ParseParams → Resolution)) (settings : Settings) (paths : Paths) (rounds : ℕ)
    (existing : List TaskSnapshot) (request : CreateTaskRequest) where
  abbrev created : Option (Result Task)
  created =
      create_task_from_browser strings replace_unsafe trim_dots parsers plugins settings paths
        rounds (some existing) request

  creates :
      (u : Task) (title : String)
      → task_from_browser strings replace_unsafe trim_dots parsers plugins settings request ≡ ok u
      → deduplicate_title paths rounds u.title u.path existing ≡ some title
      → created ≡ some (ok (record u { title = title }))
  unfolding create_task_from_browser retitled
  creates u title made found = ground (arith, made, found)

  -- Where a task is made of a request of the browser, by whatever parser or plugin, and one of the
  -- titles that the search goes through is free, the search ends by then: the task is given, with
  -- the first title under which, in the task's directory, no task of the scheduler stood when it was
  -- made and no file and no record of parts. The titles of tasks are compared in their directories,
  -- as the code does, which is not where a directory task of FTP that was moved is found.
  pub created-IsFreshOutput :
      (u : Task) (n : ℕ)
      → task_from_browser strings replace_unsafe trim_dots parsers plugins settings request ≡ ok u
      → is_available paths u.path (used_keys paths existing) (candidate paths u.title n) ≡ true
      → suc n ≤ rounds
      → (j : ℕ) × (j ≤ n)
        × (created ≡ some (ok (record u { title = candidate paths u.title j })))
        × IsFreshOutput paths existing (record u { title = candidate paths u.title j })
        × NoneBefore paths j u.title u.path (used_keys paths existing)
  created-IsFreshOutput u n made free enough =
      let (j, near, found, now, first) =
        deduplicate_ends paths u.title u.path existing n rounds free enough in
      (
        j,
        near,
        creates u (candidate paths u.title j) made found,
        available-IsFreshOutput paths existing (record u { title = candidate paths u.title j }) now,
        first,
      )
