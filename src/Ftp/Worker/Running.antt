-- ===== src/Ftp/Worker/Running.antt =====
-- How a task that was parsed runs.
use godown.Base.{
  ℕ, ◌≡◌, refl, ◌∙◌, ap, Bool, true, false, Option, none, some, List, ◌⊎◌, inl, inr, String,
  if◌then◌else◌,
}
use godown.Base.Int.{ℤ, pos, ltb_ℤ}
use godown.Core.Task.{Task}
use godown.Core.Output.{Error, Result, ok, err, Host, output_file}
use godown.Ftp.Names.{Unicode}
use godown.Ftp.Names.Safe.{IsPlain}
use godown.Ftp.Listing.{accepted, DirectoryEntry, list_directory}
use godown.Ftp.Run.{Finished, run}
use godown.Ftp.Run.Ending.{found_size, IsWhole, run-IsWhole}
use godown.Ftp.Directory.{Paths, DirectoryRun, markers_of, run_directory}
use godown.Ftp.Directory.Fetching.{IsRun}
use godown.Ftp.Directory.Whole.{run_directory-IsRun}
use godown.Ftp.Source.{Web, SourceInfo, parse_source, source_from_task}
use godown.Ftp.Source.Parse.{Answers, Fresh, parse}
use godown.Ftp.Source.Kept.{IsWeb, IsDirectoryTask}
use godown.Ftp.Source.Parsed.{parse-IsParsed}
use godown.Ftp.Worker.{
  Meets, Worked, not_started, one_file, whole_directory, run_source, run_worker,
}

abbrev pick_run : Option Error → Bool → Worked → Worked → Worked
pick_run x b d f = elim x [ some e ↦ not_started e | none ↦ if b then d else f ]

picks_run :
    (x : Option Error) (b : Bool) (d f : Worked)
    → ((e : Error) × (x ≡ some e) × (pick_run x b d f ≡ not_started e))
      ⊎ (pick_run x b d f ≡ (if b then d else f))
picks_run none b d f = inr refl
picks_run (some e) b d f = inl (e, refl, refl)

module _ (web : Web) (unicode : Unicode) (paths : Paths) (host : Host)
    (decode : String → Result (List DirectoryEntry)) where
  -- A file that was downloaded.
  pub record IsFileRun (t : Task) (m : Meets) (x : Worked) : Type 0 where
    pub file : Finished
    pub worked : x ≡ one_file file
    pub whole : IsWhole (ltb_ℤ (pos 0) t.file_size) t.file_size (found_size m.partial) file

  -- A directory over the entries that its listing had.
  pub record IsListingRun (info : SourceInfo) (a : Answers) (t : Task) (x : Worked) : Type 0 where
    pub entries : List DirectoryEntry
    pub total : ℕ
    pub listed :
        list_directory unicode web.clean a.probe
          (web.letters info.remote_path)
          a.walked
          a.walk_failed
        ≡ accepted (entries, total)
    pub directory : DirectoryRun
    pub worked : x ≡ whole_directory directory
    pub over :
        IsRun unicode paths
          (paths.letters t.path)
          (paths.letters (output_file host t))
          (markers_of unicode paths host t)
          (web.letters info.remote_path)
          t.file_size
          t.stage.max_retries
          0
          entries
          directory

  runs_source :
      (t : Task) (m : Meets) (info : SourceInfo)
      → source_from_task web t ≡ ok info
      → run_worker web unicode paths host decode t m
        ≡ run_source web unicode paths host decode t m info
  unfolding run_worker
  runs_source t m info h =
      ap
        (λ (r : Result SourceInfo). elim r [
          | err e ↦ not_started e
          | ok i ↦ run_source web unicode paths host decode t m i
        ])
        h

  abbrev file_of : Task → Meets → Finished
  file_of t m = run t.file_size t.stage.max_retries m.partial m.cut_error m.attempts m.finish

  abbrev directory_of : Task → Meets → SourceInfo → DirectoryRun
  directory_of t m info =
      run_directory unicode paths host decode t (web.letters info.remote_path) m.entering m.visits

  source_chooses :
      (t : Task) (m : Meets) (info : SourceInfo)
      → ((e : Error) × (m.mkdir_error ≡ some e)
          × (run_source web unicode paths host decode t m info ≡ not_started e))
        ⊎ (run_source web unicode paths host decode t m info ≡ (
            if info.directory
            then whole_directory (directory_of t m info)
            else one_file (file_of t m)))
  unfolding run_source
  source_chooses t m info =
      picks_run m.mkdir_error info.directory (whole_directory (directory_of t m info))
        (one_file (file_of t m))

  file-run :
      (t : Task) (m : Meets) (info : SourceInfo) (x : Worked)
      → x ≡ one_file (file_of t m)
      → IsFileRun t m x
  file-run t m info x e = record {
    file = file_of t m;
    worked = e;
    whole = run-IsWhole t.file_size t.stage.max_retries m.partial m.cut_error m.attempts m.finish;
  }

  listing-run :
      (a : Answers) (t : Task) (m : Meets) (info : SourceInfo) (clean_url : String) (x : Worked)
      → IsPlain unicode
      → IsDirectoryTask web info clean_url unicode a decode t
      → x ≡ whole_directory (directory_of t m info)
      → IsListingRun info a t x
  listing-run a t m info clean_url x plain task e = record {
    entries = task.entries;
    total = task.total;
    listed = task.listed;
    directory = directory_of t m info;
    worked = e;
    over =
        run_directory-IsRun unicode paths host decode t (web.letters info.remote_path) m.entering
          m.visits task.entries plain task.stored;
  }

  module _ (is_web : IsWeb web) (plain : IsPlain unicode)
      (encode : List DirectoryEntry → Result String)
      (reads : (entries : List DirectoryEntry) (text : String)
        → encode entries ≡ ok text
        → decode text ≡ ok entries) where
    -- A task that a parse gives, in every run of it: the run does not start, since its directory
    -- cannot be made; or it is that of a file, which is counted and, if it gives no error, whole
    -- and moved to its place; or it is that of a directory, over the very entries that the listing
    -- of the parse accepted, below the remote path that was parsed, of which it leaves out none
    -- unless it ends with an error or with more attempts than are given. It is assumed that a host
    -- with a port and a cleaned path are not empty, that the timeout and the JSON of a listing are
    -- read as they were written, that the underscore is its own upper case, and that of `download`
    -- no device.
    pub parsed_runs :
        (source download_dir proxy_url : String) (max_retries : ℤ) (fresh : Fresh) (a : Answers)
        → (t : Task) (m : Meets)
        → parse web unicode encode source download_dir proxy_url max_retries fresh a ≡ ok t
        → (info : SourceInfo) × (clean_url : String) × (parse_source web source
            ≡ ok (info, clean_url))
          × (((e : Error) × (m.mkdir_error ≡ some e)
                × (run_worker web unicode paths host decode t m ≡ not_started e))
              ⊎ IsFileRun t m (run_worker web unicode paths host decode t m)
              ⊎ IsListingRun info a t (run_worker web unicode paths host decode t m))
    parsed_runs source download_dir proxy_url max_retries fresh a t m h =
        let of =
          parse-IsParsed web is_web unicode encode decode reads source download_dir proxy_url
            max_retries fresh a t h in
        (
          of.info,
          of.clean_url,
          of.parsed,
          elim of.kept [
            | inl (file, _) ↦
                let info = record of.info { directory = false } in
                let starts = runs_source t m info file.source in
                elim (source_chooses t m info) [
                  | inl (e, failed, not_there) ↦ inl (e, failed, starts ∙ not_there)
                  | inr runs ↦ inr (inl (file-run t m info _ (starts ∙ runs)))
                ]
            | inr directory ↦
                let info = record of.info { directory = true } in
                let starts = runs_source t m info directory.source in
                elim (source_chooses t m info) [
                  | inl (e, failed, not_there) ↦ inl (e, failed, starts ∙ not_there)
                  | inr runs ↦ inr (
                      inr
                        (listing-run a t m of.info of.clean_url _ plain directory (starts ∙ runs)))
                ]
          ],
        )
