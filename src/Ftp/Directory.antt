-- ===== src/Ftp/Directory.antt =====
-- internal/download/ftp/ftp.go: runDirectory, directoryOutputPath and remoteChild.
pub mod Checking
pub mod Done
pub mod Fetching
pub mod Whole
use godown.Base.{
  ℕ, suc, ◌+◌, Bool, true, false, not, ◌&&◌, ◌||◌, Option, none, some, List, [], ◌∷◌, ◌++◌, String,
  ◌==◌, concat, if◌then◌else◌,
}
use godown.Base.Int.{ℤ, pos, negsuc, ltb_ℤ, ◌+ℤ◌}
use godown.Core.Task.{Task, ProgressUpdate, full_percent, read}
use godown.Core.Output.{Error, message, Result, ok, err, ◌>>=◌, Host, output_file}
use godown.Ftp.Names.{Text, Unicode, slash, is_empty, in_text, eq_text}
use godown.Ftp.Listing.{
  refused, accepted, Seen, safe_relative_path, DirectoryEntry, trimmed_prefix, with_slash,
}
use godown.Ftp.Transfer.{progress_update, End, returned, open_ended}
use godown.Ftp.Run.{Attempt, PartStat, Finish, Finished, OutputStat, download_directory_file}
use godown.Ftp.Root.{Making, unless, prepare_directory_root}

-- The path functions of the platform, on texts.
pub record Paths : Type 0 where
  pub clean : Text → Text  -- path.Clean
  pub from_slash : Text → Text  -- filepath.FromSlash
  pub join : Text → Text → Text  -- filepath.Join
  pub abs_clean : Text → Result Text  -- filepath.Abs(filepath.Clean(p))
  pub rel : Text → Text → Result Text  -- filepath.Rel
  pub separator : Text
  pub letters : String → Text  -- the code points of a string
  pub spell : Text → String

abbrev pub is_absolute : Text → Bool
is_absolute [] = false
is_absolute (c ∷ s) = c == slash

abbrev pub has_prefix : Text → Text → Bool
has_prefix prefix s = elim (trimmed_prefix prefix s) [ none ↦ false | some rest ↦ true ]

abbrev dot : Text
dot = b'.' ∷ []

abbrev dots : Text
dots = b'.' ∷ b'.' ∷ []

abbrev complete_suffix : Text
complete_suffix = b'.' ∷ b'c' ∷ b'o' ∷ b'm' ∷ b'p' ∷ b'l' ∷ b'e' ∷ b't' ∷ b'e' ∷ []

abbrev pub invalid_item : Error
invalid_item = message "FTP 目录清单项无效"

module _ (paths : Paths) where
  abbrev pub leaves_root : Text → Bool
  leaves_root relative =
      eq_text relative dot || eq_text relative dots || has_prefix (dots ++ paths.separator) relative

  unfoldable pub directory_output_path : Text → Text → Result Text
  directory_output_path root relative =
      if is_empty relative || is_absolute relative || in_text b'\\' relative
      then err (message "FTP 目录项本地路径无效")
      else do
        root' ← paths.abs_clean root
        target ← paths.abs_clean (paths.join root (paths.from_slash relative))
        relative' ← paths.rel root' target
        if leaves_root relative' then err (message "FTP 目录项本地路径越界") else ok target

  unfoldable pub remote_child : Text → Text → Bool
  remote_child root candidate =
      has_prefix (with_slash (paths.clean root)) (paths.clean candidate)
      && not (eq_text (paths.clean candidate) (paths.clean root))

-- What is met at an entry: the context's error, that of MkdirAll for it or for what is above it, and
-- what its download meets.
pub record Visit : Type 0 where
  pub context_error : Option Error
  pub mkdir_error : Option Error
  pub output : OutputStat
  pub partial : PartStat
  pub cut_error : Option Error
  pub attempts : List Attempt
  pub finish : Finish

-- A run of the loop: the files that it downloaded, and what it met there.
pub record DirectoryRun : Type 0 where
  pub fetched : List (DirectoryEntry × Visit)
  pub received : ℕ
  pub reports : List ProgressUpdate
  pub end : End

abbrev pub ends_at : ℕ → End → DirectoryRun
ends_at received end = record { fetched = []; received = received; reports = []; end = end }

abbrev pub directory_completed : ℕ → ProgressUpdate
directory_completed received =
    record (progress_update (pos received) (pos received) (pos 0) "FTP 目录下载完成") {
      progress = full_percent;
    }

abbrev pub completes : ℕ → DirectoryRun
completes received = record (ends_at received (returned none)) {
  reports = directory_completed received ∷ [];
}

abbrev pub fetch : ℤ → DirectoryEntry → Visit → Finished
fetch max_retries e v =
    download_directory_file e.size max_retries v.output v.partial v.cut_error v.attempts v.finish

module _ (unicode : Unicode) (paths : Paths) where
  -- An entry of the stored listing has to be one that a listing lets through as it stands.
  unfoldable pub check_item : Seen → DirectoryEntry → Result Seen
  check_item seen e = elim (safe_relative_path unicode e.relative_path e.directory seen) [
    | refused why ↦ err invalid_item
    | accepted r ↦
        if not (eq_text r.0 e.relative_path) || ltb_ℤ e.size (negsuc 0)
        then err invalid_item
        else ok r.1
  ]

  -- The texts of task.Path and of the root, the directory of the markers, and the remote root.
  module _ (task_path root markers remote_root : Text) where
    -- From the test of the remote path on.
    unfoldable pub check_file : Visit → DirectoryEntry → Seen → Result Seen
    check_file v e seen =
        if not (remote_child paths remote_root e.remote_path)
        then err (message "FTP 目录项超出远程根目录")
        else unless v.mkdir_error (do
          marker ← directory_output_path paths markers (e.relative_path ++ complete_suffix)
          relative ← paths.rel task_path marker
          ok seen)

    -- What is done with an entry before its download; the map behind it.
    unfoldable pub check_entry : Visit → Seen → DirectoryEntry → Result Seen
    check_entry v seen e = unless v.context_error (do
      seen' ← check_item seen e
      target ← directory_output_path paths root e.relative_path
      if e.directory then unless v.mkdir_error (ok seen') else check_file v e seen')

    module _ (total max_retries : ℤ) (visits : ℕ → Visit) where
      abbrev pub directory_report : DirectoryEntry → ℕ → ProgressUpdate → ProgressUpdate
      directory_report e received u =
          progress_update (pos received +ℤ u.received) total u.speed
            (concat u.detail (concat "：" (paths.spell e.relative_path)))

      abbrev pub report_all : DirectoryEntry → ℕ → List ProgressUpdate → List ProgressUpdate
      report_all e received [] = []
      report_all e received (u ∷ reports) =
          directory_report e received u ∷ report_all e received reports

      abbrev pub with_file : DirectoryEntry → Visit → ℕ → Finished → DirectoryRun → DirectoryRun
      with_file e v received f rest = record rest {
        fetched = (e, v) ∷ rest.fetched;
        reports = report_all e received f.outcome.reports ++ rest.reports;
      }

      -- The loop, with the number of its round.
      unfoldable pub fetch_all : ℕ → List DirectoryEntry → Seen → ℕ → DirectoryRun
      fetch_all i [] seen received = completes received
      fetch_all i (e ∷ entries) seen received =
          let v = visits i in
          let f = fetch max_retries e v in
          let all = received + f.outcome.received in
          elim (check_entry v seen e) [
            | err x ↦ ends_at received (returned (some x))
            | ok seen' ↦ elim e.directory [
              | true ↦ fetch_all (suc i) entries seen' received
              | false ↦ with_file e v received f (elim f.outcome.end [
                | open_ended ↦ ends_at received open_ended
                | returned x ↦ elim x [
                  | some x ↦ ends_at received (returned (some x))
                  | none ↦ fetch_all (suc i) entries seen' all
                ]
              ])
            ]
          ]

-- What a directory run meets before its loop.
pub record Entering : Type 0 where
  pub making : Making
  pub output_root_error : Option Error  -- of os.OpenRoot
  pub metadata_root_error : Option Error

abbrev pub entered :
    Result (List DirectoryEntry) → (List DirectoryEntry → DirectoryRun) → DirectoryRun
entered (err e) f = ends_at 0 (returned (some e))
entered (ok entries) f = f entries

module _ (unicode : Unicode) (paths : Paths) (host : Host) where
  abbrev pub markers_of : Task → Text
  markers_of task =
      paths.join (paths.join (paths.letters task.path) (paths.letters ".gd3_ftp"))
        (paths.letters task.id)

  -- The entries, where the root is the task's own and open.
  unfoldable pub enter :
      (String → Result (List DirectoryEntry)) → Task → Entering → Result (List DirectoryEntry)
  enter decode task n = do
    entries ← decode (read "entries" task.stage.state)
    made ← prepare_directory_root host n.making (output_file host task) task.id
    unless n.output_root_error (unless n.metadata_root_error (ok entries))

  unfoldable pub run_directory :
      (String → Result (List DirectoryEntry)) → Task → Text → Entering → (ℕ → Visit) → DirectoryRun
  run_directory decode task remote_root n visits = entered (enter decode task n) (λ entries.
      fetch_all unicode paths (paths.letters task.path) (paths.letters (output_file host task))
        (markers_of task) remote_root task.file_size task.stage.max_retries visits 0 entries [] 0)
