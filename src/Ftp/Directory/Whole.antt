-- ===== src/Ftp/Directory/Whole.antt =====
-- How the run of a directory ends.
use godown.Base.{ℕ, ◌≡◌, refl, sym, ◌∙◌, subst, List, [], String, inl, arith}
use godown.Core.Task.{Task, read}
use godown.Core.Output.{Result, ok, err, Host, output_file}
use godown.Ftp.Names.{Text, Unicode}
use godown.Ftp.Names.Safe.{IsPlain}
use godown.Ftp.Listing.{DirectoryEntry}
use godown.Ftp.Root.{prepare_directory_root}
use godown.Ftp.Directory.{
  Paths, Visit, DirectoryRun, Entering, entered, markers_of, enter, run_directory,
}
use godown.Ftp.Directory.Checking.{bind_ok}
use godown.Ftp.Root.Owned.{unless_ok}
use godown.Ftp.Directory.Fetching.{IsRun, fetch_all-IsRun}

module _ (unicode : Unicode) (paths : Paths) (host : Host) where
  -- The entries that are run over are those that are stored.
  enter_stored :
      (decode : String → Result (List DirectoryEntry)) (task : Task) (n : Entering)
      → (entries stored : List DirectoryEntry)
      → decode (read "entries" task.stage.state) ≡ ok stored
      → enter unicode paths host decode task n ≡ ok entries
      → stored ≡ entries
  unfolding enter
  enter_stored decode task n entries stored there h =
      let (found, decoded, h2) = bind_ok (decode (read "entries" task.stage.state)) _ entries h in
      let (made, prepared, h3) =
        bind_ok (prepare_directory_root host n.making (output_file host task) task.id) _ entries
          h2 in
      let last =
        unless_ok n.metadata_root_error _ entries (unless_ok n.output_root_error _ entries h3) in
      let same : stored ≡ found = ground (arith, there, decoded) in
      let rest : found ≡ entries = ground (arith, last) in same ∙ rest

  abbrev IsDirectoryRun : Task → Text → List DirectoryEntry → DirectoryRun → Type 0
  IsDirectoryRun task remote_root entries r =
      IsRun unicode paths (paths.letters task.path) (paths.letters (output_file host task))
        (markers_of unicode paths host task) remote_root task.file_size task.stage.max_retries 0
        entries r

  on_entered :
      (task : Task) (remote_root : Text) (stored : List DirectoryEntry)
      → (x : Result (List DirectoryEntry)) (f : List DirectoryEntry → DirectoryRun)
      → ((entries : List DirectoryEntry) → x ≡ ok entries → stored ≡ entries)
      → ((entries : List DirectoryEntry) → IsDirectoryRun task remote_root entries (f entries))
      → IsDirectoryRun task remote_root stored (entered x f)
  on_entered task remote_root stored (err e) f h k = record { fetched = tt; ended = inl (e, refl) }
  on_entered task remote_root stored (ok entries) f h k =
      subst (λ (es : List DirectoryEntry). IsDirectoryRun task remote_root es (f entries))
        (sym (h entries refl)) (k entries)

  -- A run over the stored entries of a directory asks the server only for files below the remote
  -- root, and puts them only under paths of safe names that do not leave the root of the task. It
  -- ends with an error, or a download has more attempts than are given, or every entry had such a path, every file of the list was downloaded, each
  -- with no error, with all bytes where its size is known, and moved to its place or found there
  -- with the digest of its marker; the bytes are counted together, and the last report says so.
  -- It is assumed that the underscore is its own upper case, and that of `download` no device.
  pub run_directory-IsRun :
      (decode : String → Result (List DirectoryEntry)) (task : Task) (remote_root : Text)
      → (n : Entering) (visits : ℕ → Visit) (entries : List DirectoryEntry) → IsPlain unicode
      → decode (read "entries" task.stage.state) ≡ ok entries
      → IsRun unicode paths
          (paths.letters task.path)
          (paths.letters (output_file host task))
          (markers_of unicode paths host task)
          remote_root
          task.file_size
          task.stage.max_retries
          0
          entries
          (run_directory unicode paths host decode task remote_root n visits)
  unfolding run_directory
  run_directory-IsRun decode task remote_root n visits entries plain there =
      on_entered task remote_root entries (enter unicode paths host decode task n) _
        (λ found entering. enter_stored decode task n found entries there entering)
        (λ found.
          fetch_all-IsRun unicode paths (paths.letters task.path)
            (paths.letters (output_file host task)) (markers_of unicode paths host task) remote_root
            task.file_size task.stage.max_retries visits 0 found [] 0 plain)
