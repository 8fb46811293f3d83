-- ===== src/Ftp/Root.antt =====
-- internal/download/ftp/ftp.go: prepareDirectoryRoot, over the file system of Core.
pub mod Owned
use godown.Base.{not, ◌||◌, Bool, Option, none, some, String, str_eq, concat, if◌then◌else◌}
use godown.Core.Output.{
  Error, message, not_a_directory, invalid_marker, another_task, Result, ok, err, ◌>>=◌, missing,
  fault, entry, Host, owner_marker,
}

-- The errors of os.Mkdir, and of the marker's creation, which is exclusive, its write and its close.
pub record Making : Type 0 where
  pub mkdir_error : Option Error
  pub create_error : Option Error
  pub write_error : Option Error
  pub close_error : Option Error

abbrev pub unless {ℓ} : {A : Type ℓ} → Option Error → Result A → Result A
unless none r = r
unless (some e) r = err e

abbrev pub marker_text : String → String
marker_text task_id = concat task_id "\n"

-- A root that is made, and what its marker holds.
unfoldable pub make_root : Making → String → Result (Option String)
make_root m task_id = unless m.mkdir_error (
    unless m.create_error
      (unless m.write_error (unless m.close_error (ok (some (marker_text task_id))))))

module _ (host : Host) where
  -- The marker of a root that is there.
  unfoldable pub check_marker : String → String → Result (Option String)
  check_marker root task_id = elim (host.lstat (host.join root owner_marker)) [
    | missing ↦ err (message "FTP directory ownership marker: file does not exist")
    | fault e ↦ err (message (concat "FTP directory ownership marker: " (host.error_text e)))
    | entry is_dir is_symlink is_regular ↦ if not is_regular then err (invalid_marker root) else do
      owner ← host.read_file (host.join root owner_marker)
      if str_eq (host.trim_space owner) task_id then ok none else err (another_task root)
  ]

  -- `some` is the marker of a root that was made.
  unfoldable pub prepare_directory_root : Making → String → String → Result (Option String)
  prepare_directory_root m root task_id = elim (host.lstat root) [
    | missing ↦ make_root m task_id
    | fault e ↦ err e
    | entry is_dir is_symlink is_regular ↦
        if not is_dir || is_symlink then err (not_a_directory root) else check_marker root task_id
  ]
