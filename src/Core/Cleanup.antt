-- ===== src/Core/Cleanup.antt =====
-- internal/core/model.go: the files that a task removes before it is downloaded again. A run is the
-- list of the removals that it made, the failed one included, and its error.
pub mod Ownership
use godown.Base.{Option, none, some, List, [], ◌∷◌, ◌++◌, String, str_eq, concat, if◌then◌else◌}
use godown.Core.Task.{Task, read}
use godown.Core.Output.{
  Error, ok, err, Host, output_file, task_owned_path, verify_ftp_directory_owner,
}

-- os.RemoveAll and os.Remove.
pub data Removal : Type 0 where
  tree : String → Removal
  file : String → Removal

abbrev pub Cleaning : Type 0
Cleaning = List Removal × Option Error

-- The next step runs if the one before it gave no error.
infixl 5 ◌andthen◌
unfoldable pub ◌andthen◌ : Cleaning → Cleaning → Cleaning
(done, none) andthen (more, e) = (done ++ more, e)
(done, some e) andthen _ = (done, some e)

abbrev pub failing : Error → Cleaning
failing e = ([], some e)

module _ (host : Host) where
  unfoldable pub remove_task_owned_path : String → String → Cleaning
  remove_task_owned_path base target = elim (task_owned_path host base target) [
    | ok owned ↦ (tree owned ∷ [], host.remove_all owned)
    | err e ↦ failing e
  ]

  unfoldable pub remove_if_exists : String → Cleaning
  remove_if_exists path = (file path ∷ [], host.remove path)

  unfoldable pub cleanup_bt : Task → Cleaning
  cleanup_bt t =
      let output = output_file host t in
      remove_task_owned_path t.path output
      andthen remove_task_owned_path t.path (concat output ".part")
      andthen remove_task_owned_path t.path (host.join (host.join t.path ".gd3_bt") t.id)
      andthen remove_if_exists (concat output ".torrent")

  -- The two removals of an FTP directory task, whose root is its own.
  unfoldable pub cleanup_ftp_root : Task → String → Cleaning
  cleanup_ftp_root t owned_root = elim (verify_ftp_directory_owner host owned_root t.id) [
    | ok _ ↦
        remove_task_owned_path t.path owned_root
        andthen remove_task_owned_path t.path (host.join (host.join t.path ".gd3_ftp") t.id)
    | err e ↦ failing e
  ]

  unfoldable pub cleanup_ftp_directory : Task → Cleaning
  cleanup_ftp_directory t = elim (task_owned_path host t.path (output_file host t)) [
    | ok owned_root ↦ cleanup_ftp_root t owned_root
    | err e ↦ failing e
  ]

  unfoldable pub cleanup_file : Task → Cleaning
  cleanup_file t =
      let output = output_file host t in
      remove_if_exists output andthen remove_if_exists (concat output ".ghd")

  unfoldable pub cleanup_files : Task → Cleaning
  cleanup_files t =
      if str_eq t.pack_id "bt"
      then cleanup_bt t
      else if str_eq t.pack_id "ftp"
      then (if str_eq (read "directory" t.stage.state) "true"
          then cleanup_ftp_directory t
          else remove_if_exists (concat (output_file host t) ".part") andthen cleanup_file t)
      else cleanup_file t
