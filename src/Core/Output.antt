-- ===== src/Core/Output.antt =====
-- internal/core/model.go: where a task writes, which directory it owns, and what a cleanup removes.
pub mod Moves
use godown.Base.{
  Bool, true, false, not, ◌&&◌, ◌||◌, Option, none, some, List, [], ◌∷◌, String, Dict, insert,
  str_eq, concat, if◌then◌else◌,
}
use godown.Base.Int.{pos}
use godown.Core.Task.{Task, TaskSnapshot, StringMap, paused, zero_percent, read, clone_string_map}
use text.Mathlib.Text.{starts_with}

-- The errors that the code makes, each with what its message shows. `message` is any other text,
-- such as an error of the operating system.
pub data Error : Type 0 where
  message : String → Error
  canceled : Error
  escapes : String → String → Error
  not_owned : String → String → Error
  reserved : String → Error
  occupied : String → Error → Error
  not_a_directory : String → Error
  no_marker : String → Error → Error
  invalid_marker : String → Error
  another_task : String → Error

pub data Result {ℓ} (A : Type ℓ) : Type ℓ where
  ok : A → Result A
  err : Error → Result A

infixl 5 ◌>>=◌
abbrev pub ◌>>=◌ {ℓ κ} : {A : Type ℓ} {B : Type κ} → Result A → (A → Result B) → Result B
ok a >>= f = f a
err e >>= f = err e

-- What os.Lstat says of a path: os.IsNotExist, another error, or the entry's mode.
pub data Entry : Type 0 where
  missing : Entry
  fault : Error → Entry
  entry : (is_dir is_symlink is_regular : Bool) → Entry

-- The path functions of the platform and the file system as the call finds them.
pub record Host : Type 0 where
  pub abs_clean : String → Result String  -- filepath.Abs(filepath.Clean(p))
  pub rel : String → String → Result String  -- filepath.Rel
  pub join : String → String → String  -- filepath.Join
  pub separator : String  -- string(os.PathSeparator)
  pub equal_fold : String → String → Bool  -- strings.EqualFold
  pub trim_space : String → String  -- strings.TrimSpace
  pub lstat : String → Entry  -- os.Lstat
  pub read_file : String → Result String  -- os.ReadFile
  pub remove_all : String → Option Error  -- os.RemoveAll
  pub remove : String → Option Error  -- os.Remove, a missing file being no error
  pub error_text : Error → String  -- err.Error()

abbrev pub owner_marker : String
owner_marker = ".gd3_ftp_owner"

abbrev pub output_name_key : String
output_name_key = "directoryOutputName"

abbrev pub is_ftp_directory : Task → Bool
is_ftp_directory t = str_eq t.pack_id "ftp" && str_eq (read "directory" t.stage.state) "true"

abbrev pub entries : StringMap → Dict String
entries none = []
entries (some m) = m

module _ (host : Host) where
  unfoldable pub output_file : Task → String
  output_file t =
      let name = read output_name_key t.stage.state in
      if is_ftp_directory t && not (str_eq name "")
      then host.join t.path name
      else host.join t.path t.title

  -- The test that a relative path leads out of its base.
  abbrev pub leaves_base : String → Bool
  leaves_base relative =
      str_eq relative "."
      || str_eq relative ".."
      || starts_with relative (concat ".." host.separator)

  unfoldable pub task_owned_path : String → String → Result String
  task_owned_path base target = do
    base' ← host.abs_clean base
    target' ← host.abs_clean target
    relative ← host.rel base' target'
    if leaves_base relative then err (escapes target' base') else ok target'

  -- The checks below the first look at the root, which is an entry.
  unfoldable pub verify_marker : String → String → Result (Unit {0})
  verify_marker root task_id = elim (host.lstat (host.join root owner_marker)) [
    | missing ↦ err (no_marker root (message "file does not exist"))
    | fault e ↦ err (no_marker root e)
    | entry is_dir is_symlink is_regular ↦ if not is_regular then err (invalid_marker root) else do
      owner ← host.read_file (host.join root owner_marker)
      if str_eq (host.trim_space owner) task_id then ok tt else err (another_task root)
  ]

  unfoldable pub verify_ftp_directory_owner : String → String → Result (Unit {0})
  unfolding verify_marker
  verify_ftp_directory_owner root task_id = elim (host.lstat root) [
    | missing ↦ ok tt
    | fault e ↦ err e
    | entry is_dir is_symlink is_regular ↦
        if not is_dir || is_symlink then err (not_a_directory root) else verify_marker root task_id
  ]

  -- A path that cannot be made absolute reserves nothing.
  unfoldable pub output_path_reserved : String → List String → Bool
  output_path_reserved output [] = false
  output_path_reserved output (candidate ∷ rest) = elim (host.abs_clean candidate) [
    | ok absolute ↦ host.equal_fold output absolute || output_path_reserved output rest
    | err e ↦ output_path_reserved output rest
  ]

  abbrev pub alternate_name : Task → String
  alternate_name t = concat "ftp-" t.id

  -- The task moved to its own output, as the assignments that end the function leave it.
  unfoldable pub moved : Task → Task
  moved t = record t {
    status = paused;
    received = pos 0;
    progress = zero_percent;
    speed = pos 0;
    error = "";
    stage = record t.stage {
      state =
          some
            (insert output_name_key (alternate_name t) (entries (clone_string_map t.stage.state)));
      status = paused;
      received = pos 0;
      progress = zero_percent;
      speed = pos 0;
      error = "";
    };
  }

  -- The part from `name := "ftp-" + t.ID` on.
  unfoldable pub take_alternate : Task → List String → Result Task
  unfolding moved verify_ftp_directory_owner task_owned_path output_path_reserved
  take_alternate t reserved_paths = do
    alternate ← task_owned_path t.path (host.join t.path (alternate_name t))
    if output_path_reserved alternate reserved_paths
        then err (reserved alternate)
        else elim (host.lstat alternate) [
          | missing ↦ ok (moved t)
          | fault e ↦ err e
          | entry is_dir is_symlink is_regular ↦ elim (verify_ftp_directory_owner alternate t.id) [
            | ok _ ↦ ok (moved t)
            | err e ↦ err (occupied alternate e)
          ]
        ]

  -- Whether the output of the task is free or its own: `ok true` where it may stay.
  unfoldable pub keeps_output : Task → String → Bool → Result Bool
  unfolding verify_ftp_directory_owner
  keeps_output t output taken = elim (host.lstat output) [
    | missing ↦ ok (not taken)
    | fault e ↦ err e
    | entry is_dir is_symlink is_regular ↦
        if taken
        then ok false
        else elim (verify_ftp_directory_owner output t.id) [ ok _ ↦ ok true | err e ↦ ok false ]
  ]

  unfoldable pub prepare_ftp_directory_output : List String → Task → Result Task
  unfolding take_alternate keeps_output task_owned_path output_file output_path_reserved
  prepare_ftp_directory_output reserved_paths t = if not (is_ftp_directory t) then ok t else do
    output ← task_owned_path t.path (output_file t)
    keeps ← keeps_output t output (output_path_reserved output reserved_paths)
    if keeps
        then ok t
        else if not (str_eq (read output_name_key t.stage.state) "")
        then err (not_owned output t.id)
        else take_alternate t reserved_paths

  unfoldable pub snapshot_of : Task → TaskSnapshot
  unfolding output_file
  snapshot_of t = record {
    id = t.id;
    pack_id = t.pack_id;
    title = t.title;
    url = t.url;
    status = t.status;
    path = t.path;
    output_path = output_file t;
    file_size = t.file_size;
    received = t.received;
    speed = t.speed;
    progress = t.progress;
    detail = t.detail;
    error = t.error;
    created_at = t.created_at;
  }
