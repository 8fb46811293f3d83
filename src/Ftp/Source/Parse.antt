-- ===== src/Ftp/Source/Parse.antt =====
-- internal/download/ftp/ftp.go: parse and newDirectoryTask. What the server answers is an argument.
use godown.Base.{
  ℕ, Bool, true, false, not, ◌||◌, Option, none, some, List, String, Dict, str_eq, ◌==◌,
  if◌then◌else◌,
}
use godown.Base.Int.{ℤ, pos}
use godown.Core.Task.{Task, new_task, new_stage}
use godown.Core.Output.{Error, message, Result, ok, err, ◌>>=◌}
use godown.Ftp.Names.{Text, Unicode, safe_file_name}
use godown.Ftp.Listing.{refused, accepted, Walked, DirectoryEntry, list_directory}
use godown.Ftp.Source.{Web, SourceInfo, parse_source, validate_proxy, state_of, directory_state_of}

-- What the server answers to a parse: the error of the dialing, the size of the file, and whether an
-- error of that is a refused command; the entries of a walk, and the sizes that are probed.
pub record Answers : Type 0 where
  pub dial_error : Option Error
  pub file_size : Result ℤ
  pub protocol_code : Option ℕ  -- of the error of file_size
  pub walked : List Walked
  pub walk_failed : Bool
  pub probe : Text → Option ℤ

-- The random identifiers and the time.
pub record Fresh : Type 0 where
  pub task_id : String
  pub stage_id : String
  pub now : ℕ

abbrev pub size_command_unsupported : Option ℕ → Bool
size_command_unsupported none = false
size_command_unsupported (some code) = code == 500 || code == 502 || code == 504

module _ (web : Web) (unicode : Unicode) (encode : List DirectoryEntry → Result String) where
  module _ (info : SourceInfo) (clean_url : String) where
    module _ (download_dir proxy_url : String) (max_retries : ℤ) (fresh : Fresh) where
      abbrev pub task_of : String → ℤ → Dict String → Task
      task_of title size state =
          new_task fresh.task_id fresh.now "ftp" title clean_url download_dir size
            (record (new_stage fresh.stage_id "ftp" clean_url size (pos 1) max_retries true none
              proxy_url) { state = some state })

      abbrev pub directory_title : String
      directory_title =
          let title = safe_file_name unicode (web.base (web.letters info.remote_path)) in
          if str_eq info.remote_path "/" || str_eq (web.spell title) ""
          then "ftp-root"
          else web.spell title

      -- newDirectoryTask.
      unfoldable pub new_directory_task : Answers → Result Task
      new_directory_task a =
          elim (list_directory unicode web.clean a.probe (web.letters info.remote_path) a.walked
            a.walk_failed) [
              | refused why ↦ err (message "读取 FTP 目录")
              | accepted listed ↦ do
                encoded ← encode listed.0
                ok (task_of directory_title (pos listed.1) (directory_state_of web info encoded))
            ]

      -- The task of a file.
      unfoldable pub file_task : ℤ → Result Task
      file_task size =
          let title =
            web.spell (safe_file_name unicode (web.file_base (web.letters info.remote_path))) in
          if str_eq title "." || str_eq title (web.spell web.separator) || str_eq title ""
          then err (message "FTP 地址缺少文件名")
          else ok (task_of title size (state_of web info))

      -- From FileSize on: a path with no size may be a directory.
      unfoldable pub sized_task : Answers → Result Task
      sized_task a = elim a.file_size [
        | ok size ↦ file_task size
        | err e ↦ elim (new_directory_task a) [
          | ok t ↦ ok t
          | err e' ↦
              if not (size_command_unsupported a.protocol_code)
              then err (message "读取 FTP 文件大小")
              else file_task (pos 0)
        ]
      ]

  abbrev pub dialed {ℓ} : {A : Type ℓ} → Option Error → Result A → Result A
  dialed none r = r
  dialed (some e) r = err e

  unfoldable pub parse : String → String → String → ℤ → Fresh → Answers → Result Task
  parse source download_dir proxy_url max_retries fresh a = do
    found ← parse_source web source
    allowed ← validate_proxy web proxy_url
    dialed a.dial_error (
        if found.0.directory
        then new_directory_task found.0 found.1 download_dir proxy_url max_retries fresh a
        else sized_task found.0 found.1 download_dir proxy_url max_retries fresh a)
