-- ===== src/Ftp/Source.antt =====
-- internal/download/ftp/ftp.go: parseSource, sourceFromTask and validateProxy. What net/url finds in
-- a text is an argument.
pub mod Parse
pub mod Kept
pub mod Parsed
use godown.Base.{
  ℕ, Bool, true, false, not, ◌&&◌, ◌||◌, Option, none, some, List, [], ◌∷◌, String, Dict, str_eq,
  ◌==◌, if◌then◌else◌,
}
use godown.Base.Int.{ℤ, pos, ltb_ℤ}
use godown.Core.Task.{Task, Stage, StringMap, read, new_task, new_stage}
use godown.Core.Output.{Error, message, Result, ok, err, ◌>>=◌}
use godown.Ftp.Names.{Text, Unicode, slash, safe_file_name}
use godown.Ftp.Listing.{Refusal, Checked, refused, accepted, Walked, DirectoryEntry, list_directory}

-- What url.Parse gives.
pub record Url : Type 0 where
  pub scheme : String
  pub hostname : String
  pub port : String
  pub user : Option (String × Option String)  -- the name and the password
  pub path : Option String  -- url.PathUnescape(u.EscapedPath()), where it gives no error
  pub without_user : String  -- the text of the address with no User

pub record Web : Type 0 where
  pub parse_url : String → Option Url
  pub trim_space : String → String
  pub to_lower : String → String
  pub join_host_port : String → String → String
  pub itoa : ℤ → String
  pub atoi : String → Option ℤ
  pub clean : Text → Text  -- path.Clean
  pub base : Text → Text  -- path.Base
  pub file_base : Text → Text  -- filepath.Base(filepath.FromSlash(p))
  pub separator : Text
  pub letters : String → Text  -- the code points of a string
  pub spell : Text → String

pub record SourceInfo : Type 0 where
  pub host : String
  pub remote_path : String
  pub username : String
  pub password : String
  pub tls_mode : String
  pub timeout : ℤ  -- in seconds
  pub directory : Bool

abbrev pub default_timeout : ℤ
default_timeout = pos 30

abbrev pub invalid_source : Error
invalid_source = message "FTP 地址格式无效"

abbrev pub tls_mode_of : String → String
tls_mode_of scheme =
    if str_eq scheme "ftps" then "implicit" else if str_eq scheme "ftpes" then "explicit" else ""

abbrev pub default_port : String → String
default_port scheme = if str_eq scheme "ftps" then "990" else "21"

abbrev pub username_of : Option (String × Option String) → String
username_of none = "anonymous"
username_of (some (name, password)) = if str_eq name "" then "anonymous" else name

abbrev pub password_of : Option (String × Option String) → String
password_of none = "anonymous@"
password_of (some (name, none)) = "anonymous@"
password_of (some (name, some password)) = password

-- strings.HasSuffix(s, "/").
unfoldable pub ends_in_slash : Text → Bool
ends_in_slash [] = false
ends_in_slash (c ∷ []) = c == slash
ends_in_slash (c ∷ d ∷ s) = ends_in_slash (d ∷ s)

module _ (web : Web) where
  abbrev pub host_of : String → Url → String
  host_of scheme u =
      if str_eq u.port ""
      then web.join_host_port u.hostname (default_port scheme)
      else web.join_host_port u.hostname u.port

  abbrev pub info_of : String → Url → String → SourceInfo
  info_of scheme u remote = record {
    host = host_of scheme u;
    remote_path = web.spell (web.clean (web.letters remote));
    username = username_of u.user;
    password = password_of u.user;
    tls_mode = tls_mode_of scheme;
    timeout = default_timeout;
    directory = ends_in_slash (web.letters remote);
  }

  abbrev pub is_ftp : String → Bool
  is_ftp scheme = str_eq scheme "ftp" || str_eq scheme "ftps" || str_eq scheme "ftpes"

  -- The part behind the scheme and the host.
  unfoldable pub info_at_path : String → Url → Result (SourceInfo × String)
  info_at_path scheme u = elim u.path [
    | none ↦ err (message "FTP 地址必须指向文件或目录")
    | some remote ↦
        if str_eq remote ""
        then err (message "FTP 地址必须指向文件或目录")
        else ok (info_of scheme u remote, u.without_user)
  ]

  unfoldable pub parse_source : String → Result (SourceInfo × String)
  parse_source source = elim (web.parse_url (web.trim_space source)) [
    | none ↦ err invalid_source
    | some u ↦
        if not (is_ftp (web.to_lower u.scheme)) || str_eq u.hostname ""
        then err invalid_source
        else info_at_path (web.to_lower u.scheme) u
  ]

  unfoldable pub timeout_of : String → ℤ
  timeout_of s = elim (web.atoi s) [
    | none ↦ default_timeout
    | some seconds ↦ if ltb_ℤ (pos 0) seconds then seconds else default_timeout
  ]

  unfoldable pub source_from_task : Task → Result SourceInfo
  source_from_task t =
      let s = t.stage.state in
      if str_eq (read "host" s) "" || str_eq (read "remotePath" s) ""
      then err (message "FTP 任务缺少连接信息")
      else ok (record {
        host = read "host" s;
        remote_path = read "remotePath" s;
        username = read "username" s;
        password = read "password" s;
        tls_mode = read "tlsMode" s;
        timeout = timeout_of (read "timeoutSeconds" s);
        directory = str_eq (read "directory" s) "true";
      })

  -- validateProxy.
  unfoldable pub validate_proxy : String → Result (Unit {0})
  validate_proxy proxy_url =
      if str_eq (web.trim_space proxy_url) "" then ok tt else elim (web.parse_url proxy_url) [
        | none ↦ err (message "FTP 当前仅支持直连或 SOCKS5 代理")
        | some u ↦
            if str_eq u.scheme "socks5" || str_eq u.scheme "socks5h"
            then ok tt
            else err (message "FTP 当前仅支持直连或 SOCKS5 代理")
      ]

  -- The state of a stage.
  abbrev pub state_of : SourceInfo → Dict String
  state_of info =
      ("host", info.host)
      ∷ ("remotePath", info.remote_path)
      ∷ ("username", info.username)
      ∷ ("password", info.password)
      ∷ ("tlsMode", info.tls_mode)
      ∷ ("timeoutSeconds", web.itoa info.timeout)
      ∷ []

  abbrev pub directory_state_of : SourceInfo → String → Dict String
  directory_state_of info encoded =
      ("host", info.host)
      ∷ ("remotePath", info.remote_path)
      ∷ ("username", info.username)
      ∷ ("password", info.password)
      ∷ ("tlsMode", info.tls_mode)
      ∷ ("timeoutSeconds", web.itoa info.timeout)
      ∷ ("directory", "true")
      ∷ ("entries", encoded)
      ∷ []
