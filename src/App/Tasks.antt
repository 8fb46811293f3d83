-- ===== src/App/Tasks.antt =====
-- internal/app/app.go: the task that is made of a request of the browser or of an address. The
-- parsers of the kinds of sources are arguments.
use godown.Base.{
  ℕ, Bool, ◌&&◌, ◌||◌, Option, none, some, List, [], ◌∷◌, String, Dict, insert, str_eq, inl, inr,
  if◌then◌else◌,
}
use godown.Base.Int.{ℤ, pos, ltb_ℤ, ◌*ℤ◌}
use godown.Config.Settings.{Settings}
use godown.Core.Task.{Task, TaskSnapshot}
use godown.Core.Output.{Error, Result, ok, err, ◌>>=◌, entries}
use godown.Bridge.Message.{CreateTaskRequest, MergeResourceRequest}
use godown.Http.Headers.{Strings, HeaderError, parse_headers, merge_cookies}
use godown.Http.Titles.{Paths, deduplicate_title}
use godown.Plugins.Manifest.{Problem, ParseParams}
use godown.Plugins.Manager.{Resolution, parsed, failed, unmatched}

-- btdownload.Options; a time is in seconds.
pub record BtOptions : Type 0 where
  pub download_dir : String
  pub proxy_url : String
  pub headers : Dict String
  pub metadata_timeout : ℤ
  pub listen_port : ℤ
  pub connections_limit : ℤ
  pub download_rate_limit : ℤ
  pub upload_rate_limit : ℤ
  pub enable_dht : Bool
  pub enable_lsd : Bool
  pub enable_upnp : Bool
  pub enable_natpmp : Bool
  pub sequential_download : Bool
  pub seed_ratio_limit_percent : ℤ
  pub seed_time_limit_minutes : ℤ
  pub extra_trackers : List String
  pub save_magnet_torrent_file : Bool

-- The packages that recognise and parse the sources, and the texts of the errors of two others.
pub record Parsers : Type 0 where
  pub is_bt : String → Bool
  pub is_ftp : String → Bool
  pub is_manifest : String → Bool
  pub resolve_bt : String → BtOptions → Result Task
  pub parse_ftp : String → String → String → ℤ → Result Task
  pub parse_m3u8 : String → Settings → Dict String → Result Task
  pub parse_http : String → String → ℤ → ℤ → String → Dict String → Result Task
  pub new_merge_task : String → String → List MergeResourceRequest → Settings → Result Task
  pub parse_trackers : String → List String
  pub header_error : HeaderError → Error
  pub plugin_error : Problem → Error

-- `replace_unsafe` puts an underscore for each character of the pattern unsafeBrowserTitle, and
-- `trim_dots` is strings.Trim of dots and spaces.
module _ (strings : Strings) (replace_unsafe trim_dots : String → String) (parsers : Parsers) where
  unfoldable pub safe_browser_title : String → String
  safe_browser_title title = trim_dots (replace_unsafe (strings.trim_space title))

  abbrev is_blank : String → Bool
  is_blank s = str_eq (strings.trim_space s) ""

  -- The headers of the second map that are not blank, over those of the first.
  unfoldable pub merge_headers : Dict String → Dict String → Dict String
  merge_headers base [] = base
  merge_headers base ((key, value) ∷ extra) =
      merge_headers (if is_blank value then base else insert key value base) extra

  unfoldable pub bt_options_from_settings : Settings → Dict String → BtOptions
  bt_options_from_settings settings headers = record {
    download_dir = settings.download_dir;
    proxy_url = settings.proxy_url;
    headers = headers;
    metadata_timeout = settings.bt_metadata_timeout_sec;
    listen_port = settings.bt_listen_port;
    connections_limit = settings.bt_connections_limit;
    download_rate_limit = settings.bt_download_rate_limit_kib *ℤ pos 1024;
    upload_rate_limit = settings.bt_upload_rate_limit_kib *ℤ pos 1024;
    enable_dht = settings.bt_enable_dht;
    enable_lsd = settings.bt_enable_lsd;
    enable_upnp = settings.bt_enable_upnp;
    enable_natpmp = settings.bt_enable_natpmp;
    sequential_download = settings.bt_sequential_download;
    seed_ratio_limit_percent = settings.bt_seed_ratio_limit_percent;
    seed_time_limit_minutes = settings.bt_seed_time_limit_minutes;
    extra_trackers = parsers.parse_trackers settings.bt_trackers_text;
    save_magnet_torrent_file = settings.bt_save_magnet_torrent_file;
  }

  -- The switch: the kind that a plugin gave decides, and with none the form of the source.
  unfoldable pub parse_source : String → String → Settings → Dict String → Result Task
  parse_source kind source settings headers =
      let is_kind = λ (name : String) (test : Bool). str_eq kind name || (str_eq kind "" && test) in
      if is_kind "bt" (parsers.is_bt source)
      then parsers.resolve_bt source (bt_options_from_settings settings headers)
      else if is_kind "ftp" (parsers.is_ftp source)
      then parsers.parse_ftp source settings.download_dir settings.proxy_url settings.retry_count
      else if is_kind "m3u8" (parsers.is_manifest source)
      then parsers.parse_m3u8 source settings headers
      else parsers.parse_http source settings.download_dir settings.block_num settings.retry_count
          settings.proxy_url headers

  abbrev pub titled : String → Task → Task
  titled title t = if str_eq title "" then t else record t { title = title }

  abbrev parse_titled : String → String → String → Settings → Dict String → Result Task
  parse_titled kind source title settings headers = do
    t ← parse_source kind source settings headers
    ok (titled title t)

  -- `plugins` is the Resolve of the manager, if there is one.
  unfoldable pub create_task_from_source :
      Option (ParseParams → Resolution) → String → Settings → Dict String → Result Task
  create_task_from_source none source settings headers = parse_titled "" source "" settings headers
  create_task_from_source (some resolve) source settings headers =
      let params : ParseParams = record {
        url = source;
        download_dir = settings.download_dir;
        headers = headers;
        proxy_url = settings.proxy_url;
      } in
      elim (resolve params) [
        | unmatched problems ↦ parse_titled "" source "" settings headers
        | failed problem ↦ err (parsers.plugin_error problem)
        | parsed r ↦
            parse_titled r.kind r.url (safe_browser_title r.title) settings
              (merge_headers headers r.headers)
      ]

  -- A title that is free among the tasks that the scheduler has, if there is a scheduler; `none`
  -- where the search has not ended after a number of rounds.
  unfoldable pub retitled : Paths → ℕ → Option (List TaskSnapshot) → Task → Option (Result Task)
  retitled paths rounds none t = some (ok t)
  retitled paths rounds (some existing) t =
      elim (deduplicate_title paths rounds t.title t.path existing) [
        | none ↦ none
        | some title ↦ some (ok (record t { title = title }))
      ]

  abbrev pub retitle_result :
      Paths → ℕ → Option (List TaskSnapshot) → Result Task → Option (Result Task)
  retitle_result paths rounds existing (err e) = some (err e)
  retitle_result paths rounds existing (ok t) = retitled paths rounds existing t

  abbrev headers_of : Settings → CreateTaskRequest → Result (Dict String)
  headers_of settings request = elim (parse_headers strings settings.headers_text) [
    | inl e ↦ err (parsers.header_error e)
    | inr headers ↦ ok (
        merge_headers (merge_cookies strings headers settings.cookies_text)
          (entries request.headers))
  ]

  -- The directory and the number of blocks that the request asks for.
  unfoldable pub settings_for : CreateTaskRequest → Settings → Settings
  settings_for request settings = record settings {
    download_dir =
        if is_blank request.path then settings.download_dir else strings.trim_space request.path;
    block_num =
        if ltb_ℤ (pos 0) request.pre_block_num then request.pre_block_num else settings.block_num;
  }

  abbrev browser_titled : String → Task → Task
  browser_titled title t =
      let trimmed = strings.trim_space title in
      if str_eq trimmed "" then t else titled (safe_browser_title trimmed) t

  -- The task before its title is compared with those of others.
  unfoldable pub task_from_browser :
      Option (ParseParams → Resolution) → Settings → CreateTaskRequest → Result Task
  task_from_browser plugins settings request =
      if str_eq request.source "resource_merge"
      then parsers.new_merge_task request.title request.path request.resources settings
      else do
        headers ← headers_of settings request
        t ← create_task_from_source plugins request.url (settings_for request settings) headers
        ok (browser_titled request.title t)

  unfoldable pub create_task_from_browser :
      Option (ParseParams → Resolution)
      → Settings
      → Paths
      → ℕ
      → Option (List TaskSnapshot)
      → CreateTaskRequest
      → Option (Result Task)
  create_task_from_browser plugins settings paths rounds existing request =
      retitle_result paths rounds existing (task_from_browser plugins settings request)
