-- ===== src/Config/Settings.antt =====
-- internal/config/settings.go: the settings, their defaults, and how loaded settings are mended.
pub mod Normal
use godown.Base.{
  Bool, true, false, not, ◌&&◌, ◌||◌, Option, none, some, String, str_eq, if◌then◌else◌,
}
use godown.Base.Int.{ℤ, pos, ltb_ℤ}

pub record Settings : Type 0 where
  pub theme_mode : String
  pub download_dir : String
  pub proxy_url : String
  pub headers_text : String
  pub cookies_text : String
  pub block_num : ℤ
  pub retry_count : ℤ
  pub speed_limit_kib : ℤ
  pub max_concurrent : ℤ
  pub browser_extension_enabled : Bool
  pub browser_pair_token : String
  pub browser_bridge_port : ℤ
  pub ffmpeg_install_dir : String
  pub bt_listen_port : ℤ
  pub bt_metadata_timeout_sec : ℤ
  pub bt_connections_limit : ℤ
  pub bt_download_rate_limit_kib : ℤ
  pub bt_upload_rate_limit_kib : ℤ
  pub bt_sequential_download : Bool
  pub bt_enable_dht : Bool
  pub bt_enable_lsd : Bool
  pub bt_enable_upnp : Bool
  pub bt_enable_natpmp : Bool
  pub bt_seed_ratio_limit_percent : ℤ
  pub bt_seed_time_limit_minutes : ℤ
  pub bt_save_magnet_torrent_file : Bool
  pub bt_trackers_text : String
  pub m3u8_install_dir : String
  pub m3u8_output_format : String
  pub m3u8_thread_count : ℤ
  pub m3u8_retry_count : ℤ
  pub m3u8_request_timeout_sec : ℤ
  pub m3u8_concurrent_download : Bool
  pub m3u8_check_segments_count : Bool
  pub m3u8_delete_after_done : Bool
  pub m3u8_select_all_audio_subtitle : Bool
  pub m3u8_mp4_real_time_decryption : Bool
  pub m3u8_subtitle_format : String

-- What the defaults depend on: the directories, filepath.Join, and the random bytes in base64, of
-- which there are none where rand.Read fails.
pub record Environment : Type 0 where
  pub download_dir : String
  pub runtime_dir : String
  pub join : String → String → String
  pub random_token : Option String

unfoldable pub new_browser_pair_token : Option String → String
new_browser_pair_token none = "local-development-token"
new_browser_pair_token (some token) = token

unfoldable pub default_settings : Environment → Settings
default_settings env = record {
  theme_mode = "dark";
  download_dir = env.download_dir;
  proxy_url = "";
  headers_text = "";
  cookies_text = "";
  block_num = pos 8;
  retry_count = pos 3;
  speed_limit_kib = pos 0;
  max_concurrent = pos 3;
  browser_extension_enabled = false;
  browser_pair_token = new_browser_pair_token env.random_token;
  browser_bridge_port = pos 14370;
  ffmpeg_install_dir = env.join env.runtime_dir "FFmpeg";
  bt_listen_port = pos 0;
  bt_metadata_timeout_sec = pos 30;
  bt_connections_limit = pos 500;
  bt_download_rate_limit_kib = pos 0;
  bt_upload_rate_limit_kib = pos 0;
  bt_sequential_download = false;
  bt_enable_dht = true;
  bt_enable_lsd = true;
  bt_enable_upnp = true;
  bt_enable_natpmp = true;
  bt_seed_ratio_limit_percent = pos 0;
  bt_seed_time_limit_minutes = pos 0;
  bt_save_magnet_torrent_file = false;
  bt_trackers_text = "";
  m3u8_install_dir = env.join env.runtime_dir "N_m3u8DL-RE";
  m3u8_output_format = "mp4";
  m3u8_thread_count = pos 8;
  m3u8_retry_count = pos 3;
  m3u8_request_timeout_sec = pos 100;
  m3u8_concurrent_download = true;
  m3u8_check_segments_count = true;
  m3u8_delete_after_done = true;
  m3u8_select_all_audio_subtitle = true;
  m3u8_mp4_real_time_decryption = true;
  m3u8_subtitle_format = "SRT";
}

-- The four forms of the tests in Normalized: a number below a least value, a number out of a range,
-- an empty text, and a text that is none of those allowed.
unfoldable pub at_least : ℤ → ℤ → ℤ → ℤ
at_least low default x = if ltb_ℤ x low then default else x

unfoldable pub in_range : ℤ → ℤ → ℤ → ℤ → ℤ
in_range low high default x = if ltb_ℤ x low || ltb_ℤ high x then default else x

unfoldable pub non_empty_or : String → String → String
non_empty_or default x = if str_eq x "" then default else x

unfoldable pub allowed_or : (String → Bool) → String → String → String
allowed_or allowed default x = if allowed x then x else default

abbrev pub is_theme : String → Bool
is_theme x = str_eq x "system" || str_eq x "light" || str_eq x "dark"

abbrev pub is_format : String → Bool
is_format x = str_eq x "mp4" || str_eq x "mkv"

abbrev pub is_subtitle : String → Bool
is_subtitle x = str_eq x "SRT" || str_eq x "VTT"

unfoldable pub normalized : Environment → Settings → Settings
unfolding at_least in_range non_empty_or allowed_or
normalized env s =
    let defaults = default_settings env in
    record s {
      theme_mode = allowed_or is_theme defaults.theme_mode s.theme_mode;
      download_dir = non_empty_or env.download_dir s.download_dir;
      block_num = at_least (pos 1) (pos 8) s.block_num;
      retry_count = at_least (pos 0) (pos 0) s.retry_count;
      max_concurrent = at_least (pos 1) (pos 3) s.max_concurrent;
      speed_limit_kib = at_least (pos 0) (pos 0) s.speed_limit_kib;
      browser_pair_token =
          non_empty_or (new_browser_pair_token env.random_token) s.browser_pair_token;
      browser_bridge_port =
          in_range (pos 1) (pos 65535) defaults.browser_bridge_port s.browser_bridge_port;
      ffmpeg_install_dir = non_empty_or defaults.ffmpeg_install_dir s.ffmpeg_install_dir;
      bt_listen_port = in_range (pos 0) (pos 65535) defaults.bt_listen_port s.bt_listen_port;
      bt_metadata_timeout_sec =
          in_range (pos 5) (pos 300) defaults.bt_metadata_timeout_sec s.bt_metadata_timeout_sec;
      bt_connections_limit =
          in_range (pos 20) (pos 2000) defaults.bt_connections_limit s.bt_connections_limit;
      bt_download_rate_limit_kib =
          at_least (pos 0) defaults.bt_download_rate_limit_kib s.bt_download_rate_limit_kib;
      bt_upload_rate_limit_kib =
          at_least (pos 0) defaults.bt_upload_rate_limit_kib s.bt_upload_rate_limit_kib;
      bt_seed_ratio_limit_percent =
          in_range (pos 0) (pos 10000) defaults.bt_seed_ratio_limit_percent
            s.bt_seed_ratio_limit_percent;
      bt_seed_time_limit_minutes =
          in_range (pos 0) (pos 43200) defaults.bt_seed_time_limit_minutes
            s.bt_seed_time_limit_minutes;
      m3u8_install_dir = non_empty_or defaults.m3u8_install_dir s.m3u8_install_dir;
      m3u8_output_format = allowed_or is_format defaults.m3u8_output_format s.m3u8_output_format;
      m3u8_thread_count = at_least (pos 1) defaults.m3u8_thread_count s.m3u8_thread_count;
      m3u8_retry_count = at_least (pos 0) (pos 0) s.m3u8_retry_count;
      m3u8_request_timeout_sec =
          at_least (pos 1) defaults.m3u8_request_timeout_sec s.m3u8_request_timeout_sec;
      m3u8_subtitle_format =
          allowed_or is_subtitle defaults.m3u8_subtitle_format s.m3u8_subtitle_format;
    }
