-- ===== src/Config/Settings/Normal.antt =====
-- Mended settings are in their ranges, and settings in their ranges are left alone.
use godown.Base.{◌≡◌, ◌≢◌, refl, inl, inr, Bool, true, String, arith, eq_iff, Bool-cases}
use godown.Base.Int.{ℤ, pos, ◌≤ℤ◌}
use godown.Config.Settings.{
  Settings, Environment, at_least, in_range, non_empty_or, allowed_or, is_theme, is_format,
  is_subtitle, normalized, default_settings, new_browser_pair_token,
}

pub record IsNormal (s : Settings) : Type 0 where
  pub theme : is_theme s.theme_mode ≡ true
  pub has_dir : s.download_dir ≢ ""
  pub blocks : pos 1 ≤ℤ s.block_num
  pub retries : pos 0 ≤ℤ s.retry_count
  pub concurrent : pos 1 ≤ℤ s.max_concurrent
  pub speed : pos 0 ≤ℤ s.speed_limit_kib
  pub has_token : s.browser_pair_token ≢ ""
  pub port_low : pos 1 ≤ℤ s.browser_bridge_port
  pub port_high : s.browser_bridge_port ≤ℤ pos 65535
  pub has_ffmpeg : s.ffmpeg_install_dir ≢ ""
  pub listen_low : pos 0 ≤ℤ s.bt_listen_port
  pub listen_high : s.bt_listen_port ≤ℤ pos 65535
  pub metadata_low : pos 5 ≤ℤ s.bt_metadata_timeout_sec
  pub metadata_high : s.bt_metadata_timeout_sec ≤ℤ pos 300
  pub connections_low : pos 20 ≤ℤ s.bt_connections_limit
  pub connections_high : s.bt_connections_limit ≤ℤ pos 2000
  pub download_rate : pos 0 ≤ℤ s.bt_download_rate_limit_kib
  pub upload_rate : pos 0 ≤ℤ s.bt_upload_rate_limit_kib
  pub ratio_low : pos 0 ≤ℤ s.bt_seed_ratio_limit_percent
  pub ratio_high : s.bt_seed_ratio_limit_percent ≤ℤ pos 10000
  pub time_low : pos 0 ≤ℤ s.bt_seed_time_limit_minutes
  pub time_high : s.bt_seed_time_limit_minutes ≤ℤ pos 43200
  pub has_m3u8 : s.m3u8_install_dir ≢ ""
  pub format : is_format s.m3u8_output_format ≡ true
  pub threads : pos 1 ≤ℤ s.m3u8_thread_count
  pub m3u8_retries : pos 0 ≤ℤ s.m3u8_retry_count
  pub timeout : pos 1 ≤ℤ s.m3u8_request_timeout_sec
  pub subtitle : is_subtitle s.m3u8_subtitle_format ≡ true

at_least_bound : (low d x : ℤ) → low ≤ℤ d → low ≤ℤ at_least low d x
unfolding at_least
at_least_bound low d x h = ground arith

in_range_bounds :
    (low high d x : ℤ)
    → low ≤ℤ d
    → d ≤ℤ high
    → (low ≤ℤ in_range low high d x) × (in_range low high d x ≤ℤ high)
unfolding in_range
in_range_bounds low high d x h k = ground arith

non_empty_or-ne : (d x : String) → d ≢ "" → non_empty_or d x ≢ ""
unfolding non_empty_or
non_empty_or-ne d x h = ground (arith, eq_iff x "")

allowed_or_allowed :
    (allowed : String → Bool) (d x : String)
    → allowed d ≡ true
    → allowed (allowed_or allowed d x) ≡ true
unfolding allowed_or
allowed_or_allowed allowed d x h = elim (Bool-cases (allowed x)) [
  | inl e ↦ rw (e, allowed_or) e
  | inr e ↦ rw (e, allowed_or) h
]

-- What the environment has to give: directories and a token that are not empty.
pub record IsUsable (env : Environment) : Type 0 where
  pub has_dir : env.download_dir ≢ ""
  pub has_token : new_browser_pair_token env.random_token ≢ ""
  pub has_ffmpeg : env.join env.runtime_dir "FFmpeg" ≢ ""
  pub has_m3u8 : env.join env.runtime_dir "N_m3u8DL-RE" ≢ ""

-- Whatever a settings file holds, each of the mended settings is in the range that the downloaders
-- and the servers expect, if the environment names directories and a token that are not empty.
pub normalized-IsNormal :
    (env : Environment) (s : Settings) → IsUsable env → IsNormal (normalized env s)
unfolding normalized default_settings
normalized-IsNormal env s usable =
    let port =
      in_range_bounds (pos 1) (pos 65535) (pos 14370) s.browser_bridge_port (omega arith)
        (omega arith) in
    let listen =
      in_range_bounds (pos 0) (pos 65535) (pos 0) s.bt_listen_port (omega arith) (omega arith) in
    let metadata =
      in_range_bounds (pos 5) (pos 300) (pos 30) s.bt_metadata_timeout_sec (omega arith)
        (omega arith) in
    let connections =
      in_range_bounds (pos 20) (pos 2000) (pos 500) s.bt_connections_limit (omega arith)
        (omega arith) in
    let ratio =
      in_range_bounds (pos 0) (pos 10000) (pos 0) s.bt_seed_ratio_limit_percent (omega arith)
        (omega arith) in
    let time =
      in_range_bounds (pos 0) (pos 43200) (pos 0) s.bt_seed_time_limit_minutes (omega arith)
        (omega arith) in
    record {
      theme = allowed_or_allowed is_theme "dark" s.theme_mode refl;
      has_dir = non_empty_or-ne env.download_dir s.download_dir usable.has_dir;
      blocks = at_least_bound (pos 1) (pos 8) s.block_num (omega arith);
      retries = at_least_bound (pos 0) (pos 0) s.retry_count (omega arith);
      concurrent = at_least_bound (pos 1) (pos 3) s.max_concurrent (omega arith);
      speed = at_least_bound (pos 0) (pos 0) s.speed_limit_kib (omega arith);
      has_token = non_empty_or-ne _ s.browser_pair_token usable.has_token;
      port_low = port.0;
      port_high = port.1;
      has_ffmpeg = non_empty_or-ne _ s.ffmpeg_install_dir usable.has_ffmpeg;
      listen_low = listen.0;
      listen_high = listen.1;
      metadata_low = metadata.0;
      metadata_high = metadata.1;
      connections_low = connections.0;
      connections_high = connections.1;
      download_rate = at_least_bound (pos 0) (pos 0) s.bt_download_rate_limit_kib (omega arith);
      upload_rate = at_least_bound (pos 0) (pos 0) s.bt_upload_rate_limit_kib (omega arith);
      ratio_low = ratio.0;
      ratio_high = ratio.1;
      time_low = time.0;
      time_high = time.1;
      has_m3u8 = non_empty_or-ne _ s.m3u8_install_dir usable.has_m3u8;
      format = allowed_or_allowed is_format "mp4" s.m3u8_output_format refl;
      threads = at_least_bound (pos 1) (pos 8) s.m3u8_thread_count (omega arith);
      m3u8_retries = at_least_bound (pos 0) (pos 0) s.m3u8_retry_count (omega arith);
      timeout = at_least_bound (pos 1) (pos 100) s.m3u8_request_timeout_sec (omega arith);
      subtitle = allowed_or_allowed is_subtitle "SRT" s.m3u8_subtitle_format refl;
    }
