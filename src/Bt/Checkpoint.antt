-- ===== src/Bt/Checkpoint.antt =====
-- internal/download/bt/model.go: what of a transfer a task keeps, and ResetTask of
-- internal/download/bt/worker.go.
pub mod Kept
use godown.Base.{
  ℕ, ◌≡◌, Bool, true, false, Option, none, some, List, [], ◌∷◌, String, Dict, concat, if◌then◌else◌,
}
use godown.Base.Int.{ℤ, pos, ltb_ℤ, ◌*ℤ◌}
use godown.Core.Task.{Task, StringMap, Percent, percent, zero_percent, read}
use godown.Core.Output.{Error, Result, ok, err, ◌>>=◌}
use godown.Core.Scheduler.Runs.{merge_state}
use godown.Bt.Files.{File, FileTexts, files_from_task, selected_size}

-- json and strconv: what reads a text gives `none` on an error.
pub record Codec : Type 0 where
  pub files : FileTexts
  pub parse_int : String → Option ℤ
  pub format_int : ℤ → String
  pub parse_bool : String → Option Bool
  pub parse_ratio : String → Percent  -- ParseFloat, its error ignored
  pub format_ratio : Percent → String  -- with four digits
  pub show_ratio : Percent → String  -- with two digits
  pub spaced : String → String  -- ReplaceAll of "_" by " "

pub record RuntimeState : Type 0 where
  pub files : List File
  pub uploaded_bytes : ℤ
  pub seeding_seconds : ℤ
  pub phase : String
  pub peer_count : ℤ
  pub seed_count : ℤ
  pub download_rate : ℤ
  pub upload_rate : ℤ
  pub share_ratio : Percent

-- The limits and switches of a transfer.
pub record RuntimeOptions : Type 0 where
  pub metadata_timeout : ℤ  -- nanoseconds
  pub listen_port : ℤ
  pub connections_limit : ℤ
  pub download_rate_limit : ℤ
  pub upload_rate_limit : ℤ
  pub enable_dht : Bool
  pub enable_lsd : Bool
  pub enable_upnp : Bool
  pub enable_natpmp : Bool
  pub sequential_download : Bool
  pub seed_ratio_limit_percent : ℤ
  pub seed_time_limit_minutes : ℤ
  pub save_magnet_torrent_file : Bool

abbrev pub or_fallback {ℓ} : {A : Type ℓ} → Option A → A → A
or_fallback none fallback = fallback
or_fallback (some a) fallback = a

abbrev second : ℤ
second = pos 1000000000

abbrev pub reset_file : File → File
reset_file f = record f { downloaded = pos 0; completed = false }

unfoldable pub reset_files : List File → List File
reset_files [] = []
reset_files (f ∷ files) = reset_file f ∷ reset_files files

abbrev pub reset_state : RuntimeState → RuntimeState
reset_state s = record {
  files = reset_files s.files;
  uploaded_bytes = pos 0;
  seeding_seconds = pos 0;
  phase = "";
  peer_count = pos 0;
  seed_count = pos 0;
  download_rate = pos 0;
  upload_rate = pos 0;
  share_ratio = zero_percent;
}

module _ (codec : Codec) where
  -- intState and int64State.
  unfoldable pub int_state : StringMap → String → ℤ → ℤ
  int_state state key fallback = or_fallback (codec.parse_int (read key state)) fallback

  unfoldable pub bool_state : StringMap → String → Bool → Bool
  bool_state state key fallback = or_fallback (codec.parse_bool (read key state)) fallback

  unfoldable pub runtime_state_from_task : Task → Result RuntimeState
  runtime_state_from_task t = do
    files ← files_from_task codec.files t
    let state = t.stage.state
    ok (record {
      files = files;
      uploaded_bytes = int_state state "uploadedBytes" (pos 0);
      seeding_seconds = int_state state "seedingTimeSeconds" (pos 0);
      phase = read "phase" state;
      peer_count = int_state state "peerCount" (pos 0);
      seed_count = int_state state "seedCount" (pos 0);
      download_rate = int_state state "downloadRate" (pos 0);
      upload_rate = int_state state "uploadRate" (pos 0);
      share_ratio = codec.parse_ratio (read "shareRatioPercent" state);
    })

  unfoldable pub runtime_state_patch : RuntimeState → Dict String
  runtime_state_patch s =
      ("files", codec.files.encode s.files)
      ∷ ("uploadedBytes", codec.format_int s.uploaded_bytes)
      ∷ ("seedingTimeSeconds", codec.format_int s.seeding_seconds)
      ∷ ("phase", s.phase)
      ∷ ("peerCount", codec.format_int s.peer_count)
      ∷ ("seedCount", codec.format_int s.seed_count)
      ∷ ("downloadRate", codec.format_int s.download_rate)
      ∷ ("uploadRate", codec.format_int s.upload_rate)
      ∷ ("shareRatioPercent", codec.format_ratio s.share_ratio)
      ∷ []

  unfoldable pub runtime_options_from_task : Task → RuntimeOptions
  runtime_options_from_task t =
      let state = t.stage.state in
      record {
        metadata_timeout = int_state state "metadataTimeoutSec" (pos 30) *ℤ second;
        listen_port = int_state state "listenPort" (pos 0);
        connections_limit = int_state state "connectionsLimit" (pos 500);
        download_rate_limit = int_state state "downloadRateLimit" (pos 0);
        upload_rate_limit = int_state state "uploadRateLimit" (pos 0);
        enable_dht = bool_state state "enableDHT" true;
        enable_lsd = bool_state state "enableLSD" true;
        enable_upnp = bool_state state "enableUPnP" true;
        enable_natpmp = bool_state state "enableNATPMP" true;
        sequential_download = bool_state state "sequentialDownload" false;
        seed_ratio_limit_percent = int_state state "seedRatioLimitPercent" (pos 0);
        seed_time_limit_minutes = int_state state "seedTimeLimitMinutes" (pos 0);
        save_magnet_torrent_file = bool_state state "saveMagnetTorrentFile" false;
      }

  abbrev pub cleared : Task → RuntimeState → Task
  cleared t fresh = record t {
    file_size = selected_size fresh.files;
    uses_slot = true;
    detail = "";
    stage = record t.stage {
      state = merge_state (runtime_state_patch fresh) t.stage.state;
      file_size = selected_size fresh.files;
    };
  }

  -- ResetTask.
  unfoldable pub reset_task : Task → Result Task
  reset_task t = do s ← runtime_state_from_task t; ok (cleared t (reset_state s))
