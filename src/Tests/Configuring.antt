-- ===== src/Tests/Configuring.antt =====
-- The settings on concrete inputs.
use godown.Base.{◌≡◌, refl, some, concat}
use godown.Base.Int.{pos, negsuc}
use godown.Config.Settings.{
  Settings, Environment, default_settings, new_browser_pair_token, normalized, at_least,
}
use godown.Config.Settings.Normal.{IsNormal, IsUsable, normalized-IsNormal}

abbrev pub env : Environment
env = record {
  download_dir = "C:/Downloads";
  runtime_dir = "C:/Runtime";
  join = λ a b. concat (concat a "/") b;
  random_token = some "token";
}

env-IsUsable : IsUsable env
unfolding new_browser_pair_token
env-IsUsable = record {
  has_dir = λ e. cc;
  has_token = λ e. cc;
  has_ffmpeg = λ e. cc;
  has_m3u8 = λ e. cc;
}

-- Settings with a number of blocks below 1.
abbrev pub no_blocks : Settings
no_blocks = record (default_settings env) { block_num = negsuc 2 }

blocks_mended : (normalized env no_blocks).block_num ≡ pos 8
unfolding normalized default_settings at_least
blocks_mended = refl

normalized-IsNormal_example : IsNormal (normalized env no_blocks)
normalized-IsNormal_example = normalized-IsNormal env no_blocks env-IsUsable
