-- ===== src/Plugins/Manifest.antt =====
-- internal/pluginhost/protocol.go: what a plugin says of itself, and what it may answer.
use godown.Base.{
  ℕ, Bool, true, false, not, ◌&&◌, ◌||◌, Option, none, some, List, String, Dict, leb, ◌==◌, str_eq,
  mem, length, [], ◌∷◌, if◌then◌else◌,
}
use godown.Base.Int.{ℤ, pos, pos_part, ltb_ℤ, eq_ℤ}
use godown.Core.Output.{Error}
use Prim.Native.Char.{Char, code}
use text.Mathlib.TextBridge.{to_list}

pub record Manifest : Type 0 where
  pub id : String
  pub name : String
  pub version : String
  pub protocol_version : ℤ
  pub executable : String
  pub args : List String
  pub env : Dict String
  pub timeout_ms : ℤ

-- The errors of the package, each with what its message shows.
pub data Problem : Type 0 where
  unreadable : String → Error → Problem
  bad_manifest : String → Error → Problem
  invalid_id : String → Problem
  no_name : String → Problem
  unsupported : String → ℤ → Problem
  no_executable : String → Problem
  bad_timeout : String → Problem
  duplicate_id : String → Problem
  pipe_failed start_failed write_failed close_failed : Error → Problem
  timed_out : ℕ → Problem
  read_failed : Error → Problem
  too_long : Problem
  process_exited bad_json : Error → List ℕ → Problem
  bad_envelope : Problem
  rpc_error : ℤ → String → Problem
  no_result : Problem
  bad_result : Error → Problem
  wrong_manifest : String → String → Problem
  unsupported_kind : String → Problem
  empty_url : Problem
  in_plugin : String → Problem → Problem

abbrev is_letter_or_digit : Char → Bool
is_letter_or_digit c = leb 97 (code c) && leb (code c) 122 || leb 48 (code c) && leb (code c) 57

-- Letters, digits and the characters `.`, `_` and `-`.
abbrev is_id_char : Char → Bool
is_id_char c = is_letter_or_digit c || code c == 46 || code c == 95 || code c == 45

all_id_chars : List Char → Bool
all_id_chars [] = true
all_id_chars (c ∷ s) = let rest = all_id_chars s in is_id_char c && rest

id_chars : List Char → Bool
unfolding all_id_chars
id_chars [] = false
id_chars (c ∷ s) = is_letter_or_digit c && all_id_chars s && leb (length s) 63

-- The match of ^[a-z0-9][a-z0-9._-]{0,63}$.
unfoldable pub valid_plugin_id : String → Bool
unfolding id_chars
valid_plugin_id s = id_chars (to_list s)

abbrev pub plugin_protocol : ℤ
plugin_protocol = pos 1

-- `trim_space` is strings.TrimSpace.
module _ (trim_space : String → String) where
  abbrev pub is_blank : String → Bool
  is_blank s = str_eq (trim_space s) ""

  unfoldable pub validate : Manifest → Option Problem
  validate m =
      if not (valid_plugin_id m.id)
      then some (invalid_id m.id)
      else if is_blank m.name || is_blank m.version
      then some (no_name m.id)
      else if not (eq_ℤ m.protocol_version plugin_protocol)
      then some (unsupported m.id m.protocol_version)
      else if is_blank m.executable
      then some (no_executable m.id)
      else if ltb_ℤ m.timeout_ms (pos 0) || ltb_ℤ (pos 120000) m.timeout_ms
      then some (bad_timeout m.id)
      else none

-- In milliseconds.
unfoldable pub timeout : Manifest → ℕ
timeout m = if eq_ℤ m.timeout_ms (pos 0) then 10000 else pos_part m.timeout_ms

pub record ParseParams : Type 0 where
  pub url : String
  pub download_dir : String
  pub headers : Dict String
  pub proxy_url : String

pub record ParseResult : Type 0 where
  pub kind : String
  pub url : String
  pub title : String
  pub headers : Dict String

unfoldable pub validate_result : (String → String) → ParseResult → Option Problem
validate_result trim_space r =
    if not (mem r.kind ("http" ∷ "m3u8" ∷ "bt" ∷ []))
    then some (unsupported_kind r.kind)
    else if is_blank trim_space r.url
    then some empty_url
    else none
