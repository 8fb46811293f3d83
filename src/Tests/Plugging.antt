-- ===== src/Tests/Plugging.antt =====
-- Plugins on a small directory, with processes that answer as they are told.
use godown.Base.{
  ℕ, ◌+◌, ◌≡◌, refl, true, false, Option, none, some, List, [], ◌∷◌, String, length, inl, inr,
  arith, concat, str_eq, if◌then◌else◌,
}
use godown.Base.Int.{pos}
use godown.Core.Output.{Error, message, Result, ok, err}
use godown.Plugins.Manifest.{Manifest, Problem, start_failed, ParseParams}
use godown.Plugins.Call.{
  match_params, Request, Response, Exchange, call, accept_line, accept_response, read_line,
}
use godown.Plugins.Call.Checked.{EndedWell, IsAccepted, line_of, call_checked}
use godown.Plugins.Manager.{ManifestFile, DirEntry, Plugin, id_of, Calls, discover, call_matches}
use godown.Plugins.Manager.Sorting.{Ordered}
use godown.Plugins.Manager.Finding.{AllValid, count_manifests, discover_finds}

abbrev manifest_of : String → Manifest
manifest_of id = record {
  id = id;
  name = "n";
  version = "1";
  protocol_version = pos 1;
  executable = "run";
  args = [];
  env = [];
  timeout_ms = pos 0;
}

abbrev directory : List DirEntry
directory =
    record { name = "x"; is_dir = true; file = ManifestFile.manifest (manifest_of "b") }
    ∷ record { name = "y"; is_dir = true; file = ManifestFile.manifest (manifest_of "a") }
    ∷ record { name = "z"; is_dir = true; file = ManifestFile.manifest (manifest_of "b") }
    ∷ []

abbrev join : String → String → String
join a b = concat (concat a "/") b

discover_finds_example :
    (plugins : List Plugin) × (problems : List Problem) × (discover join
        (λ s. s)
        "p"
        (ok (some directory))
      ≡ ok (plugins, problems))
    × Ordered plugins
    × AllValid join (λ s. s) plugins
    × (length plugins + length problems ≡ count_manifests directory)
discover_finds_example = discover_finds join (λ s. s) "p" directory

-- A process that writes one byte, the answer, and a line end.
abbrev exchange : ℕ → Exchange
exchange answer = record {
  pipe_error = none;
  start_error = none;
  write_error = none;
  close_error = none;
  stdout = answer ∷ 10 ∷ [];
  read_error = none;
  stderr = [];
  exit_error = none;
  expired = false;
}

-- The first byte is the number of the request.
abbrev parse_response : List ℕ → Result Response
parse_response [] = err (message "unexpected end")
parse_response (n ∷ line) =
    ok (record { jsonrpc = "2.0"; id = pos n; error = none; result = n ∷ line })

abbrev decode : List ℕ → Result (List ℕ)
decode raw = ok raw

abbrev process : Request → Exchange
process request = exchange request.id

call_checked_example :
    ((call parse_response decode (manifest_of "a") "matches" (match_params "u") process 0).0 ≡ 1)
    × (◌≡◌ {A = Option Error} none none)
    × (◌≡◌ {A = Option Error} none none)
    × EndedWell parse_response decode (exchange 1)
    × ((r : Response) × (parse_response (line_of parse_response decode (exchange 1)) ≡ ok r)
        × IsAccepted decode 1 r (1 ∷ 10 ∷ []))
unfolding call accept_line accept_response read_line
call_checked_example =
    call_checked parse_response decode (manifest_of "a") "matches" (match_params "u") process 0
      (1 ∷ 10 ∷ []) refl

abbrev plugin_of : String → Plugin
plugin_of id = record { manifest = manifest_of id; manifest_dir = "p" }

abbrev start : Plugin → Option Error
start p = if str_eq (id_of p) "a" then some (message "not found") else none

-- The plugin "a" cannot be started; any other answers.
abbrev calls : Calls
calls = record {
  trim_space = λ s. s;
  parse_response = parse_response;
  decode_match = λ raw. ok true;
  decode_result = λ raw. err (message "no result");
  decode_manifest = λ raw. err (message "no manifest");
  process = λ p r. record (exchange r.id) { start_error = start p };
}

abbrev params : ParseParams
params = record { url = "u"; download_dir = "d"; headers = []; proxy_url = "" }

plugin_b-Matches : (requests : ℕ) → (call_matches calls (plugin_of "b") "u" requests).1 ≡ inl true
unfolding call_matches call accept_line accept_response read_line
plugin_b-Matches requests = ground arith

plugin_a_fails :
    (requests : ℕ)
    → (call_matches calls (plugin_of "a") "u" requests).1 ≡ inr (start_failed (message "not found"))
unfolding call_matches call
plugin_a_fails requests = refl
