-- ===== src/Plugins/Manager.antt =====
-- internal/pluginhost/manager.go: the plugins that are found, and which of them resolves an address.
pub mod Sorting
pub mod Finding
pub mod Resolving
use godown.Base.{
  ℕ, Bool, true, false, Option, none, some, List, [], ◌∷◌, ◌++◌, String, mem, str_eq, str_lt,
  if◌then◌else◌, ◌⊎◌, inl, inr,
}
use godown.Core.Output.{Error, Result, ok, err}
use godown.Plugins.Manifest.{
  Manifest, Problem, unreadable, bad_manifest, duplicate_id, wrong_manifest, in_plugin, ParseParams,
  ParseResult, validate, validate_result,
}
use godown.Plugins.Call.{
  Params, no_params, match_params, parse_params, Request, Response, Exchange, call,
}

-- What os.ReadFile and json.Unmarshal make of the manifest of a directory.
pub data ManifestFile : Type 0 where
  absent : ManifestFile
  read_error not_json : Error → ManifestFile
  manifest : Manifest → ManifestFile

-- An entry of the plugin directory, in the order of os.ReadDir.
pub record DirEntry : Type 0 where
  pub name : String
  pub is_dir : Bool
  pub file : ManifestFile

pub record Plugin : Type 0 where
  pub manifest : Manifest
  pub manifest_dir : String

abbrev pub id_of : Plugin → String
id_of p = p.manifest.id

-- `seen` holds the ids of the plugins.
pub record Found : Type 0 where
  pub plugins : List Plugin
  pub problems : List Problem
  pub seen : List String

abbrev pub report : Problem → Found → Found
report problem found = record found { problems = found.problems ++ problem ∷ [] }

unfoldable pub insert_plugin : Plugin → List Plugin → List Plugin
insert_plugin p [] = p ∷ []
insert_plugin p (q ∷ l) =
    let rest = insert_plugin p l in if str_lt (id_of q) (id_of p) then q ∷ rest else p ∷ q ∷ l

-- sort.Slice by id.
unfoldable pub sort_plugins : List Plugin → List Plugin
sort_plugins [] = []
sort_plugins (p ∷ l) = insert_plugin p (sort_plugins l)

module _ (join : String → String → String) (trim_space : String → String) where
  abbrev pub add_plugin : Manifest → String → Found → Found
  add_plugin m dir found =
      if mem m.id found.seen then report (duplicate_id m.id) found else record found {
        plugins = found.plugins ++ record { manifest = m; manifest_dir = dir } ∷ [];
        seen = m.id ∷ found.seen;
      }

  -- What a directory holds.
  unfoldable pub take_file : String → String → ManifestFile → Found → Found
  take_file root name absent found = found
  take_file root name (read_error x) found = report (unreadable name x) found
  take_file root name (not_json x) found = report (bad_manifest name x) found
  take_file root name (manifest m) found = elim (validate trim_space m) [
    | some problem ↦ report problem found
    | none ↦ add_plugin m (join root name) found
  ]

  -- The body of the loop of Discover.
  unfoldable pub take_entry : String → DirEntry → Found → Found
  take_entry root e found = if e.is_dir then take_file root e.name e.file found else found

  unfoldable pub take_entries : String → List DirEntry → Found → Found
  take_entries root [] found = found
  take_entries root (e ∷ entries) found = take_entries root entries (take_entry root e found)

  -- The argument is what os.ReadDir gives, `ok none` for a directory that does not exist.
  unfoldable pub discover :
      String → Result (Option (List DirEntry)) → Result (List Plugin × List Problem)
  discover root (err e) = err e
  discover root (ok none) = ok ([], [])
  discover root (ok (some entries)) =
      let found = take_entries root entries (record { plugins = []; problems = []; seen = [] }) in
      ok (sort_plugins found.plugins, found.problems)

-- What Resolve returns: a result, the error of the plugin that matched, or that none matched.
pub data Resolution : Type 0 where
  parsed : ParseResult → Resolution
  failed : Problem → Resolution
  unmatched : List Problem → Resolution

-- How the answers of a plugin are read, and what its processes do.
pub record Calls : Type 0 where
  pub trim_space : String → String
  pub parse_response : List ℕ → Result Response
  pub decode_match : List ℕ → Result Bool
  pub decode_result : List ℕ → Result ParseResult
  pub decode_manifest : List ℕ → Result Manifest
  pub process : Plugin → Request → Exchange

module _ (calls : Calls) where
  unfoldable pub call_matches : Plugin → String → ℕ → ℕ × (Bool ⊎ Problem)
  call_matches p url requests =
      call calls.parse_response calls.decode_match p.manifest "matches" (match_params url)
        (calls.process p) requests

  unfoldable pub call_parse : Plugin → ParseParams → ℕ → ℕ × (ParseResult ⊎ Problem)
  call_parse p params requests =
      call calls.parse_response calls.decode_result p.manifest "parse" (parse_params params)
        (calls.process p) requests

  -- The answer of the plugin that has matched.
  unfoldable pub accept_parsed : Plugin → ParseResult ⊎ Problem → Resolution
  accept_parsed p (inr problem) = failed (in_plugin (id_of p) problem)
  accept_parsed p (inl r) = elim (validate_result calls.trim_space r) [
    | some problem ↦ failed (in_plugin (id_of p) problem)
    | none ↦ parsed r
  ]

  unfoldable pub resolve_each : List Plugin → ParseParams → List Problem → ℕ → ℕ × Resolution
  resolve_each [] params problems requests = (requests, unmatched problems)
  resolve_each (p ∷ rest) params problems requests =
      let asked = call_matches p params.url requests in
      elim asked.1 [
        | inr problem ↦
            resolve_each rest params (problems ++ in_plugin (id_of p) problem ∷ []) asked.0
        | inl false ↦ resolve_each rest params problems asked.0
        | inl true ↦
            let answer = call_parse p params asked.0 in (answer.0, accept_parsed p answer.1)
      ]

  unfoldable pub resolve : List Plugin → ParseParams → ℕ → ℕ × Resolution
  resolve plugins params requests = resolve_each plugins params [] requests

  unfoldable pub check_answer : Plugin → Manifest ⊎ Problem → Manifest ⊎ Problem
  check_answer p (inr problem) = inr problem
  check_answer p (inl remote) = elim (validate calls.trim_space remote) [
    | some problem ↦ inr problem
    | none ↦
        if str_eq remote.id (id_of p) then inl remote else inr (wrong_manifest (id_of p) remote.id)
  ]

  unfoldable pub check_manifest : Plugin → ℕ → ℕ × (Manifest ⊎ Problem)
  check_manifest p requests =
      let answer =
        call calls.parse_response calls.decode_manifest p.manifest "manifest" no_params
          (calls.process p) requests in
      (answer.0, check_answer p answer.1)
