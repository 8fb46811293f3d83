-- ===== src/Bt/Trackers.antt =====
-- internal/download/bt/trackers.go: the addresses of trackers that a text names.
pub mod Client
use godown.Base.{
  Bool, true, false, not, ◌&&◌, ◌||◌, Option, none, some, List, [], ◌∷◌, ◌++◌, String, str_eq, mem,
  if◌then◌else◌,
}

-- url.Parse, as far as the code looks at its result.
pub record Url : Type 0 where
  pub scheme : String
  pub host : String

-- The functions of strings and net/url that the code calls; `parse_url` has none for an error.
pub record Texts : Type 0 where
  pub fields : String → List String
  pub trim_space : String → String
  pub to_lower : String → String
  pub parse_url : String → Option Url

abbrev pub tracker_schemes : List String
tracker_schemes = "http" ∷ "https" ∷ "udp" ∷ "ws" ∷ "wss" ∷ []

module _ (texts : Texts) where
  abbrev pub is_tracker_url : Option Url → Bool
  is_tracker_url none = false
  is_tracker_url (some url) =
      not (str_eq url.host "") && mem (texts.to_lower url.scheme) tracker_schemes

  abbrev pub is_tracker : String → Bool
  is_tracker candidate = is_tracker_url (texts.parse_url candidate)

  -- The body of the inner loop; `seen` and `result` hold the same addresses.
  unfoldable pub add_candidate : String → List String → List String
  add_candidate candidate result =
      if is_tracker candidate && not (mem candidate result)
      then result ++ candidate ∷ []
      else result

  unfoldable pub add_candidates : List String → List String → List String
  unfolding add_candidate
  add_candidates [] result = result
  add_candidates (field ∷ rest) result =
      add_candidates rest (add_candidate (texts.trim_space field) result)

  unfoldable pub add_values : List String → List String → List String
  unfolding add_candidates
  add_values [] result = result
  add_values (value ∷ values) result =
      add_values values (add_candidates (texts.fields value) result)

  unfoldable pub parse_trackers : List String → List String
  unfolding add_values
  parse_trackers values = add_values values []
