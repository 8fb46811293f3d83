-- ===== src/Tests/Tracking.antt =====
-- Tracker addresses on a concrete input.
use godown.Base.{◌≡◌, refl, none, some, List, String, [], ◌∷◌, str_eq, if◌then◌else◌}
use godown.Bt.Trackers.{Texts, add_candidate, add_candidates, add_values, parse_trackers}

-- The library on the two texts used here.
abbrev texts : Texts
texts = record {
  fields =
      λ s. if str_eq s "udp://a/ udp://a/ b" then "udp://a/" ∷ "udp://a/" ∷ "b" ∷ [] else s ∷ [];
  trim_space = λ s. s;
  to_lower = λ s. s;
  parse_url =
      λ s. if str_eq s "udp://a/" then some (record { scheme = "udp"; host = "a" }) else none;
}

abbrev given : List String
given = "udp://a/ udp://a/ b" ∷ []

found : parse_trackers texts given ≡ "udp://a/" ∷ []
unfolding parse_trackers add_values add_candidates add_candidate
found = refl
