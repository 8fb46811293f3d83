-- ===== src/Bt/Trackers/Client.antt =====
-- internal/btruntime/client.go: ParseTrackers of the client, which does without the engine.
use godown.Base.{
  ◌≡◌, refl, sym, Bool, false, not, ◌&&◌, ◌||◌, none, some, List, [], ◌∷◌, ◌++◌, String, str_eq,
  mem, arith, eq_iff, inl, inr, subst, str_eq→eq, Option-cases, Bool-cases, if◌then◌else◌,
}
use godown.Bt.Trackers.{
  Texts, tracker_schemes, is_tracker, add_candidate, add_candidates, add_values, parse_trackers,
}

str_eq_comm : (a b : String) → str_eq a b ≡ str_eq b a
str_eq_comm a b = ground (arith, eq_iff a b, eq_iff b a)

module _ (texts : Texts) where
  -- The switch over the scheme.
  abbrev pub is_scheme : String → Bool
  is_scheme scheme =
      let lower = texts.to_lower scheme in
      str_eq lower "http"
      || str_eq lower "https"
      || str_eq lower "udp"
      || str_eq lower "ws"
      || str_eq lower "wss"

  abbrev pub client_takes : String → Bool
  client_takes tracker = elim (texts.parse_url tracker) [
    | none ↦ false
    | some url ↦ not (str_eq url.host "") && is_scheme url.scheme
  ]

  -- The body of the loop.
  unfoldable pub client_add : String → List String → List String
  client_add tracker result =
      if str_eq tracker "" || not (client_takes tracker) || mem tracker result
      then result
      else result ++ tracker ∷ []

  unfoldable pub client_add_fields : List String → List String → List String
  client_add_fields [] result = result
  client_add_fields (field ∷ rest) result =
      client_add_fields rest (client_add (texts.trim_space field) result)

  unfoldable pub client_parse_trackers : String → List String
  client_parse_trackers text = client_add_fields (texts.fields text) []

  -- The empty address has no host.
  abbrev pub EmptyHasNoHost : Type 0
  EmptyHasNoHost = is_tracker texts "" ≡ false

  is_scheme_same :
      (scheme : String) → is_scheme scheme ≡ mem (texts.to_lower scheme) tracker_schemes
  is_scheme_same scheme =
      let lower = texts.to_lower scheme in
      ground (
        arith,
        str_eq_comm lower "http",
        str_eq_comm lower "https",
        str_eq_comm lower "udp",
        str_eq_comm lower "ws",
        str_eq_comm lower "wss",
      )

  client_takes_same : (tracker : String) → client_takes tracker ≡ is_tracker texts tracker
  client_takes_same tracker = elim (Option-cases (texts.parse_url tracker)) [
    | inl e ↦ ground arith
    | inr (url, e) ↦ ground (arith, is_scheme_same url.scheme)
  ]

  client_add_same :
      (tracker : String) (result : List String)
      → EmptyHasNoHost
      → client_add tracker result ≡ add_candidate texts tracker result
  unfolding client_add add_candidate
  client_add_same tracker result empty = elim (Bool-cases (str_eq tracker "")) [
    | inl blank ↦
        let nothing : is_tracker texts tracker ≡ false =
          subst (λ t. is_tracker texts t ≡ false) (sym (str_eq→eq tracker "" blank)) empty in
        ground (arith, nothing)
    | inr filled ↦ ground (arith, client_takes_same tracker)
  ]

  client_fields_same :
      (fields result : List String)
      → EmptyHasNoHost
      → client_add_fields fields result ≡ add_candidates texts fields result
  unfolding client_add_fields add_candidates
  client_fields_same [] result empty = refl
  client_fields_same (field ∷ rest) result empty =
      rw (client_add_same (texts.trim_space field) result empty)
        (client_fields_same rest (add_candidate texts (texts.trim_space field) result) empty)

  -- The two parsers of trackers, that of the program and that of the engine's process, find the
  -- same addresses in a text, in the same order, if the empty address has no host.
  pub client_parse_trackers_same :
      (text : String)
      → EmptyHasNoHost
      → client_parse_trackers text ≡ parse_trackers texts (text ∷ [])
  unfolding client_parse_trackers parse_trackers add_values
  client_parse_trackers_same text empty = client_fields_same (texts.fields text) [] empty
