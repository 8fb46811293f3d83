-- ===== src/Plugins/Manager/Resolving.antt =====
-- Which plugin resolves an address.
use godown.Base.{ℕ, ◌≡◌, ◌∙◌, ap, true, false, List, [], ◌∷◌, ◌++◌, ◌⊎◌, inl, inr, arith}
use godown.Plugins.Manifest.{Problem, ParseParams, in_plugin}
use godown.Plugins.Manager.{
  Plugin, id_of, Calls, call_matches, call_parse, accept_parsed, resolve_each, resolve,
}

module _ (calls : Calls) (params : ParseParams) where
  -- The plugin does not say that it knows the address: it says no, or its call fails.
  abbrev pub Declines : Plugin → Type 0
  Declines p =
      (requests : ℕ)
      → ((call_matches calls p params.url requests).1 ≡ inl false)
        ⊎ ((problem : Problem) × ((call_matches calls p params.url requests).1 ≡ inr problem))

  abbrev pub AllDecline : List Plugin → Type 0
  AllDecline [] = Unit {0}
  AllDecline (p ∷ l) = Declines p × AllDecline l

  abbrev pub Matches : Plugin → Type 0
  Matches p = (requests : ℕ) → (call_matches calls p params.url requests).1 ≡ inl true

  resolve_each_declined :
      (p : Plugin) (rest : List Plugin) (problems : List Problem) (requests : ℕ)
      → Declines p
      → (more : List Problem) × (resolve_each calls (p ∷ rest) params problems requests
          ≡ resolve_each calls rest params more (call_matches calls p params.url requests).0)
  unfolding resolve_each
  resolve_each_declined p rest problems requests declines = elim (declines requests) [
    | inl no_match ↦ (problems, ground arith)
    | inr (problem, broken) ↦ (problems ++ in_plugin (id_of p) problem ∷ [], ground arith)
  ]

  resolve_each_matched :
      (p : Plugin) (rest : List Plugin) (problems : List Problem) (requests : ℕ)
      → Matches p
      → (asked : ℕ) × ((resolve_each calls (p ∷ rest) params problems requests).1
          ≡ accept_parsed calls p (call_parse calls p params asked).1)
  unfolding resolve_each
  resolve_each_matched p rest problems requests matches =
      ((call_matches calls p params.url requests).0, ground (arith, matches requests))

  resolve_each_first :
      (before after : List Plugin) (p : Plugin) (problems : List Problem) (requests : ℕ)
      → AllDecline before
      → Matches p
      → (asked : ℕ) × ((resolve_each calls (before ++ p ∷ after) params problems requests).1
          ≡ accept_parsed calls p (call_parse calls p params asked).1)
  resolve_each_first [] after p problems requests declining matches =
      resolve_each_matched p after problems requests matches
  resolve_each_first (q ∷ before) after p problems requests declining matches =
      let (more, step) =
        resolve_each_declined q (before ++ p ∷ after) problems requests declining.0 in
      let (asked, found) =
        resolve_each_first before after p more (call_matches calls q params.url requests).0
          declining.1 matches in
      (asked, ap (λ r. r.1) step ∙ found)

  -- The first plugin in the order of the ids that knows an address decides: with whatever it
  -- answers to parse, be it an error, and whatever the plugins before it got wrong or those after
  -- it would say. Plugins answer alike whatever number a request has.
  pub resolve_first :
      (before after : List Plugin) (p : Plugin) (requests : ℕ)
      → AllDecline before
      → Matches p
      → (asked : ℕ) × ((resolve calls (before ++ p ∷ after) params requests).1
          ≡ accept_parsed calls p (call_parse calls p params asked).1)
  unfolding resolve
  resolve_first before after p requests declining matches =
      resolve_each_first before after p [] requests declining matches
