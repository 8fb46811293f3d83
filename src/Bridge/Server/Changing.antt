-- ===== src/Bridge/Server/Changing.antt =====
-- What Apply makes of the bridge.
use godown.Base.{
  ◌≡◌, refl, sym, ap, ◌∙◌, subst, ◌⊎◌, true, false, Option, none, some, str_eq, is_some, arith,
  Option-cases, Bool-cases, inl, inr, eq_iff,
}
use godown.Base.Int.{ℤ, eq_of_parts}
use godown.Core.Output.{Error, message}
use godown.Bridge.State.{Settings, Bridge}
use godown.Bridge.Server.{
  normalized_settings, same_settings, stop, publish_server, start_server, apply_stopped, Meeting,
  apply,
}
use godown.Bridge.Server.Serving.{
  IsServing, IsQuiet, apply_cases, stopped_by, stopped_idle, stopped_settings,
}

same_settings-eq : (a b : Settings) → same_settings a b ≡ true → a ≡ b
same_settings-eq a b h = ground (arith, eq_iff a.token b.token, eq_of_parts a.port b.port)

-- The bridge does what the settings say.
pub record Follows (settings : Settings) (b : Bridge) : Type 0 where
  pub settled : b.settings ≡ normalized_settings settings
  pub listens : is_some b.listening ≡ settings.enabled

-- No server runs and the settings are still the old ones.
pub record IsDown (before after : Bridge) : Type 0 where
  pub idle : after.listening ≡ none
  pub kept : after.settings ≡ before.settings

enabled-normalized :
    (settings : Settings) → (normalized_settings settings).enabled ≡ settings.enabled
unfolding normalized_settings
enabled-normalized settings = ground arith

normalized_twice :
    (settings : Settings)
    → normalized_settings (normalized_settings settings) ≡ normalized_settings settings
unfolding normalized_settings
normalized_twice settings = ground arith

abbrev Outcome : Settings → Bridge → Bridge × Option Error → Type 0
Outcome settings before r =
    ((r.1 ≡ none) × Follows settings r.0) ⊎ ((is_some r.1 ≡ true) × IsDown before r.0)

module _ (listen : ℤ → Option Error) where
  start_cases :
      (given : Settings) (b : Bridge)
      → given.enabled ≡ true
      → is_some b.listening ≡ false
      → let settings = normalized_settings given in
        (start_server listen given b
          ≡ (record b { settings = settings; listening = some settings.port }, none))
        ⊎ ((e : Error) × (start_server listen given b ≡ (b, some e)))
  unfolding start_server publish_server
  start_cases given b on idle = elim (Bool-cases (str_eq (normalized_settings given).token "")) [
    | inl bare ↦
        inr (message "browser bridge token is empty", ground (arith, enabled-normalized given))
    | inr guarded ↦ elim (Option-cases (listen (normalized_settings given).port)) [
      | inl free ↦ inl (ground (arith, enabled-normalized given))
      | inr (e, taken) ↦ inr (e, ground (arith, enabled-normalized given))
    ]
  ]

  start_outcome :
      (settings : Settings) (before b : Bridge)
      → settings.enabled ≡ true
      → is_some b.listening ≡ false
      → b.settings ≡ before.settings
      → Outcome settings before (start_server listen (normalized_settings settings) b)
  start_outcome settings before b on idle kept =
      elim (start_cases (normalized_settings settings) b (enabled-normalized settings ∙ on) idle) [
        | inl e ↦
            subst (Outcome settings before) (sym e)
              (inl (refl, record { settled = normalized_twice settings; listens = sym on }))
        | inr (x, e) ↦
            subst (Outcome settings before) (sym e)
              (inr (refl, record { idle = ground arith; kept = kept }))
      ]

  apply_enabled :
      (settings : Settings) (b : Bridge)
      → (normalized_settings settings).enabled ≡ true
      → apply_stopped listen (normalized_settings settings) (b, none)
        ≡ start_server listen (normalized_settings settings) b
  apply_enabled settings b on = ground arith

  apply_disabled :
      (settings : Settings) (b : Bridge)
      → (normalized_settings settings).enabled ≡ false
      → apply_stopped listen (normalized_settings settings) (b, none)
        ≡ (record b { settings = normalized_settings settings }, none)
  apply_disabled settings b off = ground arith

  apply_stopped_outcome :
      (settings : Settings) (before : Bridge) (stopped : Bridge × Option Error)
      → is_some stopped.0.listening ≡ false
      → stopped.0.settings ≡ before.settings
      → Outcome settings before (apply_stopped listen (normalized_settings settings) stopped)
  apply_stopped_outcome settings before (b, some e) idle kept =
      inr (refl, record { idle = ground arith; kept = kept })
  apply_stopped_outcome settings before (b, none) idle kept = elim (Bool-cases settings.enabled) [
    | inl on ↦
        subst (Outcome settings before)
          (sym (apply_enabled settings b (enabled-normalized settings ∙ on)))
          (start_outcome settings before b on idle kept)
    | inr off ↦
        subst (Outcome settings before)
          (sym (apply_disabled settings b (enabled-normalized settings ∙ off)))
          (inl (refl, record { settled = refl; listens = idle ∙ sym off }))
  ]

  -- Apply, called on a bridge that is serving, whatever handlers do between its sections: where it
  -- gives no error, the bridge has the settings, and it has a server exactly if they enable it;
  -- where it gives one, because the old server did not end well, the token is empty or the port is
  -- taken, no server runs and the settings are the old ones.
  pub apply_outcome :
      (m : Meeting) (settings : Settings) (b : Bridge)
      → IsQuiet m
      → IsServing b
      → let r = apply listen m settings b in
        ((r.1 ≡ none) × Follows settings r.0) ⊎ ((is_some r.1 ≡ true) × IsDown b r.0)
  unfolding stop
  apply_outcome m settings b quiet v = elim (apply_cases listen m settings b) [
    | inl (same, e) ↦
        let equal = same_settings-eq b.settings (normalized_settings settings) (ground arith) in
        subst (Outcome settings b) (sym e) (
          inl (
            refl,
            record {
              settled = equal;
              listens = ground (arith, v.enabled, equal, enabled-normalized settings);
            },
          ))
    | inr e ↦ subst (Outcome settings b) (sym e) (
        apply_stopped_outcome settings b (stopped_by listen m b)
          (ap (λ (l : Option ℤ). is_some l) (stopped_idle listen m b quiet))
          (stopped_settings listen m b quiet))
  ]
