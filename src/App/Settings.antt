-- ===== src/App/Settings.antt =====
-- internal/app/app.go: the change of the settings, which the bridge, the store and the program take
-- on together.
use godown.Base.{
  ◌≡◌, refl, sym, ap, subst, ◌⊎◌, inl, inr, true, Option, none, some, List, [], ◌∷◌, is_some, arith,
  Option-cases,
}
use godown.Base.Int.{ℤ}
use godown.Core.Output.{Error}
use godown.Config.Settings.{Settings, Environment, normalized}
use godown.Bridge.State.{Bridge}
use godown.Bridge.Server.{Meeting, apply, settings_from_config}
use godown.Bridge.Server.Serving.{IsServing, IsQuiet, apply-IsServing}
use godown.Bridge.Server.Changing.{Follows, apply_outcome}

-- What the closure over SaveSettings reads and writes; `stored` is what was saved, newest first.
pub record AppState : Type 0 where
  pub bridge : Bridge
  pub stored : List Settings
  pub current : Settings

-- What a call of Apply meets: the result of net.Listen for a port, and what it meets in the bridge.
pub record Network : Type 0 where
  pub listen : ℤ → Option Error
  pub meeting : Meeting

abbrev pub apply_config : Network → Settings → Bridge → Bridge × Option Error
apply_config network settings b =
    apply network.listen network.meeting (settings_from_config settings) b

-- The bridge is told of the settings that were before, and the errors are joined.
unfoldable pub restore_bridge : Network → Error → AppState → AppState × List Error
restore_bridge network e s = (
  record s { bridge = (apply_config network s.current s.bridge).0 },
  elim (apply_config network s.current s.bridge).1 [ none ↦ e ∷ [] | some e' ↦ e ∷ e' ∷ [] ],
)

-- The arguments: the networks that the two calls of Apply meet, and what the store says.
unfoldable pub save_settings :
    Environment → Network → Network → Option Error → Settings → AppState → AppState × List Error
save_settings env network later store given s =
    let next = normalized env given in
    let applied = record s { bridge = (apply_config network next s.bridge).0 } in
    elim (apply_config network next s.bridge).1 [
      | some e ↦ restore_bridge later e applied
      | none ↦ elim store [
        | some e ↦ restore_bridge later e applied
        | none ↦ (record applied { stored = next ∷ s.stored; current = next }, [])
      ]
    ]

apply_in_step :
    (network : Network) (settings : Settings) (b : Bridge)
    → IsQuiet network.meeting
    → IsServing b
    → ((apply_config network settings b).1 ≡ none)
        × Follows (settings_from_config settings) (apply_config network settings b).0
      ⊎ ((is_some (apply_config network settings b).1 ≡ true)
          × ((apply_config network settings b).0.listening ≡ none))
apply_in_step network settings b quiet v =
    elim (apply_outcome network.listen network.meeting (settings_from_config settings) b quiet v) [
      | inl (fine, follows) ↦ inl (fine, follows)
      | inr (wrong, down) ↦ inr (wrong, down.idle)
    ]

-- What a change that was given up leaves, with its errors: one where the bridge was taken back to
-- the settings from before, and a second where it could not be, and has no server.
pub record IsUnchanged (before : AppState) (r : AppState × List Error) : Type 0 where
  pub current : r.0.current ≡ before.current
  pub stored : r.0.stored ≡ before.stored
  pub in_step :
      ((e : Error) × (r.1 ≡ e ∷ []) × Follows (settings_from_config before.current) r.0.bridge)
      ⊎ ((e : Error) × (e' : Error) × (r.1 ≡ e ∷ e' ∷ []) × (r.0.bridge.listening ≡ none))
  pub serving : IsServing r.0.bridge

-- What a change that was made leaves.
pub record IsChanged (next : Settings) (before : AppState) (r : AppState × List Error)
    : Type 0 where
  pub no_error : r.1 ≡ []
  pub current : r.0.current ≡ next
  pub stored : r.0.stored ≡ next ∷ before.stored
  pub follows : Follows (settings_from_config next) r.0.bridge
  pub serving : IsServing r.0.bridge

restored_errors :
    (e : Error) (x : Option Error)
    → is_some x ≡ true
    → (e' : Error) × (elim x [ none ↦ e ∷ [] | some e' ↦ e ∷ e' ∷ [] ] ≡ e ∷ e' ∷ [])
restored_errors e (some e') h = (e', refl)
restored_errors e none h = let impossible : ⊥ = ground (arith, h) in elim impossible [ ]

restored-IsUnchanged :
    (network : Network) (e : Error) (before s : AppState)
    → s.current ≡ before.current
    → s.stored ≡ before.stored
    → IsQuiet network.meeting
    → IsServing s.bridge
    → IsUnchanged before (restore_bridge network e s)
unfolding restore_bridge
restored-IsUnchanged network e before s same_current same_stored quiet v = record {
  current = same_current;
  stored = same_stored;
  in_step = elim (apply_in_step network s.current s.bridge quiet v) [
    | inl (fine, follows) ↦ inl (
      e,
      ap
          (λ (x : Option Error). elim x as (λ y. List Error) [
            | none ↦ e ∷ []
            | some e' ↦ e ∷ e' ∷ []
          ])
          fine,
      subst
          (λ (c : Settings).
            Follows (settings_from_config c) (apply_config network s.current s.bridge).0)
          same_current follows,
    )
    | inr (wrong, idle) ↦
        let (e', errors) = restored_errors e (apply_config network s.current s.bridge).1 wrong in
        inr (e, e', errors, idle)
  ];
  serving =
      apply-IsServing network.listen network.meeting (settings_from_config s.current) s.bridge quiet
        v;
}

saved-IsChanged :
    (network : Network) (next : Settings) (s : AppState)
    → IsQuiet network.meeting
    → IsServing s.bridge
    → Follows (settings_from_config next) (apply_config network next s.bridge).0
    → IsChanged next s (
      record s {
        bridge = (apply_config network next s.bridge).0;
        stored = next ∷ s.stored;
        current = next;
      },
      [],
    )
saved-IsChanged network next s quiet v follows = record {
  no_error = refl;
  current = refl;
  stored = refl;
  follows = follows;
  serving =
      apply-IsServing network.listen network.meeting (settings_from_config next) s.bridge quiet v;
}

module _ (env : Environment) (network later : Network) (store : Option Error) (given : Settings)
    (s : AppState) where
  abbrev next : Settings
  next = normalized env given

  abbrev applied : AppState
  applied = record s { bridge = (apply_config network next s.bridge).0 }

  save_settings_cases :
      ((e : Error) × (save_settings env network later store given s
          ≡ restore_bridge later e applied))
      ⊎ (((apply_config network next s.bridge).1 ≡ none)
          × (save_settings env network later store given s
              ≡ (record applied { stored = next ∷ s.stored; current = next }, [])))
  unfolding save_settings
  save_settings_cases = elim (Option-cases (apply_config network next s.bridge).1) [
    | inr (e, failed) ↦ inl (e, ground arith)
    | inl fine ↦ elim (Option-cases store) [
      | inr (e, failed) ↦ inl (e, ground arith)
      | inl saved ↦ inr (fine, ground arith)
    ]
  ]

  -- A change of the settings is made as a whole or not at all, if the bridge was serving, and
  -- whatever handlers do to it meanwhile. With no error the mended settings are stored, current,
  -- and followed by the bridge. Otherwise the stored and the current settings are as they were; with
  -- one error, of the bridge or of the store, the bridge follows the settings from before, and with
  -- two, the second of taking it back, it has no server.
  pub save_settings_outcome :
      IsQuiet network.meeting
      → IsQuiet later.meeting
      → IsServing s.bridge
      → IsChanged (normalized env given) s (save_settings env network later store given s)
        ⊎ IsUnchanged s (save_settings env network later store given s)
  save_settings_outcome quiet quiet_later v = elim save_settings_cases [
    | inl (e, failed) ↦ inr (
        subst (IsUnchanged s) (sym failed) (
          restored-IsUnchanged later e s applied refl refl quiet_later (
            apply-IsServing network.listen network.meeting (settings_from_config next) s.bridge
              quiet v)))
    | inr (fine, saved) ↦ elim (apply_in_step network next s.bridge quiet v) [
      | inl (_, follows) ↦
          inl
            (subst (IsChanged next s) (sym saved) (saved-IsChanged network next s quiet v follows))
      | inr (wrong, idle) ↦ let impossible : ⊥ = ground (arith, wrong, fine) in elim impossible [ ]
    ]
  ]
