-- ===== src/Ftp/Names/Safe.antt =====
-- What safeFileName makes of a name.
use godown.Base.{
  ℕ, ◌≡◌, refl, sym, ◌∙◌, ap, subst, false, ◌&&◌, ◌||◌, [], ◌∷◌, inl, inr, arith, Bool-cases,
}
use godown.Ftp.Names.{
  Text, Unicode, underscore, is_forbidden, cleaned, clean_all, is_trimmed, is_empty, trim_right,
  eq_text, before_dot, map_text, is_port, is_device, download, is_reserved, apart_from_devices,
  safe_file_name,
}

-- No code point of the text is forbidden in the name of a file.
abbrev pub AllAllowed : Text → Type 0
AllAllowed [] = Unit {0}
AllAllowed (c ∷ s) = (is_forbidden c ≡ false) × AllAllowed s

cleaned_allowed : (c : ℕ) → is_forbidden (cleaned c) ≡ false
cleaned_allowed c = elim (Bool-cases (is_forbidden c)) [
  | inl bad ↦ rw bad refl
  | inr good ↦ ground (arith, good)
]

clean_all-AllAllowed : (s : Text) → AllAllowed (clean_all s)
unfolding clean_all
clean_all-AllAllowed [] = tt
clean_all-AllAllowed (c ∷ s) = (cleaned_allowed c, clean_all-AllAllowed s)

clean_all_same : (s : Text) → AllAllowed s → clean_all s ≡ s
unfolding clean_all
clean_all_same [] h = refl
clean_all_same (c ∷ s) h = ground (arith, h.0, clean_all_same s h.1)

trim_right-AllAllowed : (s : Text) → AllAllowed s → AllAllowed (trim_right s)
unfolding trim_right
trim_right-AllAllowed [] h = tt
trim_right-AllAllowed (c ∷ s) h =
    let rest = trim_right-AllAllowed s h.1 in
    elim (Bool-cases (is_empty (trim_right s) && is_trimmed c)) [
      | inl e ↦ rw e tt
      | inr e ↦ rw e (h.0, rest)
    ]

trim_right_same : (s : Text) → trim_right (trim_right s) ≡ trim_right s
unfolding trim_right
trim_right_same [] = refl
trim_right_same (c ∷ s) = ground (arith, trim_right_same s)

is_port-underscore : (s : Text) → is_port (underscore ∷ s) ≡ false
unfolding is_port eq_text
is_port-underscore [] = refl
is_port-underscore (b ∷ []) = refl
is_port-underscore (b ∷ c ∷ []) = refl
is_port-underscore (b ∷ c ∷ d ∷ []) = refl
is_port-underscore (b ∷ c ∷ d ∷ e ∷ s) = refl

is_device-underscore : (s : Text) → is_device (underscore ∷ s) ≡ false
unfolding is_device eq_text
is_device-underscore s = is_port-underscore s

trimmed_some : (s : Text) → is_empty (trim_right s) ≡ false → is_empty s ≡ false
unfolding trim_right
trimmed_some [] h = h
trimmed_some (c ∷ s) h = refl

trim_right_cons :
    (c : ℕ) (s : Text) → is_empty (trim_right s) ≡ false → trim_right (c ∷ s) ≡ c ∷ trim_right s
unfolding trim_right
trim_right_cons c s h = ground (arith, h)

-- A name that the file system takes as it stands, for a file in a directory: it has a code point,
-- none that is forbidden, no dot or space at its end, and is no device.
pub record IsSafe (unicode : Unicode) (name : Text) : Type 0 where
  pub allowed : AllAllowed name
  pub some_text : is_empty name ≡ false
  pub trimmed : trim_right name ≡ name
  pub no_device : is_reserved unicode name ≡ false

module _ (unicode : Unicode) where
  -- The underscore is its own upper case, and no letter of `download` becomes that of a device.
  pub record IsPlain : Type 0 where
    pub underscore_stays : unicode.upper underscore ≡ underscore
    pub download_stays : is_reserved unicode download ≡ false

  underscored_free : (name : Text) → IsPlain → is_reserved unicode (underscore ∷ name) ≡ false
  unfolding before_dot map_text
  underscored_free name plain =
      rw plain.underscore_stays (is_device-underscore (map_text unicode.upper (before_dot name)))

  apart-IsSafe :
      (name : Text)
      → IsPlain
      → AllAllowed name
      → is_empty name ≡ false
      → trim_right name ≡ name
      → IsSafe unicode (apart_from_devices unicode name)
  apart-IsSafe name plain allowed some_text trimmed = elim (Bool-cases (is_reserved unicode name)) [
    | inl e ↦ rw e (record {
      allowed = (refl, allowed);
      some_text = refl;
      trimmed =
          trim_right_cons underscore name (subst (λ s. is_empty s ≡ false) (sym trimmed) some_text)
          ∙ ap (λ s. underscore ∷ s) trimmed;
      no_device = underscored_free name plain;
    })
    | inr e ↦
        rw e (record { allowed = allowed; some_text = some_text; trimmed = trimmed; no_device = e })
  ]

  download-IsSafe : IsPlain → IsSafe unicode download
  unfolding trim_right
  download-IsSafe plain = record {
    allowed = (refl, (refl, (refl, (refl, (refl, (refl, (refl, (refl, tt))))))));
    some_text = refl;
    trimmed = refl;
    no_device = plain.download_stays;
  }

  -- Every name, whatever it was, becomes one for a file on Windows: it has a code point, none that is
  -- forbidden, no dot or space at its end, and it is no device; if the underscore is its own upper
  -- case, and that of `download` is no device.
  pub safe_file_name-IsSafe : (name : Text) → IsPlain → IsSafe unicode (safe_file_name unicode name)
  unfolding safe_file_name
  safe_file_name-IsSafe name plain =
      let trimmed = trim_right (clean_all name) in
      elim (Bool-cases (is_empty trimmed || eq_text trimmed (b'.' ∷ []))) [
        | inl e ↦ rw e (download-IsSafe plain)
        | inr e ↦ rw e (
            apart-IsSafe trimmed plain
              (trim_right-AllAllowed (clean_all name) (clean_all-AllAllowed name))
              (ground (arith, e)) (trim_right_same (clean_all name)))
      ]

  dot_trimmed : (name : Text) → trim_right name ≡ name → eq_text name (b'.' ∷ []) ≡ false
  unfolding trim_right eq_text
  dot_trimmed [] h = refl
  dot_trimmed (c ∷ []) h = ground (arith, h)
  dot_trimmed (c ∷ d ∷ s) h = ground arith

  -- A safe name stays as it is.
  pub safe_file_name_same : (name : Text) → IsSafe unicode name → safe_file_name unicode name ≡ name
  unfolding safe_file_name
  safe_file_name_same name safe =
      rw
        (
          clean_all_same name safe.allowed,
          safe.trimmed,
          safe.some_text,
          dot_trimmed name safe.trimmed,
          safe.no_device,
        )
        refl
