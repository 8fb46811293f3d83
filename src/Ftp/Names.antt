-- ===== src/Ftp/Names.antt =====
-- internal/download/ftp/ftp.go: safeFileName. A text is the list of its code points.
pub mod Safe
use godown.Base.{ℕ, Bool, true, false, not, ◌&&◌, ◌||◌, List, [], ◌∷◌, ltb, ◌==◌, if◌then◌else◌}

abbrev pub Text : Type 0
Text = List ℕ

-- unicode.ToUpper and unicode.ToLower, and strings.EqualFold.
pub record Unicode : Type 0 where
  pub upper : ℕ → ℕ
  pub lower : ℕ → ℕ
  pub equal_fold : Text → Text → Bool

abbrev pub underscore : ℕ
underscore = b'_'

abbrev pub slash : ℕ
slash = b'/'

abbrev pub in_text : ℕ → Text → Bool
in_text c [] = false
in_text c (d ∷ s) = c == d || in_text c s

abbrev forbidden : Text
forbidden = b'<' ∷ b'>' ∷ b':' ∷ b'"' ∷ b'/' ∷ b'\\' ∷ b'|' ∷ b'?' ∷ b'*' ∷ []

abbrev pub is_forbidden : ℕ → Bool
is_forbidden c = ltb c 32 || in_text c forbidden

abbrev pub cleaned : ℕ → ℕ
cleaned c = if is_forbidden c then underscore else c

unfoldable pub clean_all : Text → Text
clean_all [] = []
clean_all (c ∷ s) = cleaned c ∷ clean_all s

abbrev pub is_trimmed : ℕ → Bool
is_trimmed c = c == b'.' || c == b' '

abbrev pub is_empty : Text → Bool
is_empty [] = true
is_empty (c ∷ s) = false

-- strings.TrimRight(name, ". ").
unfoldable pub trim_right : Text → Text
trim_right [] = []
trim_right (c ∷ s) =
    let rest = trim_right s in if is_empty rest && is_trimmed c then [] else c ∷ rest

unfoldable pub eq_text : Text → Text → Bool
eq_text [] [] = true
eq_text [] (d ∷ t) = false
eq_text (c ∷ s) [] = false
eq_text (c ∷ s) (d ∷ t) = c == d && eq_text s t

-- The text before the first dot.
unfoldable pub before_dot : Text → Text
before_dot [] = []
before_dot (c ∷ s) = let rest = before_dot s in if c == b'.' then [] else c ∷ rest

unfoldable pub map_text : (ℕ → ℕ) → Text → Text
map_text f [] = []
map_text f (c ∷ s) = f c ∷ map_text f s

abbrev is_digit_from_one : ℕ → Bool
is_digit_from_one c = not (ltb c b'1') && not (ltb b'9' c)

-- COM1 to COM9 and LPT1 to LPT9.
unfoldable pub is_port : Text → Bool
is_port (a ∷ b ∷ c ∷ d ∷ []) =
    (eq_text (a ∷ b ∷ c ∷ []) (b'C' ∷ b'O' ∷ b'M' ∷ [])
      || eq_text (a ∷ b ∷ c ∷ []) (b'L' ∷ b'P' ∷ b'T' ∷ []))
    && is_digit_from_one d
is_port _ = false

unfoldable pub is_device : Text → Bool
is_device base =
    eq_text base (b'C' ∷ b'O' ∷ b'N' ∷ [])
    || eq_text base (b'P' ∷ b'R' ∷ b'N' ∷ [])
    || eq_text base (b'A' ∷ b'U' ∷ b'X' ∷ [])
    || eq_text base (b'N' ∷ b'U' ∷ b'L' ∷ [])
    || is_port base

abbrev pub download : Text
download = b'd' ∷ b'o' ∷ b'w' ∷ b'n' ∷ b'l' ∷ b'o' ∷ b'a' ∷ b'd' ∷ []

module _ (unicode : Unicode) where
  -- Whether Windows takes the name for a device.
  abbrev pub is_reserved : Text → Bool
  is_reserved name = is_device (map_text unicode.upper (before_dot name))

  abbrev pub apart_from_devices : Text → Text
  apart_from_devices name = if is_reserved name then underscore ∷ name else name

  unfoldable pub safe_file_name : Text → Text
  safe_file_name name =
      let trimmed = trim_right (clean_all name) in
      if is_empty trimmed || eq_text trimmed (b'.' ∷ [])
      then download
      else apart_from_devices trimmed
