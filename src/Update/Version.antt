-- ===== src/Update/Version.antt =====
-- internal/update/checker.go: versions and their order.
pub mod Order
use godown.Base.{
  ℕ, Bool, true, false, not, Option, none, some, List, [], ◌∷◌, String, ltb, ◌==◌, if◌then◌else◌,
}
use godown.Base.Int.{ℤ, pos, negsuc}
use godown.Core.Output.{Error, message, Result, ok, err}

-- The functions of strings and strconv that the parser calls. `before sep` is SplitN(value, sep, 2)[0].
pub record Texts : Type 0 where
  pub trim_space : String → String
  pub trim_prefix : String → String → String
  pub before : String → String → String
  pub split : String → String → List String
  pub atoi : String → Option ℤ

pub record Version : Type 0 where
  pub major : ℕ
  pub minor : ℕ
  pub patch : ℕ

-- A part that is a number and not below 0.
abbrev pub natural : Option ℤ → Option ℕ
natural (some (pos n)) = some n
natural _ = none

abbrev pub invalid : Error
invalid = message "invalid semantic version"

abbrev pub version_of : Option ℕ → Option ℕ → Option ℕ → Result Version
version_of (some a) (some b) (some c) = ok (record { major = a; minor = b; patch = c })
version_of _ _ _ = err invalid

-- The loop of IsNewer: the first part that differs decides.
unfoldable pub newer : Version → Version → Bool
newer left right =
    if not (right.major == left.major)
    then ltb left.major right.major
    else if not (right.minor == left.minor)
    then ltb left.minor right.minor
    else if not (right.patch == left.patch)
    then ltb left.patch right.patch
    else false

abbrev pub compare_parsed : Result Version → Result Version → Result Bool
compare_parsed (err e) right = err e
compare_parsed (ok left) (err e) = err e
compare_parsed (ok left) (ok right) = ok (newer left right)

module _ (texts : Texts) where
  -- The value with no prefix, build or pre-release.
  abbrev pub core_text : String → String
  core_text value =
      let plain = texts.trim_prefix "v" (texts.trim_space value) in
      texts.before "-" (texts.before "+" plain)

  abbrev pub parse_parts : List String → Result Version
  parse_parts (a ∷ b ∷ c ∷ []) =
      version_of (natural (texts.atoi a)) (natural (texts.atoi b)) (natural (texts.atoi c))
  parse_parts _ = err invalid

  unfoldable pub parse_version : String → Result Version
  parse_version value = parse_parts (texts.split "." (core_text value))

  unfoldable pub is_newer : String → String → Result Bool
  unfolding newer
  is_newer current candidate = compare_parsed (parse_version current) (parse_version candidate)
