-- ===== src/Tests/Updating.antt =====
-- Versions on concrete inputs.
use godown.Base.{none, some, [], ◌∷◌, str_eq, if◌then◌else◌}
use godown.Base.Int.{pos}
use godown.Update.Version.{Texts, Version}

-- The functions of the library on the three texts used here.
abbrev texts : Texts
texts = record {
  trim_space = λ s. s;
  trim_prefix = λ prefix s. if str_eq s "v1.3.0" then "1.3.0" else s;
  before = λ sep s. s;
  split = λ sep s.
      if str_eq s "1.2.9"
      then "1" ∷ "2" ∷ "9" ∷ []
      else if str_eq s "1.3.0"
      then "1" ∷ "3" ∷ "0" ∷ []
      else if str_eq s "2.0.0"
      then "2" ∷ "0" ∷ "0" ∷ []
      else s ∷ [];
  atoi = λ s.
      if str_eq s "0"
      then some (pos 0)
      else if str_eq s "1"
      then some (pos 1)
      else if str_eq s "2"
      then some (pos 2)
      else if str_eq s "3"
      then some (pos 3)
      else if str_eq s "9"
      then some (pos 9)
      else none;
}

abbrev old_version : Version
old_version = record { major = 1; minor = 2; patch = 9 }

abbrev new_version : Version
new_version = record { major = 1; minor = 3; patch = 0 }
