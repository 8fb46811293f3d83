-- ===== src/Http/Headers.antt =====
-- internal/download/http/headers.go: the headers and the cookies that the user has written down.
use godown.Base.{
  ℕ, suc, Bool, ◌||◌, Option, none, some, List, [], ◌∷◌, String, Dict, insert, ◌⊎◌, inl, inr,
  str_eq, concat, if◌then◌else◌,
}

-- The functions of strings that the code calls; `cut` is strings.Cut at a separator.
pub record Strings : Type 0 where
  pub split : String → String → List String
  pub fields_of : String → List String  -- strings.FieldsFunc at `;`, CR and LF
  pub trim_space : String → String
  pub trim_right : String → String  -- strings.TrimRight of `;`
  pub cut : String → String → Option (String × String)
  pub equal_fold : String → String → Bool
  pub is_control : String → Bool  -- some character is a control character
  pub join : List String → String  -- strings.Join with "; "

-- The errors, with the number of the line.
pub data HeaderError : Type 0 where
  no_colon empty_name : ℕ → HeaderError

module _ (strings : Strings) where
  abbrev pub is_blank : String → Bool
  is_blank s = str_eq (strings.trim_space s) ""

  -- A line, trimmed: nothing, a header, or an error.
  unfoldable pub parse_line : ℕ → String → HeaderError ⊎ Option (String × String)
  parse_line number line = if str_eq line "" then inr none else elim (strings.cut line ":") [
    | none ↦ inl (no_colon number)
    | some (name, value) ↦
        if is_blank name
        then inl (empty_name number)
        else inr (some (strings.trim_space name, strings.trim_space value))
  ]

  unfoldable pub parse_lines : ℕ → List String → Dict String → HeaderError ⊎ Dict String
  parse_lines number [] headers = inr headers
  parse_lines number (raw ∷ lines) headers = elim (parse_line number (strings.trim_space raw)) [
    | inl e ↦ inl e
    | inr none ↦ parse_lines (suc number) lines headers
    | inr (some (name, value)) ↦ parse_lines (suc number) lines (insert name value headers)
  ]

  unfoldable pub parse_headers : String → HeaderError ⊎ Dict String
  parse_headers text = parse_lines 1 (strings.split text "\n") []

  -- The cookie of a part, if it is one.
  unfoldable pub cookie_of : String → Option String
  cookie_of part = elim (strings.cut (strings.trim_space part) "=") [
    | none ↦ none
    | some (name, value) ↦
        let name' = strings.trim_space name in
        let value' = strings.trim_space value in
        if str_eq name' "" || str_eq value' "" || strings.is_control value'
        then none
        else some (concat name' (concat "=" value'))
  ]

  unfoldable pub cookies_of : List String → List String
  cookies_of [] = []
  cookies_of (part ∷ parts) =
      let rest = cookies_of parts in
      elim (cookie_of part) [ none ↦ rest | some cookie ↦ cookie ∷ rest ]

  unfoldable pub normalize_cookies : String → String
  normalize_cookies text = strings.join (cookies_of (strings.fields_of text))

  abbrev pub appended : String → String → String
  appended value cookies =
      if is_blank value
      then cookies
      else concat (strings.trim_right (strings.trim_space value)) (concat "; " cookies)

  -- The loop over the headers, in any order of the map: `none` where no name is that of cookies.
  unfoldable pub append_cookies : String → Dict String → Option (Dict String)
  append_cookies cookies [] = none
  append_cookies cookies ((name, value) ∷ headers) =
      let rest = append_cookies cookies headers in
      if strings.equal_fold name "Cookie"
      then some ((name, appended value cookies) ∷ headers)
      else elim rest [ none ↦ none | some headers' ↦ some ((name, value) ∷ headers') ]

  unfoldable pub merge_cookies : Dict String → String → Dict String
  merge_cookies headers text =
      let cookies = normalize_cookies text in
      if str_eq cookies "" then headers else elim (append_cookies cookies headers) [
        | some headers' ↦ headers'
        | none ↦ insert "Cookie" cookies headers
      ]
