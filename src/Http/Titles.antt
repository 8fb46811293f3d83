-- ===== src/Http/Titles.antt =====
-- internal/download/http/dedupe.go: a title that no other task and no file has.
use godown.Base.{
  ℕ, zero, suc, ◌+◌, ◌≤◌, ◌≡◌, ◌≢◌, subst, sym, Bool, true, false, not, ◌&&◌, Option, none, some,
  List, [], ◌∷◌, String, str_eq, mem, concat, arith, if◌then◌else◌, Bool-cases, ℕ_discrete, inl,
  inr,
}
use godown.Core.Task.{TaskSnapshot}

-- The functions of paths and the file system: `clean_join` is filepath.Clean of filepath.Join,
-- `is_missing` says that os.Lstat gives os.IsNotExist, `decimal` is %d.
pub record Paths : Type 0 where
  pub clean_join : String → String → String
  pub to_lower : String → String
  pub extension : String → String
  pub trim_suffix : String → String → String
  pub is_missing : String → Bool
  pub decimal : ℕ → String

module _ (paths : Paths) where
  abbrev pub key_of : String → String → String
  key_of path title = paths.to_lower (paths.clean_join path title)

  unfoldable pub used_keys : List TaskSnapshot → List String
  used_keys [] = []
  used_keys (t ∷ existing) = key_of t.path t.title ∷ used_keys existing

  unfoldable pub with_copy_suffix : String → ℕ → String
  with_copy_suffix title index =
      let ext = paths.extension title in
      let base = paths.trim_suffix title ext in
      concat (if str_eq base "" then "download" else base)
        (concat " (" (concat (paths.decimal index) (concat ")" ext)))

  -- The candidate of a round of the loop: the title itself in the first.
  unfoldable pub candidate : String → ℕ → String
  candidate title zero = title
  candidate title (suc n) = with_copy_suffix title (suc n)

  abbrev pub is_available : String → List String → String → Bool
  is_available dir used name =
      not (mem (key_of dir name) used)
      && paths.is_missing (paths.clean_join dir name)
      && paths.is_missing (concat (paths.clean_join dir name) ".ghd")

  -- The loop from a round on, for a number of rounds; `none` where it goes on.
  unfoldable pub search_from : ℕ → String → String → List String → ℕ → Option String
  search_from zero title dir used n = none
  search_from (suc rounds) title dir used n =
      let next = search_from rounds title dir used (suc n) in
      if is_available dir used (candidate title n) then some (candidate title n) else next

  unfoldable pub deduplicate_title : ℕ → String → String → List TaskSnapshot → Option String
  deduplicate_title rounds title dir existing = search_from rounds title dir (used_keys existing) 0

  abbrev pub NoneBefore : ℕ → String → String → List String → Type 0
  NoneBefore k title dir used =
      (j : ℕ) → suc j ≤ k → is_available dir used (candidate title j) ≡ false

  -- The round in which the loop ends, at the first candidate that is free.
  pub record EndsAt (rounds : ℕ) (title dir : String) (used : List String) (n j : ℕ) : Type 0 where
    pub result : search_from rounds title dir used n ≡ some (candidate title j)
    pub free : is_available dir used (candidate title j) ≡ true
    pub later : n ≤ j
    pub first : (i : ℕ) → n ≤ i → suc i ≤ j → is_available dir used (candidate title i) ≡ false

  search_ends :
      (rounds : ℕ) (title dir : String) (used : List String) (n m : ℕ)
      → is_available dir used (candidate title m) ≡ true
      → n ≤ m
      → suc m ≤ n + rounds
      → (j : ℕ) × (j ≤ m) × EndsAt rounds title dir used n j
  unfolding search_from
  search_ends zero title dir used n m free from enough =
      let impossible : ⊥ = omega arith in elim impossible [ ]
  search_ends (suc rounds) title dir used n m free from enough =
      elim (Bool-cases (is_available dir used (candidate title n))) [
        | inl now ↦ (
          n,
          from,
          record {
            result = ground arith;
            free = now;
            later = omega arith;
            first = λ i a b. let impossible : ⊥ = omega arith in elim impossible [ ];
          },
        )
        | inr not_now ↦
            let other : n ≢ m = λ e. cc in
            let (j, near, ends) =
              search_ends rounds title dir used (suc n) m free (omega arith) (omega arith) in
            (
              j,
              near,
              record {
                result = ground (arith, ends.result);
                free = ends.free;
                later = omega (arith, ends.later);
                first = λ i a b. elim (ℕ_discrete i n) [
                  | yes same ↦
                      subst (λ k. is_available dir used (candidate title k) ≡ false) (sym same)
                        not_now
                  | no apart ↦ ends.first i (omega arith) b
                ];
              },
            )
      ]

  -- Where one of the candidates is free, the loop ends within as many rounds, with the first
  -- candidate that neither a task has nor, with or without the ending of a record, a file.
  pub deduplicate_ends :
      (title dir : String) (existing : List TaskSnapshot) (n rounds : ℕ)
      → is_available dir (used_keys existing) (candidate title n) ≡ true
      → suc n ≤ rounds
      → (j : ℕ) × (j ≤ n)
        × (deduplicate_title rounds title dir existing ≡ some (candidate title j))
        × (is_available dir (used_keys existing) (candidate title j) ≡ true)
        × NoneBefore j title dir (used_keys existing)
  unfolding deduplicate_title
  deduplicate_ends title dir existing n rounds free enough =
      let (j, near, ends) =
        search_ends rounds title dir (used_keys existing) 0 n free (omega arith) (omega arith) in
      (j, near, ends.result, ends.free, λ i before. ends.first i (omega arith) before)
