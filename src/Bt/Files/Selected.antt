-- ===== src/Bt/Files/Selected.antt =====
-- What a choice of files leaves in a task.
use godown.Base.{
  ◌≡◌, refl, sym, ◌∙◌, ap, subst, true, false, none, some, List, [], ◌∷◌, str_eq, ◌⊎◌, inl, inr,
  arith, eq_refl, Bool-cases, Option-cases, lookup-insert,
}
use godown.Base.Int.{ℤ, pos, ltb_ℤ, ◌≤ℤ◌, +ℤ_parts}
use godown.Core.Task.{Task, StringMap, read, clone_string_map}
use godown.Core.Output.{ok, entries}
use godown.Core.Output.Moves.{Result-cases}
use godown.Bt.Files.{
  File, FileTexts, Priorities, priority_at, in_priorities, clamp_downloaded, deselect, select_at,
  selected_size, selected_bytes, any_selected, put_files, files_from_task, apply_priorities,
  store_files, set_file_priorities,
}

-- No file has a negative size.
abbrev pub HasSizes : List File → Type 0
HasSizes [] = Unit {0}
HasSizes (f ∷ files) = (pos 0 ≤ℤ f.size) × HasSizes files

pub sizes_cases : (files : List File) → HasSizes files ⊎ (¬ HasSizes files)
sizes_cases [] = inl tt
sizes_cases (f ∷ files) = elim (Bool-cases (ltb_ℤ f.size (pos 0))) [
  | inl negative ↦
      inr (λ h. let here = h.0 in let impossible : ⊥ = ground (arith, negative, here) in impossible)
  | inr fine ↦ elim (sizes_cases files) [
    | inl sized ↦ inl (ground (arith, fine), sized)
    | inr negative ↦ inr (λ h. negative h.1)
  ]
]

-- A file and what a map of priorities makes of it.
pub record IsChosen (priorities : Priorities) (f g : File) : Type 0 where
  pub same_index : g.index ≡ f.index
  pub same_path : g.path ≡ f.path
  pub same_size : g.size ≡ f.size
  pub chosen :
      ((p : ℤ) × (priority_at f.index priorities ≡ some p)
        × (g.selected ≡ true)
        × (g.priority ≡ p)
        × (in_priorities p ≡ true))
      ⊎ ((priority_at f.index priorities ≡ none)
          × (g.selected ≡ false)
          × (g.priority ≡ pos 0)
          × (g.downloaded ≡ pos 0))
  pub within : pos 0 ≤ℤ f.size → (pos 0 ≤ℤ g.downloaded) × (g.downloaded ≤ℤ g.size)

pub data AreChosen (priorities : Priorities) : List File → List File → Type 0 where
  none_chosen : AreChosen priorities [] []
  one_chosen :
      {f g : File} {files chosen : List File}
      → IsChosen priorities f g
      → AreChosen priorities files chosen
      → AreChosen priorities (f ∷ files) (g ∷ chosen)

deselect-IsChosen :
    (priorities : Priorities) (f : File)
    → priority_at f.index priorities ≡ none
    → IsChosen priorities f (deselect f)
deselect-IsChosen priorities f h = record {
  same_index = refl;
  same_path = refl;
  same_size = refl;
  chosen = inr (h, refl, refl, refl);
  within = λ sized. (omega arith, sized);
}

clamp_within :
    (downloaded size : ℤ)
    → pos 0 ≤ℤ size
    → (pos 0 ≤ℤ clamp_downloaded downloaded size) × (clamp_downloaded downloaded size ≤ℤ size)
unfolding clamp_downloaded
clamp_within downloaded size sized = ground arith

select_at-IsChosen :
    (priorities : Priorities) (f : File) (p : ℤ)
    → priority_at f.index priorities ≡ some p
    → in_priorities p ≡ true
    → IsChosen priorities f (select_at p f)
select_at-IsChosen priorities f p h valid = record {
  same_index = refl;
  same_path = refl;
  same_size = refl;
  chosen = inl (p, h, refl, refl, valid);
  within = clamp_within f.downloaded f.size;
}

module _ (texts : FileTexts) where
  apply_priorities-AreChosen :
      (priorities : Priorities) (files : List File) {chosen : List File}
      → apply_priorities texts priorities files ≡ ok chosen
      → AreChosen priorities files chosen
  unfolding apply_priorities
  apply_priorities-AreChosen priorities [] {chosen} h =
      let empty : [] ≡ chosen = ground arith in subst (AreChosen priorities []) empty none_chosen
  apply_priorities-AreChosen priorities (f ∷ files) {chosen} h =
      elim (Result-cases (apply_priorities texts priorities files)) [
        | inr (e, failed) ↦ ground arith
        | inl (rest, applied) ↦
            let tail = apply_priorities-AreChosen priorities files applied in
            elim (Option-cases (priority_at f.index priorities)) [
              | inl missing ↦
                  let same : deselect f ∷ rest ≡ chosen = ground arith in
                  subst (AreChosen priorities (f ∷ files)) same
                    (one_chosen (deselect-IsChosen priorities f missing) tail)
              | inr (p, found) ↦ elim (Bool-cases (in_priorities p)) [
                | inl valid ↦
                    let same : select_at p f ∷ rest ≡ chosen = ground arith in
                    subst (AreChosen priorities (f ∷ files)) same
                      (one_chosen (select_at-IsChosen priorities f p found valid) tail)
                | inr invalid ↦ ground arith
              ]
            ]
      ]

-- The bytes of the chosen files are no more than their sizes.
selected_bounded :
    (priorities : Priorities) {files chosen : List File}
    → AreChosen priorities files chosen
    → HasSizes files
    → (pos 0 ≤ℤ selected_bytes chosen) × (selected_bytes chosen ≤ℤ selected_size chosen)
unfolding selected_bytes selected_size
selected_bounded priorities none_chosen sized = (omega arith, omega arith)
selected_bounded priorities (one_chosen {f} {g} {files} {chosen} c rest) sized =
    let tail = selected_bounded priorities rest sized.1 in
    let here = c.within sized.0 in
    elim (Bool-cases g.selected) [
      | inl e ↦ ground (
        arith,
        tail.0,
        tail.1,
        here.0,
        here.1,
        +ℤ_parts g.downloaded (selected_bytes chosen),
        +ℤ_parts g.size (selected_size chosen),
      )
      | inr e ↦ (ground (arith, tail.0), ground (arith, tail.1))
    ]

-- What json.Marshal writes of a list of files is read back, and is no blank text.
pub record RoundTrips (texts : FileTexts) (files : List File) : Type 0 where
  pub reads : texts.decode (texts.encode files) ≡ ok files
  pub filled : str_eq (texts.trim_space (texts.encode files)) "" ≡ false

read-put_files :
    (texts : FileTexts) (files : List File) (state : StringMap)
    → read "files" (put_files texts files state) ≡ texts.encode files
read-put_files texts files state = ground (
  arith,
  lookup-insert "files" "files" (texts.encode files) (entries (clone_string_map state)),
  eq_refl "files",
)

module _ (texts : FileTexts) where
  -- The task that the files are stored in.
  stored_files :
      (f : File) (files : List File) (t : Task) {u : Task}
      → RoundTrips texts (f ∷ files)
      → store_files texts (f ∷ files) t ≡ ok u
      → (files_from_task texts u ≡ ok (f ∷ files))
        × (any_selected (f ∷ files) ≡ true)
        × (u.file_size ≡ selected_size (f ∷ files))
        × (u.stage.file_size ≡ u.file_size)
        × (u.received ≡ selected_bytes (f ∷ files))
        × (u.stage.received ≡ u.received)
  unfolding store_files files_from_task
  stored_files f files t {u} round h = elim (Bool-cases (any_selected (f ∷ files))) [
    | inr none_there ↦ ground arith
    | inl some_there ↦
        let state : u.stage.state ≡ put_files texts (f ∷ files) t.stage.state = ground arith in
        let written : read "files" u.stage.state ≡ texts.encode (f ∷ files) =
          ap (read "files") state ∙ read-put_files texts (f ∷ files) t.stage.state in
        (
          ground (arith, written, round.reads, round.filled),
          some_there,
          ground arith,
          ground arith,
          ground arith,
          ground arith,
        )
  ]

  stored_outcome :
      (t u : Task) (priorities : Priorities) (files chosen : List File)
      → AreChosen priorities files chosen
      → RoundTrips texts chosen
      → store_files texts chosen t ≡ ok u
      → (chosen : List File) × (files_from_task texts u ≡ ok chosen)
        × AreChosen priorities files chosen
        × (any_selected chosen ≡ true)
        × (u.file_size ≡ selected_size chosen)
        × (u.received ≡ selected_bytes chosen)
        × ((¬ HasSizes files) ⊎ ((pos 0 ≤ℤ u.received) × (u.received ≤ℤ u.file_size)))
  unfolding store_files any_selected
  stored_outcome t u priorities files [] are round h = ground arith
  stored_outcome t u priorities files (f ∷ chosen) are round h =
      let s = stored_files f chosen t round h in
      (
        f ∷ chosen,
        s.0,
        are,
        s.1,
        s.2,
        s.4,
        elim (sizes_cases files) [
          | inr negative ↦ inl negative
          | inl sized ↦
              let bound = selected_bounded priorities are sized in
              inr (
                subst (λ n. pos 0 ≤ℤ n) (sym s.4) bound.0,
                subst (λ n. n ≤ℤ u.file_size) (sym s.4)
                    (subst (λ m. selected_bytes (f ∷ chosen) ≤ℤ m) (sym s.2) bound.1),
              )
        ],
      )

  set_file_priorities_cases :
      (t : Task) (priorities : Priorities) {u : Task} (files : List File)
      → files_from_task texts t ≡ ok files
      → set_file_priorities texts t priorities ≡ ok u
      → (chosen : List File) × (apply_priorities texts priorities files ≡ ok chosen)
        × (store_files texts chosen t ≡ ok u)
  unfolding set_file_priorities
  set_file_priorities_cases t [] files stored h = ground arith
  set_file_priorities_cases t (p ∷ priorities) files stored h =
      elim (Result-cases (apply_priorities texts (p ∷ priorities) files)) [
        | inr (e, failed) ↦ ground arith
        | inl (chosen, applied) ↦ (chosen, applied, ground arith)
      ]

  -- A task whose files are given priorities is read back with the same files, of which those
  -- with a priority, which is 1, 2 or 3, are selected and the others have nothing downloaded; its
  -- size and its received bytes are the sums over the selected files, of which there is one; and
  -- unless a file has a negative size, each file has between 0 bytes and its size, and so has the
  -- task. The sums are those of integers, with no wrap at 64 bits. It is assumed that the JSON of
  -- the changed list of files is read back and is not blank.
  pub set_file_priorities_reads :
      (t u : Task) (priorities : Priorities) (files : List File)
      → files_from_task texts t ≡ ok files
      → ((l : List File) → apply_priorities texts priorities files ≡ ok l → RoundTrips texts l)
      → set_file_priorities texts t priorities ≡ ok u
      → (chosen : List File) × (files_from_task texts u ≡ ok chosen)
        × AreChosen priorities files chosen
        × (any_selected chosen ≡ true)
        × (u.file_size ≡ selected_size chosen)
        × (u.received ≡ selected_bytes chosen)
        × ((¬ HasSizes files) ⊎ ((pos 0 ≤ℤ u.received) × (u.received ≤ℤ u.file_size)))
  set_file_priorities_reads t u priorities files read round h =
      let (chosen, applied, stored) = set_file_priorities_cases t priorities files read h in
      stored_outcome t u priorities files chosen
        (apply_priorities-AreChosen texts priorities files applied) (round chosen applied) stored
