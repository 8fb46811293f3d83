-- ===== src/Bt/Files.antt =====
-- internal/btruntime/client.go and internal/download/bt/model.go: the files of a BitTorrent task,
-- and which of them are downloaded.
pub mod Selected
use godown.Base.{
  ℕ, ◌≡◌, Bool, true, false, not, ◌&&◌, ◌||◌, Option, none, some, List, [], ◌∷◌, String, insert,
  str_eq, ◌⊎◌, inl, inr, if◌then◌else◌,
}
use godown.Base.Int.{ℤ, pos, negsuc, ltb_ℤ, eq_ℤ, ◌+ℤ◌}
use godown.Core.Task.{Task, StringMap, Percent, percent, zero_percent, read, clone_string_map}
use godown.Core.Output.{Error, message, Result, ok, err, ◌>>=◌, entries}

pub record File : Type 0 where
  pub index : ℤ
  pub path : String
  pub size : ℤ
  pub selected : Bool
  pub priority : ℤ
  pub downloaded : ℤ
  pub completed : Bool

-- json.Marshal and json.Unmarshal of a list of files, and strings.TrimSpace.
pub record FileTexts : Type 0 where
  pub encode : List File → String
  pub decode : String → Result (List File)
  pub trim_space : String → String
  pub invalid_priority : ℤ → ℤ → Error

-- A map of priorities by the index of a file; the first entry counts.
abbrev pub Priorities : Type 0
Priorities = List (ℤ × ℤ)

unfoldable pub priority_at : ℤ → Priorities → Option ℤ
priority_at index [] = none
priority_at index ((i, p) ∷ rest) =
    let found = priority_at index rest in if eq_ℤ i index then some p else found

abbrev pub in_priorities : ℤ → Bool
in_priorities p = not (ltb_ℤ p (pos 1)) && not (ltb_ℤ (pos 3) p)

unfoldable pub normalize_file_priority : ℤ → Bool → ℤ
normalize_file_priority priority selected =
    if not selected then pos 0 else if in_priorities priority then priority else pos 2

unfoldable pub clamp_downloaded : ℤ → ℤ → ℤ
clamp_downloaded downloaded size =
    if ltb_ℤ downloaded (pos 0) then pos 0 else if ltb_ℤ size downloaded then size else downloaded

unfoldable pub selection_progress : ℤ → ℤ → Percent
selection_progress received total =
    if ltb_ℤ (pos 0) total then percent received total else zero_percent

abbrev pub deselect : File → File
deselect f = record f { selected = false; priority = pos 0; downloaded = pos 0; completed = false }

abbrev pub select_at : ℤ → File → File
select_at p f = record f {
  selected = true;
  priority = p;
  downloaded = clamp_downloaded f.downloaded f.size;
}

-- The sums that the loops make over the selected files.
unfoldable pub selected_size : List File → ℤ
selected_size [] = pos 0
selected_size (f ∷ files) =
    let rest = selected_size files in if f.selected then f.size +ℤ rest else rest

unfoldable pub selected_bytes : List File → ℤ
selected_bytes [] = pos 0
selected_bytes (f ∷ files) =
    let rest = selected_bytes files in if f.selected then f.downloaded +ℤ rest else rest

unfoldable pub any_selected : List File → Bool
any_selected [] = false
any_selected (f ∷ files) = f.selected || any_selected files

abbrev files_key : String
files_key = "files"

abbrev pub nothing_selected : Error
nothing_selected = message "at least one BitTorrent file must be selected"

abbrev pub no_such_file : Error
no_such_file = message "selected BitTorrent indexes contain no downloadable file"

module _ (texts : FileTexts) where
  abbrev none_empty : List File → Result (List File)
  none_empty [] = err (message "BitTorrent task has no downloadable files")
  none_empty (f ∷ files) = ok (f ∷ files)

  unfoldable pub files_from_task : Task → Result (List File)
  files_from_task t =
      let encoded = read files_key t.stage.state in
      if str_eq (texts.trim_space encoded) ""
      then err (message "BitTorrent task has no file metadata")
      else texts.decode encoded >>= none_empty

  abbrev pub put_files : List File → StringMap → StringMap
  put_files files state =
      some (insert files_key (texts.encode files) (entries (clone_string_map state)))

  -- The loop over the files: an error where a priority is none.
  unfoldable pub apply_priorities : Priorities → List File → Result (List File)
  apply_priorities priorities [] = ok []
  apply_priorities priorities (f ∷ files) = elim (priority_at f.index priorities) [
    | none ↦ do rest ← apply_priorities priorities files; ok (deselect f ∷ rest)
    | some p ↦
        if not (in_priorities p)
        then err (texts.invalid_priority p f.index)
        else do rest ← apply_priorities priorities files; ok (select_at p f ∷ rest)
  ]

  unfoldable pub store_files : List File → Task → Result Task
  store_files files t =
      if not (any_selected files)
      then err no_such_file
      else let total = selected_size files in
        let received = selected_bytes files in
        let progress = selection_progress received total in
        ok (record t {
          file_size = total;
          received = received;
          progress = progress;
          stage = record t.stage {
            state = put_files files t.stage.state;
            file_size = total;
            received = received;
            progress = progress;
          };
        })

  unfoldable pub set_file_priorities : Task → Priorities → Result Task
  set_file_priorities t [] = files_from_task t >>= λ files. err nothing_selected
  set_file_priorities t (p ∷ priorities) = do
    files ← files_from_task t
    chosen ← apply_priorities (p ∷ priorities) files
    store_files chosen t

  -- The map `current`, in which the last file of an index counts.
  unfoldable pub current_at : List File → ℤ → Option ℤ
  current_at [] index = none
  current_at (f ∷ files) index = elim (current_at files index) [
    | some p ↦ some p
    | none ↦
        if eq_ℤ f.index index then some (normalize_file_priority f.priority f.selected) else none
  ]

  abbrev pub current_priority : List File → ℤ → ℤ
  current_priority files index = elim (current_at files index) [ none ↦ pos 0 | some p ↦ p ]

  unfoldable pub priorities_of : List File → List ℤ → Priorities
  priorities_of files [] = []
  priorities_of files (index ∷ indexes) =
      let p = current_priority files index in
      (index, if eq_ℤ p (pos 0) then pos 2 else p) ∷ priorities_of files indexes

  unfoldable pub set_selected_files : Task → List ℤ → Result Task
  set_selected_files t indexes = do
    files ← files_from_task t
    set_file_priorities t (priorities_of files indexes)

  -- SetSelectedFiles of the worker: the numbers that were asked for, as a set.
  unfoldable pub is_asked : ℤ → List ℤ → Bool
  is_asked index [] = false
  is_asked index (i ∷ indexes) = let rest = is_asked index indexes in eq_ℤ i index || rest

  abbrev pub choose : Bool → File → File
  choose true f = record f {
    selected = true;
    priority = if in_priorities f.priority then f.priority else pos 2;
  }
  choose false f = deselect f

  unfoldable pub choose_files : List ℤ → List File → List File
  choose_files indexes [] = []
  choose_files indexes (f ∷ files) =
      choose (is_asked f.index indexes) f ∷ choose_files indexes files

  abbrev pub at_most : ℤ → ℤ → ℤ
  at_most total received = if ltb_ℤ total received then total else received

  unfoldable pub store_chosen : List File → Task → Result Task
  store_chosen files t =
      if not (any_selected files)
      then err no_such_file
      else let total = selected_size files in
        ok (record t {
          file_size = total;
          received = at_most total t.received;
          stage = record t.stage {
            state = put_files files t.stage.state;
            file_size = total;
            received = at_most total t.stage.received;
          };
        })

  unfoldable pub worker_set_selected_files : Task → List ℤ → Result Task
  worker_set_selected_files t [] = files_from_task t >>= λ files. err nothing_selected
  worker_set_selected_files t (i ∷ indexes) = do
    files ← files_from_task t
    store_chosen (choose_files (i ∷ indexes) files) t
