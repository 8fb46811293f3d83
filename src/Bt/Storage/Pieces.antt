-- ===== src/Bt/Storage/Pieces.antt =====
-- internal/download/bt/resume_storage.go: Completion and MarkComplete of a piece.
use godown.Base.{
  ℕ, ◌+◌, Bool, true, false, not, ◌||◌, Option, none, some, List, [], ◌∷◌, ◌++◌, String, leb,
  if◌then◌else◌,
}
use godown.Core.Output.{Error}
use godown.Bt.Storage.{Extent, Piece, Stat, min, max, check_extent}

-- storage.Completion; the errors are those that are joined.
pub record Completion : Type 0 where
  pub complete : Bool
  pub ok : Bool
  pub errors : List Error

-- errors.Join with one more error.
abbrev pub join : List Error → Option Error → List Error
join errors none = errors
join errors (some e) = errors ++ e ∷ []

abbrev pub with_error : Completion → Option Error → Completion
with_error c e = record c { errors = join c.errors e }

abbrev pub is_empty : List Error → Bool
is_empty [] = true
is_empty (e ∷ errors) = false

-- Completion: from what the store of completions holds of the piece, and the error of Get, and the
-- error that Set gives. The second result is what Set is called with.
unfoldable pub completion :
    (String → Stat)
    → List Extent
    → Piece
    → Completion
    → Option Error
    → Option Error
    → Completion × Option Bool
completion stats files p held get_error set_error =
    let c = with_error held get_error in
    if not (is_empty c.errors) || not c.ok || not c.complete
    then (c, none)
    else elim (check_extent stats files p.offset p.length) [
      | none ↦ (c, none)
      | some e ↦ (with_error (record c { complete = false }) set_error, some false)
    ]

-- What the system does with a file that is to be synced.
pub record Sync : Type 0 where
  pub open_error : Option Error
  pub sync_error : Option Error
  pub close_error : Option Error

abbrev pub sync_file : Sync → List Error → List Error
sync_file x errors = elim x.open_error [
  | some e ↦ errors ++ e ∷ []
  | none ↦ join (join errors x.sync_error) x.close_error
]

-- The loop of syncExtent, from the errors before.
unfoldable pub sync_each : (String → Sync) → List Extent → ℕ → ℕ → List Error → List Error
sync_each syncs [] offset length errors = errors
sync_each syncs (f ∷ files) offset length errors =
    let start = max offset f.offset in
    let stop_at = min (offset + length) (f.offset + f.length) in
    sync_each syncs files offset length
      (if leb stop_at start then errors else sync_file (syncs f.path) errors)

unfoldable pub sync_extent : (String → Sync) → List Extent → ℕ → ℕ → List Error
sync_extent syncs files offset length = sync_each syncs files offset length []

-- MarkComplete: its errors, and what Set is called with.
unfoldable pub mark_complete :
    (String → Sync) → List Extent → Piece → Option Error → List Error × Option Bool
mark_complete syncs files p set_error =
    let errors = sync_extent syncs files p.offset p.length in
    if is_empty errors then (join [] set_error, some true) else (errors, none)
