-- ===== src/Bt/Seeding/Sound.antt =====
-- What the reports of a run say.
use godown.Base.{ℕ, ◌≡◌, Bool, true, false, Option, none, some, List, [], ◌∷◌, ◌⊎◌}
use godown.Base.Int.{pos, ◌≤ℤ◌}
use godown.Core.Task.{Task, ProgressUpdate, running, seeding}
use godown.Core.Output.{Error, Result, ok}
use godown.Bt.Files.Selected.{HasSizes}
use godown.Bt.Checkpoint.{Codec, RuntimeState, runtime_state_from_task}
use godown.Bt.Seeding.{
  Snapshot, Round, tick, is_complete, plain_report, open_with, take_rounds, checking, at_start,
  fixed_at, run_transfer,
}

-- The bytes are within the size, and the slot is given up only for a whole download.
pub record IsSound (u : ProgressUpdate) : Type 0 where
  pub bounded : (pos 0 ≤ℤ u.received) × (u.received ≤ℤ u.file_size)
  pub slot : (u.uses_slot ≡ some true) ⊎ ((u.uses_slot ≡ some false) × (u.received ≡ u.file_size))
  pub status :
      (u.status ≡ none)
      ⊎ ((u.status ≡ some running) × (u.uses_slot ≡ some true))
      ⊎ ((u.status ≡ some seeding) × (u.uses_slot ≡ some false))

abbrev pub AllSound : List ProgressUpdate → Type 0
AllSound [] = Unit {0}
AllSound (u ∷ reports) = IsSound u × AllSound reports

-- The slot is held, or the files are whole.
abbrev pub Held : RuntimeState → Bool → Type 0
Held s uses_slot =
    HasSizes s.files × ((uses_slot ≡ true) ⊎ ((uses_slot ≡ false) × (is_complete s.files ≡ true)))

module _ (codec : Codec) where
  -- The run of a task whose state is read.
  pub run_transfer_read :
      (t : Task) (s : RuntimeState)
      → runtime_state_from_task codec t ≡ ok s
      → (open_error : Option Error) (started now : ℕ) (first : Result Snapshot)
      → (rounds : List Round) (close_error : Option Error)
      → run_transfer codec t open_error started now first rounds close_error
        ≡ open_with open_error close_error (plain_report codec (checking codec s) true) (
            take_rounds codec
              (fixed_at codec started t s)
              (tick now first ∷ rounds)
              (at_start codec started (checking codec s)))
  unfolding run_transfer
  run_transfer_read t s e open_error started now first rounds close_error = rw (run_transfer, e)
