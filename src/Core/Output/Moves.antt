-- ===== src/Core/Output/Moves.antt =====
-- What PrepareFTPDirectoryOutput promises of the directory that a task will write to.
use godown.Base.{◌≡◌, refl, ◌⊎◌, inl, inr, List, String, arith}
use godown.Core.Task.{Task}
use godown.Core.Output.{
  Error, Result, ok, err, Host, moved, take_alternate, prepare_ftp_directory_output,
}

pub Result-cases {ℓ} :
    {A : Type ℓ} (r : Result A) → ((a : A) × (r ≡ ok a)) ⊎ ((e : Error) × (r ≡ err e))
Result-cases (ok a) = inl (a, refl)
Result-cases (err e) = inr (e, refl)

module _ (host : Host) (reserved_paths : List String) (t : Task) where
  take_alternate-moved : {p : Task} → take_alternate host t reserved_paths ≡ ok p → p ≡ moved host t
  unfolding take_alternate
  take_alternate-moved h = ground arith

  -- A task that is prepared is left as it was or moved.
  pub prepare-moved :
      {p : Task}
      → prepare_ftp_directory_output host reserved_paths t ≡ ok p
      → (p ≡ t) ⊎ (p ≡ moved host t)
  unfolding prepare_ftp_directory_output
  prepare-moved h = ground arith
