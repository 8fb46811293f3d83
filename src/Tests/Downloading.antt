-- ===== src/Tests/Downloading.antt =====
-- The download by ranges on concrete inputs.
use godown.Base.{◌≡◌, refl, true, false, none, some, [], ◌∷◌, arith, ℕ}
use godown.Base.Int.{pos, ◌+ℤ◌, ◌-ℤ◌}
use godown.Core.Output.{message, ok, err}
use godown.Http.Segments.{Subworker, part, generate, not_supported_size}
use godown.Http.Record.{restore, write_record}
use godown.Http.Record.Roundtrip.{restore-write_record}
use godown.Http.Transfer.{
  Read, more, Transfer, done, Resource, Response, copy_part, copy_loop, copy_round, copy_chunk,
  advance, response_error,
}
use godown.Http.Download.{Attempt, download_part}
use godown.Http.Transfer.Ranges.{Kept, copy_part-Kept}
use godown.Http.Download.Attempts.{IsRefused, download_part_without_ranges}

generated : generate (pos 10) (pos 3) true ≡ part 0 2 ∷ part 3 5 ∷ part 6 9 ∷ []
unfolding generate
generated = refl

restore-write_record_example :
    restore (some (write_record (part 0 4 ∷ part 5 9 ∷ []))) ≡ (part 0 4 ∷ part 5 9 ∷ [], true)
restore-write_record_example =
    restore-write_record (part 0 4) (part 5 9 ∷ [])
      (omega arith, omega arith, omega arith, (omega arith, omega arith, omega arith, tt))

abbrev ranged : Resource
ranged = record { supports_range = true; file_size = pos 10; max_retries = pos 1 }

abbrev unranged : Resource
unranged = record { supports_range = false; file_size = pos 10; max_retries = pos 1 }

abbrev in_part : Subworker → Transfer
in_part p = record { part = p; received = pos 0; requests = []; writes = [] }

abbrev read : ℕ → Read
read n = record { size = n; end = more; cancelled = false; limiter = none; write = none }

-- A server that sends more than it was asked for.
abbrev generous : Response
generous = record { status = 206; content_range = ok (pos 3, pos 5); body = read 2 ∷ read 7 ∷ [] }

-- The surplus is cut off.
clipped_writes :
    (copy_part ranged generous (in_part (part 3 5))).0.writes ≡ (pos 3, 2) ∷ (pos 5, 1) ∷ []
unfolding copy_part copy_loop copy_round copy_chunk advance response_error ◌+ℤ◌ ◌-ℤ◌
clipped_writes = refl

copy_part-Kept_example :
    Kept 5 3 (in_part (part 3 5)) (copy_part ranged generous (in_part (part 3 5)))
copy_part-Kept_example =
    copy_part-Kept ranged generous 5 3 (in_part (part 3 5)) refl (omega arith) refl refl
      (omega arith)

abbrev silent : Attempt
silent = record {
  truncate = none;
  bad_url = none;
  reply = err (message "no route");
  cancelled = false;
  pause_cancelled = false;
}

silent-IsRefused : IsRefused silent
silent-IsRefused = record {
  url_fits = refl;
  error = message "no route";
  refused = refl;
  goes_on = refl;
  waits = refl;
}

abbrev whole_part : Transfer
whole_part = in_part (record { start = pos 0; progress = pos 0; end = not_supported_size })

download_part_without_ranges_example :
    ((download_part unranged (silent ∷ []) whole_part).1 ≡ done)
    × ((download_part unranged (silent ∷ []) whole_part).0.requests ≡ [])
    × ((download_part unranged (silent ∷ []) whole_part).0.writes ≡ [])
unfolding generate
download_part_without_ranges_example =
    download_part_without_ranges unranged (pos 8) silent [] whole_part refl refl refl
