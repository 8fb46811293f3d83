-- ===== src/Tests/Completing.antt =====
-- A whole download on a concrete input.
use godown.Base.{refl, true, false, none, List, [], ◌∷◌, arith}
use godown.Base.Int.{pos, ◌+ℤ◌, ◌-ℤ◌}
use godown.Core.Output.{ok}
use godown.Http.Segments.{Subworker, generate, generate_from}
use godown.Http.Transfer.{
  more, Resource, advance, copy_chunk, copy_round, copy_loop, copy_part, response_error,
}
use godown.Http.Transfer.Pieces.{Consecutive}
use godown.Http.Download.{
  Attempt, send_request, attempt, download_from, download_part, download_parts,
}
use godown.Http.Download.Whole.{AllDone, all_writes, download_parts_complete}

abbrev resource : Resource
resource = record { supports_range = true; file_size = pos 4; max_retries = pos 1 }

-- A server that answers a request for a part with that part, in one read.
abbrev meets : Subworker → List Attempt
meets p =
    record {
      truncate = none;
      bad_url = none;
      reply = ok (record {
        status = 206;
        content_range = ok (p.progress, p.end);
        body =
            record { size = 2; end = more; cancelled = false; limiter = none; write = none } ∷ [];
      });
      cancelled = false;
      pause_cancelled = false;
    }
    ∷ []

both_done : AllDone (download_parts resource meets (generate (pos 4) (pos 2) true))
unfolding download_parts generate generate_from download_part download_from attempt send_request
    copy_part response_error copy_loop copy_round copy_chunk advance ◌+ℤ◌ ◌-ℤ◌
both_done = (refl, (refl, tt))

download_parts_complete_example :
    Consecutive 0 (all_writes (download_parts resource meets (generate (pos 4) (pos 2) true))) 4
download_parts_complete_example =
    download_parts_complete resource meets 4 (pos 2) refl (omega arith) (omega arith) both_done
