-- ===== src/Tests/Torrenting.antt =====
-- A run of the engine's worker, and its checkpoints, on concrete inputs.
use godown.Base.{
  ℕ, zero, suc, ◌*◌, ◌/◌, ◌%◌, ◌≡◌, refl, ◌∙◌, ap, true, false, Option, none, some, List, [], ◌∷◌,
  String, concat, arith, ◌==◌, if◌then◌else◌,
}
use Prim.Native.String.{count}
use text.Mathlib.TextLemmas.{length-append}
use godown.Base.Int.{ℤ, pos, negsuc, ◌+ℤ◌, ◌-ℤ◌, ◌*ℤ◌}
use godown.Core.Task.{Task, zero_percent, ProgressUpdate, waiting}
use godown.Core.Output.{message, ok}
use godown.Core.Scheduler.Runs.{apply_update}
use godown.Bt.Files.{File, files_from_task, selected_size}
use godown.Bt.Checkpoint.{
  Codec, RuntimeState, runtime_state_from_task, runtime_state_patch, runtime_options_from_task,
  int_state, bool_state,
}
use godown.Bt.Checkpoint.Kept.{ReadsBack, in_digits, checkpoint_kept}
use godown.Bt.Seeding.{
  Snapshot, Round, tick, returned, take_snapshot, run_transfer, take_rounds, measure, bytes_at,
  selected_downloaded, should_stop_seeding,
}
use godown.Bt.Seeding.Ending.{EndsSeeded, run_transfer-EndsSeeded}
use godown.Tests.Data.{task_of}

-- A number as a row of ones; an integer by an odd or an even number of them.
ones : ℕ → String
ones zero = ""
ones (suc n) = concat "1" (ones n)

count-ones : (n : ℕ) → count (ones n) ≡ n
unfolding ones
count-ones zero = refl
count-ones (suc n) = length-append "1" (ones n) ∙ omega (arith, count-ones n)

abbrev format_ones : ℤ → String
format_ones (pos n) = ones (suc (2 * n))
format_ones (negsuc n) = ones (suc (suc (2 * n)))

abbrev number_of : ℕ → Option ℤ
number_of zero = none
number_of (suc n) = if n % 2 == 0 then some (pos (n / 2)) else some (negsuc (n / 2))

abbrev parse_ones : String → Option ℤ
parse_ones s = number_of (count s)

number_read : (n : ℤ) → parse_ones (format_ones n) ≡ some n
number_read (pos n) = ap number_of (count-ones (suc (2 * n))) ∙ ground arith
number_read (negsuc n) = ap number_of (count-ones (suc (suc (2 * n)))) ∙ ground arith

abbrev half_file : File
half_file = record {
  index = pos 0;
  path = "f";
  size = pos 8;
  selected = true;
  priority = pos 2;
  downloaded = pos 4;
  completed = false;
}

abbrev empty_file : File
empty_file = record half_file { downloaded = pos 0 }

abbrev codec : Codec
codec = record {
  files = record {
    encode = λ l. "files";
    decode = λ s. ok (empty_file ∷ []);
    trim_space = λ s. s;
    invalid_priority = λ p i. message "invalid priority";
  };
  parse_int = parse_ones;
  format_int = format_ones;
  parse_bool = λ s. none;
  parse_ratio = λ s. zero_percent;
  format_ratio = λ r. "0.0000";
  show_ratio = λ r. "0.00";
  spaced = λ s. s;
}

reads_back : ReadsBack codec (empty_file ∷ [])
reads_back = record { ints = number_read; file_list = refl; filled = refl }

-- The limit of seeding is one minute.
abbrev torrent_task : Task
torrent_task =
    let t = task_of "t" 1 waiting in
    record t {
      stage = record t.stage {
        state = some (("files", "files") ∷ ("seedTimeLimitMinutes", "111") ∷ []);
      };
    }

abbrev begun : RuntimeState
begun = record {
  files = empty_file ∷ [];
  uploaded_bytes = pos 0;
  seeding_seconds = pos 0;
  phase = "";
  peer_count = pos 0;
  seed_count = pos 0;
  download_rate = pos 0;
  upload_rate = pos 0;
  share_ratio = zero_percent;
}

torrent_begins : runtime_state_from_task codec torrent_task ≡ ok begun
unfolding runtime_state_from_task files_from_task int_state
torrent_begins = refl

abbrev seeding_state : RuntimeState
seeding_state = record begun {
  uploaded_bytes = pos 20;
  seeding_seconds = pos 7;
  phase = "seeding";
  peer_count = pos 2;
}

abbrev checkpoint_report : ProgressUpdate
checkpoint_report = record {
  received = pos 0;
  file_size = pos 8;
  speed = pos 0;
  progress = zero_percent;
  detail = "";
  status = none;
  stage_state = runtime_state_patch codec seeding_state;
  uses_slot = some true;
}

checkpoint_kept_example :
    runtime_state_from_task codec (apply_update checkpoint_report torrent_task)
    ≡ ok (in_digits codec seeding_state)
checkpoint_kept_example =
    checkpoint_kept codec seeding_state checkpoint_report torrent_task empty_file [] reads_back refl
      refl

abbrev with_bytes : ℤ → Snapshot
with_bytes n = record {
  file_bytes = (pos 0, n) ∷ [];
  session_downloaded = n;
  session_uploaded = pos 0;
  peers = pos 1;
  seeds = pos 1;
}

-- Half of the file, all of it, and a minute later the same.
abbrev rounds : List Round
rounds = tick 2000000000 (ok (with_bytes (pos 8))) ∷ tick 62000000000 (ok (with_bytes (pos 9))) ∷ []

run_ends :
    (run_transfer codec torrent_task none 0 1 (ok (with_bytes (pos 4))) rounds none).1 ≡ returned []
unfolding run_transfer take_rounds take_snapshot runtime_state_from_task files_from_task int_state
    runtime_options_from_task bool_state measure bytes_at selected_downloaded selected_size
    should_stop_seeding ◌+ℤ◌ ◌-ℤ◌ ◌*ℤ◌
run_ends = refl

run_transfer-EndsSeeded_example :
    EndsSeeded codec
      (runtime_options_from_task codec torrent_task)
      (run_transfer codec torrent_task none 0 1 (ok (with_bytes (pos 4))) rounds none).0
run_transfer-EndsSeeded_example =
    run_transfer-EndsSeeded codec torrent_task begun torrent_begins none 0 1
      (ok (with_bytes (pos 4))) rounds none run_ends
