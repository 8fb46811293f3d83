-- ===== src/Tests/Seeding.antt =====
-- The files and the runtime process of BitTorrent on concrete inputs.
use godown.Base.{
  ℕ, ◌<◌, ◌-◌, ◌≡◌, ◌⊎◌, refl, true, false, none, some, List, [], ◌∷◌, String, str_eq, arith, subst,
  if◌then◌else◌,
}
use godown.Base.Int.{ℤ, pos, ◌≤ℤ◌, ◌+ℤ◌}
use godown.Core.Task.{Task, ProgressUpdate, percent, zero_percent, waiting, clone_string_map}
use godown.Core.Output.{Error, message, canceled, ok}
use godown.Bt.Files.{
  File, FileTexts, priority_at, apply_priorities, files_from_task, store_files, set_file_priorities,
  selected_size, selected_bytes, any_selected, clamp_downloaded, selection_progress,
}
use godown.Bt.Files.Selected.{HasSizes, AreChosen, RoundTrips, set_file_priorities_reads}
use godown.Bt.Runtime.{Process, run, run_worker}
use godown.Bt.Runtime.Transparent.{process_of, frames_of, run_is_transparent}
use godown.Bt.Trackers.{Texts, parse_trackers}
use godown.Bt.Trackers.Client.{client_parse_trackers, client_parse_trackers_same}
use godown.Bt.Storage.{
  Extent, Piece, Stat, stat, Chunk, chunk, hole, Io, finished, read_at, write_at, check_extent,
}
use godown.Bt.Storage.Extents.{first_file, later_file}
use godown.Bt.Storage.Pieces.{Completion, Sync, completion}
use godown.Bt.Storage.Present.{complete_present}
use godown.Bt.Storage.Transfers.{well, Tiles, read_where_written}
use godown.Tests.Data.{task_of}

abbrev update_of : ℕ → ProgressUpdate
update_of n = record {
  received = pos n;
  file_size = pos 10;
  speed = pos 1;
  progress = zero_percent;
  detail = "";
  status = none;
  stage_state = [];
  uses_slot = none;
}

abbrev updates : List ProgressUpdate
updates = update_of 3 ∷ update_of 7 ∷ []

abbrev error_text : Error → String
error_text (message s) = s
error_text e = "error"

-- The process is stopped by a pause and exits with an error.
abbrev paused_process : Process
paused_process = record (process_of (frames_of (run_worker error_text updates (some canceled)))) {
  exit_error = some (message "exit status 1");
  context_error = some canceled;
}

run_is_transparent_example : run paused_process ≡ (updates, some canceled)
run_is_transparent_example =
    run_is_transparent error_text paused_process updates (some canceled) refl refl refl refl

abbrev texts : Texts
texts = record {
  fields = λ s. s ∷ [];
  trim_space = λ s. s;
  to_lower = λ s. s;
  parse_url = λ s.
      if str_eq s ""
      then some (record { scheme = ""; host = "" })
      else some (record { scheme = "udp"; host = "h" });
}

client_parse_trackers_same_example :
    client_parse_trackers texts "udp://h" ≡ parse_trackers texts ("udp://h" ∷ [])
client_parse_trackers_same_example = client_parse_trackers_same texts "udp://h" refl

abbrev file_of : ℤ → File
file_of index = record {
  index = index;
  path = "f";
  size = pos 10;
  selected = true;
  priority = pos 2;
  downloaded = pos 4;
  completed = false;
}

-- The second of two files is selected, with the highest priority.
abbrev files : List File
files = file_of (pos 0) ∷ file_of (pos 1) ∷ []

abbrev chosen : List File
chosen =
    record (file_of (pos 0)) { selected = false; priority = pos 0; downloaded = pos 0 }
    ∷ record (file_of (pos 1)) { priority = pos 3 }
    ∷ []

abbrev file_texts : FileTexts
file_texts = record {
  encode = λ l. "chosen";
  decode = λ s. if str_eq s "chosen" then ok chosen else ok files;
  trim_space = λ s. s;
  invalid_priority = λ p i. message "invalid priority";
}

abbrev torrent : Task
torrent =
    let t = task_of "t" 1 waiting in
    record t { stage = record t.stage { state = some (("files", "stored") ∷ []) } }

abbrev priorities : List (ℤ × ℤ)
priorities = (pos 1, pos 3) ∷ []

abbrev torrent_chosen : Task
torrent_chosen = record torrent {
  file_size = pos 10;
  received = pos 4;
  progress = percent (pos 4) (pos 10);
  stage = record torrent.stage {
    state = some (("files", "chosen") ∷ []);
    file_size = pos 10;
    received = pos 4;
    progress = percent (pos 4) (pos 10);
  };
}

priorities_applied : apply_priorities file_texts priorities files ≡ ok chosen
unfolding apply_priorities priority_at clamp_downloaded
priorities_applied = refl

chosen-RoundTrips :
    (l : List File) → apply_priorities file_texts priorities files ≡ ok l → RoundTrips file_texts l
chosen-RoundTrips l h =
    let same : chosen ≡ l = ground (arith, h, priorities_applied) in
    subst (RoundTrips file_texts) same (record { reads = refl; filled = refl })

torrent_is_chosen : set_file_priorities file_texts torrent priorities ≡ ok torrent_chosen
unfolding set_file_priorities files_from_task apply_priorities priority_at store_files any_selected
    selected_size selected_bytes clamp_downloaded selection_progress clone_string_map ◌+ℤ◌
torrent_is_chosen = refl

set_file_priorities_reads_example :
    (l : List File) × (files_from_task file_texts torrent_chosen ≡ ok l)
    × AreChosen priorities files l
    × (any_selected l ≡ true)
    × (torrent_chosen.file_size ≡ selected_size l)
    × (torrent_chosen.received ≡ selected_bytes l)
    × ((¬ HasSizes files)
        ⊎ ((pos 0 ≤ℤ torrent_chosen.received)
            × (torrent_chosen.received ≤ℤ torrent_chosen.file_size)))
unfolding files_from_task
set_file_priorities_reads_example =
    set_file_priorities_reads file_texts torrent torrent_chosen priorities files refl
      chosen-RoundTrips torrent_is_chosen

-- Two files, with two bytes between that no file holds.
abbrev extents : List Extent
extents =
    record { path = "a"; offset = 0; length = 4 }
    ∷ record { path = "b"; offset = 6; length = 4 }
    ∷ []

abbrev well_io : Chunk → Io
well_io (chunk path offset n) = well n
well_io (hole n) = well n

read_where_written_example :
    (chunks : List Chunk) × (write_at well_io 8 extents 7 1
      ≡ record { count = 7; end = finished; chunks = chunks })
    × (read_at well_io 8 extents 7 1 ≡ record { count = 7; end = finished; chunks = chunks })
    × Tiles extents 1 7 chunks
read_where_written_example =
    read_where_written well_io extents 7 1 (λ path offset n. refl) (omega arith, (omega arith, tt))
      (omega arith)

abbrev piece : Piece
piece = record { offset = 2; length = 6 }

-- The second file is cut short behind its second byte.
abbrev stats : String → Stat
stats path = if str_eq path "a" then stat true 4 else stat true 2

abbrev held : Completion
held = record { complete = true; ok = true; errors = [] }

abbrev syncs : String → Sync
syncs path = record { open_error = none; sync_error = none; close_error = none }

stays_complete : completion stats extents piece held none none ≡ (held, none)
unfolding completion check_extent
stays_complete = refl

-- Of a longer piece a byte is missing.
found_short :
    completion stats extents (record { offset = 2; length = 7 }) held none none
    ≡ (record held { complete = false }, some false)
unfolding completion check_extent
found_short = refl

complete_present_example : (size : ℕ) × (stats "b" ≡ stat true size) × (7 - 6 < size)
unfolding completion check_extent
complete_present_example =
    complete_present stats piece extents held none none refl refl refl
      (record { path = "b"; offset = 6; length = 4 }) (later_file first_file) 7
      (record {
        from_piece = omega arith;
        to_piece = omega arith;
        from_file = omega arith;
        to_file = omega arith;
      })
