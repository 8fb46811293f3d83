-- ===== src/Tests/Fetching.antt =====
-- The FTP worker on concrete inputs.
use godown.Base.{
  ℕ, ◌+◌, ◌-◌, ◌≤◌, ◌≡◌, refl, true, false, Option, none, some, List, [], ◌∷◌, ltb, arith, length,
  if◌then◌else◌,
}
use godown.Base.Int.{pos}
use godown.Core.Output.{Error, message}
use godown.Ftp.Names.{
  Text, Unicode, underscore, clean_all, trim_right, eq_text, before_dot, map_text, is_port,
  is_device, safe_file_name,
}
use godown.Ftp.Names.Safe.{IsPlain}
use godown.Ftp.Listing.{
  split, join, Seen, seen_at, take_parts, safe_relative_path, file, folder, Walked, DirectoryEntry,
  max_int64, max_directory_entries, with_slash, lt_text, insert_entry, sort_entries, size_of,
  take_walked, take_all, list_directory,
}
use godown.Ftp.Listing.Whole.{AllRecorded, count_key}
use godown.Ftp.Listing.Sorted.{list_directory_apart}
use godown.Ftp.Transfer.{Turn, wait_limited, ReadEnd, more, eof, broken, Read, Opening}
use godown.Ftp.Transfer.Limited.{IsLimited, wait_limited-IsLimited}
use godown.Ftp.Run.{Attempt, part, Finish, run, OutputStat}
use godown.Ftp.Run.Ending.{IsWhole, run-IsWhole}

-- The cases of ASCII.
abbrev upper : ℕ → ℕ
upper c = if ltb c b'a' then c else if ltb b'z' c then c else c - 32

abbrev lower : ℕ → ℕ
lower c = if ltb c b'A' then c else if ltb b'Z' c then c else c + 32

abbrev pub ascii : Unicode
ascii = record {
  upper = upper;
  lower = lower;
  equal_fold = λ s t. eq_text (map_text lower s) (map_text lower t);
}

pub ascii-IsPlain : IsPlain ascii
unfolding map_text before_dot is_device is_port eq_text
ascii-IsPlain = record { underscore_stays = refl; download_stays = refl }

-- "con.txt" and "a:b. ".
abbrev con_name : Text
con_name = b'c' ∷ b'o' ∷ b'n' ∷ b'.' ∷ b't' ∷ []

con_apart : safe_file_name ascii con_name ≡ underscore ∷ con_name
unfolding safe_file_name clean_all trim_right eq_text before_dot map_text is_device is_port
con_apart = refl

colon_cleaned :
    safe_file_name ascii (b'a' ∷ b':' ∷ b'b' ∷ b'.' ∷ b' ' ∷ []) ≡ b'a' ∷ b'_' ∷ b'b' ∷ []
unfolding safe_file_name clean_all trim_right eq_text before_dot map_text is_device is_port
colon_cleaned = refl

-- "D/con.t".
abbrev remote : Text
remote = b'D' ∷ b'/' ∷ con_name

abbrev pub local : Text
local = b'D' ∷ b'/' ∷ b'_' ∷ con_name

abbrev tree : Seen
tree = (b'd' ∷ b'/' ∷ b'_' ∷ con_name, false) ∷ (b'd' ∷ [], true) ∷ []

abbrev pub walked : List Walked
walked =
    record { kind = folder; path = b'/' ∷ b'D' ∷ []; size = 0 }
    ∷ record { kind = file; path = b'/' ∷ remote; size = 7 }
    ∷ []

abbrev pub listed : List DirectoryEntry × ℕ
listed = (
  record {
    remote_path = b'/' ∷ b'D' ∷ [];
    relative_path = b'D' ∷ [];
    size = pos 0;
    directory = true;
  }
      ∷ record {
        remote_path = b'/' ∷ remote;
        relative_path = local;
        size = pos 7;
        directory = false;
      }
      ∷ [],
  7,
)

list_directory_apart_example :
    (count_key ascii (b'd' ∷ []) listed.0 ≤ 1)
    × ((t : Seen) × AllRecorded ascii t listed.0)
    × (length listed.0 ≤ max_directory_entries)
    × (listed.1 ≤ max_int64)
unfolding list_directory take_all take_walked size_of with_slash lt_text insert_entry sort_entries
    safe_relative_path take_parts safe_file_name clean_all trim_right eq_text before_dot map_text
    is_device is_port split join seen_at
list_directory_apart_example =
    list_directory_apart ascii (λ s. s) (λ s. none) (b'/' ∷ []) walked false listed (b'd' ∷ [])
      ascii-IsPlain refl

abbrev turns : ℕ → Turn
turns n = record { rate = pos 4; wait_error = none }

wait_limited-IsLimited_example : IsLimited turns 10 (wait_limited turns 10 10)
wait_limited-IsLimited_example = wait_limited-IsLimited turns 10 10 (omega arith)

abbrev read_of : ℕ → ReadEnd → Read
read_of n end = record {
  context_error = none;
  bytes = n;
  read_end = end;
  limit_error = none;
  written = n;
  write_error = none;
  now = 1;
  response_close = none;
  late_context_error = none;
  file_close = none;
}

abbrev opening : Option Error → Opening
opening resume_error = record {
  dial_error = none;
  resume_error = resume_error;
  cut_error = none;
  start_error = none;
  file_error = none;
  now = 0;
}

-- The stream breaks behind three bytes, and the server cannot go on from there.
abbrev pub attempts : List Attempt
attempts =
    record {
      opening = opening none;
      reads = read_of 3 (broken (message "reset")) ∷ [];
      context_error = none;
      pause_error = none;
    }
    ∷ record {
      opening = opening (some (message "no REST"));
      reads = read_of 4 more ∷ read_of 4 eof ∷ [];
      context_error = none;
      pause_error = none;
    }
    ∷ []

abbrev pub at_end : Finish
at_end = record { remove_error = none; rename_error = none; marker_error = none }

run-IsWhole_example :
    IsWhole (ltb 0 8) (pos 8) 2 (run (pos 8) (pos 3) (part 2) none attempts at_end)
run-IsWhole_example = run-IsWhole (pos 8) (pos 3) (part 2) none attempts at_end

abbrev pub no_output : OutputStat
no_output = record { size = none; digest = none; marker = none; stat_error = none }
