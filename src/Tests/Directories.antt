-- ===== src/Tests/Directories.antt =====
-- The run of a directory on concrete inputs.
use godown.Base.{
  ℕ, ◌≡◌, refl, true, false, none, some, List, [], ◌∷◌, String, str_eq, if◌then◌else◌,
}
use godown.Base.Int.{pos}
use godown.Core.Task.{Task, new_task, new_stage}
use godown.Core.Output.{
  Result, ok, Entry, missing, entry, Host, output_file, verify_ftp_directory_owner,
}
use godown.Ftp.Names.{
  clean_all, trim_right, eq_text, before_dot, map_text, is_port, is_device, safe_file_name,
}
use godown.Ftp.Listing.{
  split, join, seen_at, take_parts, safe_relative_path, with_slash, DirectoryEntry,
}
use godown.Ftp.Transfer.{
  returned, read_on, write_on, read_loop, read_from, retrieve, resume, transfer,
}
use godown.Ftp.Run.{absent, try_all, completed_file_matches, finish_entry, download_directory_file}
use godown.Ftp.Root.{Making, make_root, prepare_directory_root}
use godown.Ftp.Root.Owned.{as_made, prepared_root_is_owned}
use godown.Ftp.Directory.{
  Paths, directory_output_path, remote_child, Visit, check_item, check_file, check_entry, fetch_all,
  Entering, markers_of, enter, run_directory,
}
use godown.Ftp.Directory.Fetching.{IsRun}
use godown.Ftp.Directory.Whole.{run_directory-IsRun}
use godown.Tests.Fetching.{ascii, ascii-IsPlain, attempts, at_end, no_output, local}

-- A root that is missing, and what is there behind its preparation.
abbrev host_with : Entry → Entry → Host
host_with root marker = record {
  abs_clean = λ p. ok p;
  rel = λ b p. ok p;
  join = λ a b. b;
  separator = "/";
  equal_fold = str_eq;
  trim_space = λ s. if str_eq s "7\n" then "7" else s;
  lstat = λ p. if str_eq p "root" then root else marker;
  read_file = λ p. ok "7\n";
  remove_all = λ p. none;
  remove = λ p. none;
  error_text = λ e. "";
}

abbrev pub bare : Host
bare = host_with missing missing

abbrev made : Host
made = host_with (entry true false false) (entry false false true)

abbrev no_error : Making
no_error = record {
  mkdir_error = none;
  create_error = none;
  write_error = none;
  close_error = none;
}

prepared_root_is_owned_example : verify_ftp_directory_owner made "root" "7" ≡ ok tt
unfolding prepare_directory_root make_root
prepared_root_is_owned_example =
    prepared_root_is_owned bare made no_error "root" "7" (some "7\n") refl (as_made refl refl refl)
      refl

abbrev pub paths : Paths
paths = record {
  clean = λ s. s;
  from_slash = λ s. s;
  join = λ a b. b;
  abs_clean = λ s. ok s;
  rel = λ a b. ok b;
  separator = b'/' ∷ [];
  letters = λ s. [];
  spell = λ s. "";
}

abbrev stored : List DirectoryEntry
stored =
    record {
      remote_path = b'/' ∷ b'D' ∷ [];
      relative_path = b'D' ∷ [];
      size = pos 0;
      directory = true;
    }
    ∷ record {
      remote_path = b'/' ∷ b'x' ∷ [];
      relative_path = local;
      size = pos 8;
      directory = false;
    }
    ∷ []

abbrev task : Task
task =
    new_task "7" 0 "ftp" "root" "ftp://h/" "dl" (pos 8)
      (new_stage "s" "ftp" "ftp://h/" (pos 8) (pos 1) (pos 3) true none "")

abbrev pub entering : Entering
entering = record { making = no_error; output_root_error = none; metadata_root_error = none }

abbrev pub visits : ℕ → Visit
visits i = record {
  context_error = none;
  mkdir_error = none;
  output = no_output;
  partial = absent;
  cut_error = none;
  attempts = attempts;
  finish = at_end;
}

abbrev decode : String → Result (List DirectoryEntry)
decode s = ok stored

run_directory_ends :
    (run_directory ascii paths bare decode task (b'/' ∷ []) entering visits).end ≡ returned none
unfolding run_directory enter prepare_directory_root make_root output_file new_task new_stage
    fetch_all check_entry check_file check_item directory_output_path remote_child with_slash
    safe_relative_path take_parts safe_file_name clean_all trim_right eq_text before_dot map_text
    is_device is_port split join seen_at download_directory_file completed_file_matches finish_entry
    try_all transfer resume retrieve read_from read_loop write_on read_on
run_directory_ends = refl

run_directory-IsRun_example :
    IsRun ascii paths
      (paths.letters task.path)
      (paths.letters (output_file bare task))
      (markers_of ascii paths bare task)
      (b'/' ∷ [])
      task.file_size
      task.stage.max_retries
      0
      stored
      (run_directory ascii paths bare decode task (b'/' ∷ []) entering visits)
run_directory-IsRun_example =
    run_directory-IsRun ascii paths bare decode task (b'/' ∷ []) entering visits stored
      ascii-IsPlain refl
