-- ===== src/Tests/Sources.antt =====
-- The sources of FTP tasks on concrete inputs.
use godown.Base.{
  ◌≡◌, refl, sym, ap, true, false, none, some, List, [], ◌∷◌, ◌⊎◌, arith, String, ℕ_discrete,
}
use godown.Base.Int.{pos}
use godown.Core.Task.{Task, new_task, new_stage}
use godown.Core.Output.{Error, message, Result, ok, err}
use godown.Ftp.Names.{
  slash, clean_all, trim_right, eq_text, before_dot, map_text, is_port, is_device, safe_file_name,
}
use godown.Ftp.Listing.{
  split, join, seen_at, take_parts, safe_relative_path, DirectoryEntry, with_slash, lt_text,
  insert_entry, sort_entries, size_of, take_walked, take_all, list_directory,
}
use godown.Ftp.Run.{absent}
use godown.Ftp.Source.{SourceInfo, Web, ends_in_slash, info_at_path, parse_source, validate_proxy}
use godown.Ftp.Source.Parse.{Answers, Fresh, new_directory_task, parse}
use godown.Ftp.Worker.{Meets, not_started, run_worker}
use godown.Ftp.Worker.Running.{IsFileRun, IsListingRun, parsed_runs}
use godown.Tests.Directories.{bare, paths, entering, visits}
use godown.Ftp.Source.Kept.{IsWeb}
use godown.Tests.Fetching.{ascii, ascii-IsPlain, walked, listed, at_end}

unfoldable DirectoryEntry_discrete : Discrete DirectoryEntry
DirectoryEntry_discrete = hlevel ℕ_discrete

unfoldable listing_discrete : Discrete (List DirectoryEntry)
listing_discrete = hlevel DirectoryEntry_discrete

abbrev encode_listed : List DirectoryEntry → Result String
encode_listed entries = elim (listing_discrete entries listed.0) [
  | yes same ↦ ok "json"
  | no other ↦ err (message "other")
]

abbrev pub decode : String → Result (List DirectoryEntry)
decode s = ok listed.0

decided :
    (entries : List DirectoryEntry) (text : String) (d : Dec (entries ≡ listed.0))
    → elim d [ yes same ↦ ok "json" | no other ↦ err (message "other") ] ≡ ok text
    → decode text ≡ ok entries
decided entries text (yes same) h = ap ok (sym same)
decided entries text (no other) h = let impossible : ⊥ = ground (arith, h) in elim impossible [ ]

reads :
    (entries : List DirectoryEntry) (text : String)
    → encode_listed entries ≡ ok text
    → decode text ≡ ok entries
reads entries text h = decided entries text (listing_discrete entries listed.0) h

abbrev web : Web
web = record {
  parse_url = λ s. some (record {
    scheme = "ftp";
    hostname = "h";
    port = "";
    user = some ("u", some "p");
    path = some "/";
    without_user = "ftp://h/";
  });
  trim_space = λ s. s;
  to_lower = λ s. s;
  join_host_port = λ h p. "h:21";
  itoa = λ n. "30";
  atoi = λ s. some (pos 30);
  clean = λ s. s;
  base = λ s. s;
  file_base = λ s. s;
  separator = slash ∷ [];
  letters = λ s. slash ∷ [];
  spell = λ s. "x";
}

web-IsWeb : IsWeb web
web-IsWeb = record { some_host = λ h p. refl; some_path = λ p. refl; reads_back = refl }

abbrev answers : Answers
answers = record {
  dial_error = none;
  file_size = err (message "550");
  protocol_code = some 550;
  walked = walked;
  walk_failed = false;
  probe = λ s. none;
}

abbrev fresh : Fresh
fresh = record { task_id = "7"; stage_id = "s"; now = 1 }

abbrev created : Task
created =
    new_task "7" 1 "ftp" "x" "ftp://h/" "dl" (pos 7)
      (record (new_stage "s" "ftp" "ftp://h/" (pos 7) (pos 1) (pos 3) true none "") {
        state = some (
            ("host", "h:21")
            ∷ ("remotePath", "x")
            ∷ ("username", "u")
            ∷ ("password", "p")
            ∷ ("tlsMode", "")
            ∷ ("timeoutSeconds", "30")
            ∷ ("directory", "true")
            ∷ ("entries", "json")
            ∷ []);
      })

created_by_parse :
    parse web ascii encode_listed "ftp://u:p@h/" "dl" "" (pos 3) fresh answers ≡ ok created
unfolding parse parse_source info_at_path validate_proxy ends_in_slash new_directory_task
    DirectoryEntry_discrete listing_discrete list_directory take_all take_walked size_of with_slash
    lt_text insert_entry sort_entries safe_relative_path take_parts safe_file_name clean_all
    trim_right eq_text before_dot map_text is_device is_port split join seen_at ℕ_discrete
created_by_parse = refl

abbrev meets : Meets
meets = record {
  mkdir_error = none;
  partial = absent;
  cut_error = none;
  attempts = [];
  finish = at_end;
  entering = entering;
  visits = visits;
}

parsed_runs_example :
    (info : SourceInfo) × (clean_url : String) × (parse_source web "ftp://u:p@h/"
      ≡ ok (info, clean_url))
    × (((e : Error) × (none ≡ some e)
          × (run_worker web ascii paths bare decode created meets ≡ not_started e))
        ⊎ IsFileRun web ascii paths bare decode created meets
            (run_worker web ascii paths bare decode created meets)
        ⊎ IsListingRun web ascii paths bare decode info answers created
            (run_worker web ascii paths bare decode created meets))
parsed_runs_example =
    parsed_runs web ascii paths bare decode web-IsWeb ascii-IsPlain encode_listed reads
      "ftp://u:p@h/" "dl" "" (pos 3) fresh answers created meets created_by_parse
