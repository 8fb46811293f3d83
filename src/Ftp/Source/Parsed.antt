-- ===== src/Ftp/Source/Parsed.antt =====
-- What the task of a parse keeps.
use godown.Base.{
  ◌≡◌, refl, ◌∙◌, Bool, true, false, not, Option, none, some, List, ◌⊎◌, inl, inr, arith, String,
  if◌then◌else◌, Bool-cases,
}
use godown.Base.Int.{ℤ, pos}
use godown.Core.Task.{Task}
use godown.Core.Output.{Error, message, Result, ok, err}
use godown.Core.Output.Moves.{Result-cases}
use godown.Ftp.Names.{Unicode}
use godown.Ftp.Listing.{DirectoryEntry}
use godown.Ftp.Directory.Checking.{bind_ok}
use godown.Ftp.Source.{Web, SourceInfo, parse_source, validate_proxy}
use godown.Ftp.Source.Parse.{
  Answers, Fresh, size_command_unsupported, new_directory_task, file_task, sized_task, dialed,
  parse,
}
use godown.Ftp.Source.Kept.{
  IsWeb, IsStorable, parsed-IsStorable, IsFileTask, IsDirectoryTask, file_task-IsFileTask,
  new_directory_task-IsDirectoryTask,
}

dialed_ok {ℓ} :
    (web : Web) (unicode : Unicode) (encode : List DirectoryEntry → Result String)
    → {A : Type ℓ} (x : Option Error) (r : Result A) (a : A) → dialed web unicode encode x r ≡ ok a
    → r ≡ ok a
dialed_ok web unicode encode none r a h = h
dialed_ok web unicode encode (some e) r a h =
    let impossible : ⊥ = ground (arith, h) in elim impossible [ ]

module _ (web : Web) (is_web : IsWeb web) (unicode : Unicode)
    (encode : List DirectoryEntry → Result String) (decode : String → Result (List DirectoryEntry))
    (reads : (entries : List DirectoryEntry) (text : String)
      → encode entries ≡ ok text
      → decode text ≡ ok entries) where
  -- A task that was made of a source: it has the address with no user in it, and what a run reads in
  -- it is what was parsed, of a file or of a directory with its listing.
  pub record IsParsed (source : String) (a : Answers) (t : Task) : Type 0 where
    pub info : SourceInfo
    pub clean_url : String
    pub parsed : parse_source web source ≡ ok (info, clean_url)
    pub kept :
        (IsFileTask web info clean_url t × (info.directory ≡ false))
        ⊎ IsDirectoryTask web info clean_url unicode a decode t

  module _ (info : SourceInfo) (clean_url download_dir proxy_url : String) (max_retries : ℤ)
      (fresh : Fresh) (storable : IsStorable info) where
    abbrev AFileTask : Task → Type 0
    AFileTask = IsFileTask web info clean_url

    abbrev ADirectoryTask : Answers → Task → Type 0
    ADirectoryTask a = IsDirectoryTask web info clean_url unicode a decode

    a_directory :
        (a : Answers) (t : Task)
        → new_directory_task web unicode encode info clean_url download_dir proxy_url max_retries
            fresh a
          ≡ ok t
        → ADirectoryTask a t
    a_directory a t h =
        new_directory_task-IsDirectoryTask web is_web unicode encode info clean_url download_dir
          proxy_url max_retries fresh storable a decode t reads h

    a_file :
        (size : ℤ) (t : Task)
        → file_task web unicode encode info clean_url download_dir proxy_url max_retries fresh size
          ≡ ok t
        → AFileTask t
    a_file size t h =
        file_task-IsFileTask web is_web unicode encode info clean_url download_dir proxy_url
          max_retries fresh storable size t h

    -- Where there is no size.
    unsized :
        (a : Answers) (t : Task) (x : Result Task)
        → new_directory_task web unicode encode info clean_url download_dir proxy_url max_retries
            fresh a
          ≡ x
        → elim x [
          | ok t' ↦ ok t'
          | err e ↦
              if not (size_command_unsupported a.protocol_code)
              then err (message "读取 FTP 文件大小")
              else file_task web unicode encode info clean_url download_dir proxy_url max_retries
                  fresh
                  (pos 0)
        ]
          ≡ ok t
        → AFileTask t ⊎ ADirectoryTask a t
    unsized a t (ok t') e h = inr (a_directory a t (e ∙ h))
    unsized a t (err x) e h = elim (Bool-cases (size_command_unsupported a.protocol_code)) [
      | inr supported ↦ let impossible : ⊥ = ground (arith, h, supported) in elim impossible [ ]
      | inl unsupported ↦ inl (a_file (pos 0) t (ground (arith, h, unsupported)))
    ]

    sized :
        (a : Answers) (t : Task)
        → sized_task web unicode encode info clean_url download_dir proxy_url max_retries fresh a
          ≡ ok t
        → AFileTask t ⊎ ADirectoryTask a t
    unfolding sized_task
    sized a t h = elim (Result-cases a.file_size) [
      | inl (size, known) ↦ inl (a_file size t (ground (arith, h, known)))
      | inr (e, unknown) ↦ unsized a t _ refl (ground (arith, h, unknown))
    ]

    either :
        (a : Answers) (t : Task) (b : Bool)
        → (if b
            then new_directory_task web unicode encode info clean_url download_dir proxy_url
                max_retries fresh a
            else sized_task web unicode encode info clean_url download_dir proxy_url max_retries
                fresh a)
          ≡ ok t
        → info.directory ≡ b
        → (AFileTask t × (info.directory ≡ false)) ⊎ ADirectoryTask a t
    either a t true h e = inr (a_directory a t h)
    either a t false h e = elim (sized a t h) [
      | inl file ↦ inl (file, e)
      | inr directory ↦ inr directory
    ]

  pub parse-IsParsed :
      (source download_dir proxy_url : String) (max_retries : ℤ) (fresh : Fresh) (a : Answers)
      → (t : Task)
      → parse web unicode encode source download_dir proxy_url max_retries fresh a ≡ ok t
      → IsParsed source a t
  unfolding parse
  parse-IsParsed source download_dir proxy_url max_retries fresh a t h =
      let (found, there, h2) = bind_ok (parse_source web source) _ t h in
      let (allowed, valid, h3) = bind_ok (validate_proxy web proxy_url) _ t h2 in
      let storable = parsed-IsStorable web is_web source found there in
      record {
        info = found.0;
        clean_url = found.1;
        parsed = there;
        kept =
            either found.0 found.1 download_dir proxy_url max_retries fresh storable a t
              found.0.directory (dialed_ok web unicode encode a.dial_error _ t h3) refl;
      }
