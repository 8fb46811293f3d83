-- ===== src/Ftp/Source/Kept.antt =====
-- That a task keeps the source that it was parsed from.
use godown.Base.{
  ℕ, ◌≡◌, refl, sym, ◌∙◌, ap, subst, Bool, true, false, not, ◌||◌, some, List, inl, inr, arith,
  String, str_eq, if◌then◌else◌, Bool-cases, Option-cases,
}
use godown.Base.Int.{ℤ, pos}
use godown.Core.Task.{Task, read, new_task, new_stage}
use godown.Core.Output.{Error, message, Result, ok, err}
use godown.Ftp.Names.{Text, Unicode, safe_file_name}
use godown.Ftp.Listing.{Checked, refused, accepted, DirectoryEntry, list_directory}
use godown.Ftp.Listing.Parts.{Checked-cases}
use godown.Ftp.Directory.Checking.{bind_ok}
use godown.Ftp.Source.{
  Url, Web, SourceInfo, default_timeout, is_ftp, host_of, info_of, info_at_path, parse_source,
  timeout_of, source_from_task, state_of, directory_state_of,
}
use godown.Ftp.Source.Parse.{
  Answers, Fresh, task_of, directory_title, new_directory_task, file_task,
}

-- What the standard library keeps to: a host with a port, and a cleaned path, is not empty, and the
-- timeout is read as it was written.
pub record IsWeb (web : Web) : Type 0 where
  pub some_host : (host port : String) → str_eq (web.join_host_port host port) "" ≡ false
  pub some_path : (p : Text) → str_eq (web.spell (web.clean p)) "" ≡ false
  pub reads_back : web.atoi (web.itoa default_timeout) ≡ some default_timeout

-- The source can be stored in a task.
pub record IsStorable (info : SourceInfo) : Type 0 where
  pub some_host : str_eq info.host "" ≡ false
  pub some_path : str_eq info.remote_path "" ≡ false
  pub usual : info.timeout ≡ default_timeout

module _ (web : Web) (info : SourceInfo) (clean_url : String) where
  -- What the task of a file keeps.
  pub record IsFileTask (t : Task) : Type 0 where
    pub source : source_from_task web t ≡ ok (record info { directory = false })
    pub url : t.url ≡ clean_url

  -- What the task of a directory keeps: its source and the listing.
  pub record IsDirectoryTask (unicode : Unicode) (a : Answers)
      (decode : String → Result (List DirectoryEntry)) (t : Task) : Type 0 where
    pub source : source_from_task web t ≡ ok (record info { directory = true })
    pub url : t.url ≡ clean_url
    pub entries : List DirectoryEntry
    pub total : ℕ
    pub listed :
        list_directory unicode web.clean a.probe
          (web.letters info.remote_path)
          a.walked
          a.walk_failed
        ≡ accepted (entries, total)
    pub stored : decode (read "entries" t.stage.state) ≡ ok entries
    pub size : t.file_size ≡ pos total

module _ (web : Web) (is_web : IsWeb web) where
  host-some : (scheme : String) (u : Url) → str_eq (host_of web scheme u) "" ≡ false
  host-some scheme u = elim (Bool-cases (str_eq u.port "")) [
    | inl usual ↦ rw usual (is_web.some_host _ _)
    | inr other ↦ rw other (is_web.some_host _ _)
  ]

  info-IsStorable :
      (scheme : String) (u : Url) (r : SourceInfo × String)
      → info_at_path web scheme u ≡ ok r
      → IsStorable r.0
  unfolding info_at_path
  info-IsStorable scheme u r h = elim (Option-cases u.path) [
    | inl no_path ↦ let impossible : ⊥ = ground (arith, h, no_path) in elim impossible [ ]
    | inr (remote, there) ↦ elim (Bool-cases (str_eq remote "")) [
      | inl empty ↦ let impossible : ⊥ = ground (arith, h, there, empty) in elim impossible [ ]
      | inr some_text ↦
          let same : (info_of web scheme u remote, u.without_user) ≡ r =
            ground (arith, h, there, some_text) in
          subst (λ (x : SourceInfo × String). IsStorable x.0) same
            (record {
              some_host = host-some scheme u;
              some_path = is_web.some_path _;
              usual = refl;
            })
    ]
  ]

  pub parsed-IsStorable :
      (source : String) (r : SourceInfo × String) → parse_source web source ≡ ok r → IsStorable r.0
  unfolding parse_source
  parsed-IsStorable source r h = elim (Option-cases (web.parse_url (web.trim_space source))) [
    | inl no_url ↦ let impossible : ⊥ = ground (arith, h, no_url) in elim impossible [ ]
    | inr (u, there) ↦
        elim (Bool-cases (not (is_ftp web (web.to_lower u.scheme)) || str_eq u.hostname "")) [
          | inl bad ↦ let impossible : ⊥ = ground (arith, h, there, bad) in elim impossible [ ]
          | inr good ↦ info-IsStorable (web.to_lower u.scheme) u r (ground (arith, h, there, good))
        ]
  ]

  timeout-kept : timeout_of web (web.itoa default_timeout) ≡ default_timeout
  unfolding timeout_of
  timeout-kept = ground (arith, is_web.reads_back)

  guarded :
      (host path : String) (info : SourceInfo)
      → str_eq host "" ≡ false
      → str_eq path "" ≡ false
      → (if str_eq host "" || str_eq path "" then err (message "FTP 任务缺少连接信息") else ok info)
        ≡ ok info
  guarded host path info some_host some_path = rw (some_host, some_path) refl

  on_listed :
      {A : Type 0} (x : Checked A) (a : A) (f : A → Result Task) (t : Task)
      → x ≡ accepted a
      → elim x [ refused why ↦ err (message "读取 FTP 目录") | accepted y ↦ f y ] ≡ ok t
      → f a ≡ ok t
  on_listed x a f t found h =
      subst
        (λ y.
          elim y as (λ z. Result Task) [
            | refused why ↦ err (message "读取 FTP 目录")
            | accepted z ↦ f z
          ]
          ≡ ok t)
        found h

  ok_behind :
      {A : Type 0} (b : Bool) (e : Error) (x t : A) → (if b then err e else ok x) ≡ ok t → x ≡ t
  ok_behind true e x t h = let impossible : ⊥ = ground (arith, h) in elim impossible [ ]
  ok_behind false e x t h = ground (arith, h)

  module _ (unicode : Unicode) (encode : List DirectoryEntry → Result String) where
    module _ (info : SourceInfo) (clean_url download_dir proxy_url : String) (max_retries : ℤ)
        (fresh : Fresh) (storable : IsStorable info) where
      timeout_same : timeout_of web (web.itoa info.timeout) ≡ info.timeout
      timeout_same =
          ap (λ (t : ℤ). timeout_of web (web.itoa t)) storable.usual
          ∙ timeout-kept
          ∙ sym storable.usual

      abbrev written : String → ℤ → Task
      written title size =
          task_of web unicode encode info clean_url download_dir proxy_url max_retries fresh title
            size (state_of web info)

      abbrev written_directory : String → ℤ → String → Task
      written_directory title size encoded =
          task_of web unicode encode info clean_url download_dir proxy_url max_retries fresh title
            size (directory_state_of web info encoded)

      abbrev with_timeout : ℤ → Bool → SourceInfo
      with_timeout t d = record info { timeout = t; directory = d }

      file-kept :
          (title : String) (size : ℤ)
          → source_from_task web (written title size) ≡ ok (record info { directory = false })
      unfolding source_from_task new_task new_stage
      file-kept title size =
          guarded info.host info.remote_path _ storable.some_host storable.some_path
          ∙ ap (λ (t : ℤ). ok (with_timeout t false)) timeout_same

      directory-kept :
          (title : String) (size : ℤ) (encoded : String)
          → source_from_task web (written_directory title size encoded)
            ≡ ok (record info { directory = true })
      unfolding source_from_task new_task new_stage
      directory-kept title size encoded =
          guarded info.host info.remote_path _ storable.some_host storable.some_path
          ∙ ap (λ (t : ℤ). ok (with_timeout t true)) timeout_same

      pub file_task-IsFileTask :
          (size : ℤ) (t : Task)
          → file_task web unicode encode info clean_url download_dir proxy_url max_retries fresh
              size
            ≡ ok t
          → IsFileTask web info clean_url t
      unfolding file_task new_task
      file_task-IsFileTask size t h =
          let title =
            web.spell (safe_file_name unicode (web.file_base (web.letters info.remote_path))) in
          subst (IsFileTask web info clean_url) (ok_behind _ _ (written title size) t h)
            (record { source = file-kept title size; url = refl })

      pub new_directory_task-IsDirectoryTask :
          (a : Answers) (decode : String → Result (List DirectoryEntry)) (t : Task)
          → ((entries : List DirectoryEntry) (text : String)
              → encode entries ≡ ok text
              → decode text ≡ ok entries)
          → new_directory_task web unicode encode info clean_url download_dir proxy_url max_retries
              fresh a
            ≡ ok t
          → IsDirectoryTask web info clean_url unicode a decode t
      unfolding new_directory_task new_task new_stage
      new_directory_task-IsDirectoryTask a decode t reads h =
          let root = web.letters info.remote_path in
          let title =
            directory_title web unicode encode info clean_url download_dir proxy_url max_retries
              fresh in
          elim (Checked-cases
            (list_directory unicode web.clean a.probe root a.walked a.walk_failed)) [
              | inr (why, failed) ↦
                  let impossible : ⊥ = ground (arith, h, failed) in elim impossible [ ]
              | inl (listed, found) ↦
                  let (encoded, there, last) =
                    bind_ok (encode listed.0)
                      (λ (encoded : String). ok (written_directory title (pos listed.1) encoded)) t
                      (on_listed
                        (list_directory unicode web.clean a.probe root a.walked a.walk_failed)
                        listed _ t found h) in
                  let same : written_directory title (pos listed.1) encoded ≡ t =
                    ground (arith, last) in
                  subst (IsDirectoryTask web info clean_url unicode a decode) same (record {
                    source = directory-kept title (pos listed.1) encoded;
                    url = refl;
                    entries = listed.0;
                    total = listed.1;
                    listed = found;
                    stored = reads listed.0 encoded there;
                    size = refl;
                  })
            ]
