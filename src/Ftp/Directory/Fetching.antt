-- ===== src/Ftp/Directory/Fetching.antt =====
-- What the loop of a directory's run has downloaded.
use mathlib.Core.List.{append_assoc}
use godown.Base.{
  ℕ, suc, ◌+◌, ◌≡◌, refl, sym, ◌∙◌, ap, Bool, true, false, none, some, List, [], ◌∷◌, ◌++◌, ◌⊎◌,
  inl, inr, arith,
}
use godown.Base.Int.{ℤ}
use godown.Core.Task.{ProgressUpdate}
use godown.Core.Output.{Error, Result, ok, err}
use godown.Ftp.Names.{Text, Unicode}
use godown.Ftp.Names.Safe.{IsPlain}
use godown.Ftp.Listing.{Seen, DirectoryEntry}
use godown.Ftp.Transfer.{End, returned, open_ended}
use godown.Ftp.Directory.{
  Paths, Visit, DirectoryRun, ends_at, directory_completed, completes, fetch, check_entry,
  report_all, with_file, fetch_all,
}
use godown.Ftp.Directory.Checking.{IsItem, IsPlaced, check_entry-IsItem}
use godown.Ftp.Directory.Done.{
  files_of, skips_folder, keeps_file, entries_of, bytes_of, AllDone, fetch-IsDone,
}

module _ (unicode : Unicode) (paths : Paths) (task_path root markers remote_root : Text) where
  -- A file that a run has asked the server for.
  pub record IsFetched (e : DirectoryEntry) : Type 0 where
    pub item : IsItem unicode e
    pub file : e.directory ≡ false
    pub placed : IsPlaced unicode paths task_path root markers remote_root e

  abbrev pub AllFetched : List DirectoryEntry → Type 0
  AllFetched [] = Unit {0}
  AllFetched (e ∷ entries) = IsFetched e × AllFetched entries

  abbrev pub AllItems : List DirectoryEntry → Type 0
  AllItems [] = Unit {0}
  AllItems (e ∷ entries) = IsItem unicode e × AllItems entries

  module _ (total max_retries : ℤ) where
    -- A run with no error, from a count of bytes on.
    pub record IsComplete (n : ℕ) (entries : List DirectoryEntry) (r : DirectoryRun) : Type 0 where
      pub ending : r.end ≡ returned none
      pub items : AllItems entries
      pub all_files : entries_of r.fetched ≡ files_of entries
      pub done : AllDone max_retries r.fetched
      pub counted : r.received ≡ n + bytes_of max_retries r.fetched
      pub told :
          (before : List ProgressUpdate) × (r.reports
            ≡ before ++ directory_completed r.received ∷ [])

    pub record IsRun (n : ℕ) (entries : List DirectoryEntry) (r : DirectoryRun) : Type 0 where
      pub fetched : AllFetched (entries_of r.fetched)
      pub ended :
          ((x : Error) × (r.end ≡ returned (some x)))
          ⊎ (r.end ≡ open_ended)
          ⊎ IsComplete n entries r

    failed-IsRun :
        (n : ℕ) (entries : List DirectoryEntry) (x : Error)
        → IsRun n entries (ends_at n (returned (some x)))
    failed-IsRun n entries x = record { fetched = tt; ended = inl (x, refl) }

    completes-IsRun : (n : ℕ) → IsRun n [] (completes n)
    completes-IsRun n = record {
      fetched = tt;
      ended = inr (
          inr (record {
            ending = refl;
            items = tt;
            all_files = refl;
            done = tt;
            counted = omega arith;
            told = ([], refl);
          }));
    }

    on_checked :
        (n : ℕ) (entries : List DirectoryEntry) (c x : Result Seen) (good : Seen → DirectoryRun)
        → c ≡ x
        → ((seen : Seen) → c ≡ ok seen → IsRun n entries (good seen))
        → IsRun n entries (elim x [ err e ↦ ends_at n (returned (some e)) | ok seen ↦ good seen ])
    on_checked n entries c (err e) good same h = failed-IsRun n entries e
    on_checked n entries c (ok seen) good same h = h seen same

    -- A directory.
    folder-IsComplete :
        (n : ℕ) (e : DirectoryEntry) (entries : List DirectoryEntry) (r : DirectoryRun)
        → IsItem unicode e
        → e.directory ≡ true
        → IsComplete n entries r
        → IsComplete n (e ∷ entries) r
    folder-IsComplete n e entries r item folder h = record {
      ending = h.ending;
      items = (item, h.items);
      all_files = h.all_files ∙ sym (skips_folder e entries folder);
      done = h.done;
      counted = h.counted;
      told = h.told;
    }

    folder-IsRun :
        (n : ℕ) (e : DirectoryEntry) (entries : List DirectoryEntry) (r : DirectoryRun)
        → IsItem unicode e
        → e.directory ≡ true
        → IsRun n entries r
        → IsRun n (e ∷ entries) r
    folder-IsRun n e entries r item folder h = record {
      fetched = h.fetched;
      ended = elim h.ended [
        | inl failed ↦ inl failed
        | inr (inl cut) ↦ inr (inl cut)
        | inr (inr whole) ↦ inr (inr (folder-IsComplete n e entries r item folder whole))
      ];
    }

    module _ (visits : ℕ → Visit) where
      abbrev behind_file : DirectoryEntry → Visit → ℕ → DirectoryRun → DirectoryRun
      behind_file e v n r =
          with_file unicode paths task_path root markers remote_root total max_retries visits e v n
            (fetch max_retries e v) r

      file-IsComplete :
          (n : ℕ) (e : DirectoryEntry) (v : Visit) (entries : List DirectoryEntry)
          → (r : DirectoryRun) → IsFetched e
          → (fetch max_retries e v).outcome.end ≡ returned none
          → IsComplete (n + (fetch max_retries e v).outcome.received) entries r
          → IsComplete n (e ∷ entries) (behind_file e v n r)
      file-IsComplete n e v entries r f ended h = record {
        ending = h.ending;
        items = (f.item, h.items);
        all_files = ap (λ es. e ∷ es) h.all_files ∙ sym (keeps_file e entries f.file);
        done = (fetch-IsDone max_retries e v ended, h.done);
        counted = omega (arith, h.counted);
        told =
            let (before, last) = h.told in
            let own =
              report_all unicode paths task_path root markers remote_root total max_retries visits e
                n (fetch max_retries e v).outcome.reports in
            (own ++ before, ap (λ rs. own ++ rs) last ∙ sym (append_assoc own before _));
      }

      file-IsRun :
          (n : ℕ) (e : DirectoryEntry) (v : Visit) (entries : List DirectoryEntry) (x : End)
          → (rest : DirectoryRun) → IsFetched e
          → (fetch max_retries e v).outcome.end ≡ x
          → IsRun (n + (fetch max_retries e v).outcome.received) entries rest
          → IsRun n (e ∷ entries) (
              behind_file e v n (elim x [
                | open_ended ↦ ends_at n open_ended
                | returned y ↦ elim y [ some y ↦ ends_at n (returned (some y)) | none ↦ rest ]
              ]))
      file-IsRun n e v entries open_ended rest f ended h = record {
        fetched = (f, tt);
        ended = inr (inl refl);
      }
      file-IsRun n e v entries (returned (some y)) rest f ended h = record {
        fetched = (f, tt);
        ended = inl (y, refl);
      }
      file-IsRun n e v entries (returned none) rest f ended h = record {
        fetched = (f, h.fetched);
        ended = elim h.ended [
          | inl failed ↦ inl failed
          | inr (inl cut) ↦ inr (inl cut)
          | inr (inr whole) ↦ inr (inr (file-IsComplete n e v entries rest f ended whole))
        ];
      }

      abbrev fetch_rest : ℕ → List DirectoryEntry → Seen → ℕ → DirectoryRun
      fetch_rest =
          fetch_all unicode paths task_path root markers remote_root total max_retries visits

      -- Behind the checks of an entry.
      either-IsRun :
          (i n : ℕ) (e : DirectoryEntry) (b : Bool) (entries : List DirectoryEntry)
          → (folder file : DirectoryRun) → e.directory ≡ b
          → (e.directory ≡ true → IsRun n (e ∷ entries) folder)
          → (e.directory ≡ false → IsRun n (e ∷ entries) file)
          → IsRun n (e ∷ entries) (elim b [ true ↦ folder | false ↦ file ])
      either-IsRun i n e true entries folder file same h k = h same
      either-IsRun i n e false entries folder file same h k = k same

      pub fetch_all-IsRun :
          (i : ℕ) (entries : List DirectoryEntry) (seen : Seen) (n : ℕ)
          → IsPlain unicode
          → IsRun n entries (fetch_rest i entries seen n)
      unfolding fetch_all
      fetch_all-IsRun i [] seen n plain = completes-IsRun n
      fetch_all-IsRun i (e ∷ entries) seen n plain =
          let v = visits i in
          let f = fetch max_retries e v in
          let checked = check_entry unicode paths task_path root markers remote_root v seen e in
          on_checked n (e ∷ entries) checked checked _ refl (λ seen' taken.
            let facts =
              check_entry-IsItem unicode paths task_path root markers remote_root v seen seen' e
                plain taken in
            either-IsRun i n e e.directory entries _ _ refl
              (λ folder.
                folder-IsRun n e entries _ facts.0 folder
                  (fetch_all-IsRun (suc i) entries seen' n plain))
              (λ file.
                file-IsRun n e v entries f.outcome.end _
                  (record { item = facts.0; file = file; placed = facts.1 file }) refl
                  (fetch_all-IsRun (suc i) entries seen' (n + f.outcome.received) plain)))
