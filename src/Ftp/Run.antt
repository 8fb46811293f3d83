-- ===== src/Ftp/Run.antt =====
-- internal/download/ftp/ftp.go: Run for a file, and downloadDirectoryFile. The attempts of the loop
-- and the answers of the disk are arguments.
pub mod Counted
pub mod Ending
pub mod Entry
use godown.Base.{
  ℕ, suc, ◌+◌, ◌*◌, Bool, true, false, not, ◌&&◌, ◌||◌, Option, none, some, List, [], ◌∷◌, ◌++◌,
  String, ltb, ◌==◌, str_eq, if◌then◌else◌,
}
use godown.Base.Int.{ℤ, pos, negsuc, ltb_ℤ, eq_ℤ}
use godown.Core.Task.{ProgressUpdate, full_percent}
use godown.Core.Output.{Error, message}
use godown.Ftp.Transfer.{
  progress_update, Step, restart, wrote, End, returned, open_ended, Outcome, ends, Opening, Read,
  transfer,
}

-- An attempt of the loop: its transfer, ctx.Err() where it failed, and ctx.Err() where the context
-- ends in the pause behind.
pub record Attempt : Type 0 where
  pub opening : Opening
  pub reads : List Read
  pub context_error : Option Error
  pub pause_error : Option Error

abbrev pub before_all : Outcome → Outcome → Outcome
before_all o rest = record rest {
  steps = o.steps ++ rest.steps;
  reports = o.reports ++ rest.reports;
}

abbrev pub ends_with : Option Error → Outcome → Outcome
ends_with e o = record o { end = returned e }

-- The count of the attempts that failed with no byte more.
abbrev pub failures_behind : ℕ → ℕ → ℕ → ℕ
failures_behind start received failures = if ltb start received then 1 else suc failures

module _ (total : ℤ) (max_retries : ℤ) where
  -- What follows an attempt that failed.
  abbrev pub failed_attempt : Attempt → Error → ℕ → Outcome → Outcome → Outcome
  failed_attempt a e failures o rest = elim a.context_error [
    | some c ↦ ends_with (some c) o
    | none ↦
        if ltb_ℤ max_retries (pos failures)
        then o
        else elim a.pause_error [ some c ↦ ends_with (some c) o | none ↦ before_all o rest ]
  ]

  -- The loop of Run and of downloadDirectoryFile.
  unfoldable pub try_all : List Attempt → ℕ → ℕ → Outcome
  try_all [] failures received = ends received open_ended
  try_all (a ∷ attempts) failures received =
      let o = transfer total a.opening a.reads received in
      let failures' = failures_behind received o.received failures in
      let rest = try_all attempts failures' o.received in
      elim o.end [
        | open_ended ↦ o
        | returned none ↦ o
        | returned (some e) ↦ failed_attempt a e failures' o rest
      ]

-- The size of the partial file: `absent` where there is none, or another error.
pub data PartStat : Type 0 where
  absent : PartStat
  part : ℕ → PartStat
  unreadable : Error → PartStat

-- The answers of the disk at the end of a file.
pub record Finish : Type 0 where
  pub remove_error : Option Error  -- of the output, where it is there
  pub rename_error : Option Error
  pub marker_error : Option Error  -- of writeCompletionMarker

-- The outcome, and whether the partial file was moved to the output.
pub record Finished : Type 0 where
  pub outcome : Outcome
  pub moved : Bool

abbrev pub stays : Outcome → Finished
stays o = record { outcome = o; moved = false }

abbrev pub size_mismatch : Error
size_mismatch = message "FTP 文件大小不匹配"

-- os.Remove and os.Rename, and what follows.
abbrev pub move_to_output : Finish → Outcome → Finished → Finished
move_to_output f o moved = elim f.remove_error [
  | some e ↦ stays (ends_with (some e) o)
  | none ↦ elim f.rename_error [ some e ↦ stays (ends_with (some e) o) | none ↦ moved ]
]

abbrev pub with_cut : Finished → Finished
with_cut r = record r { outcome = record r.outcome { steps = restart true ∷ r.outcome.steps } }

-- Run.
module _ (total max_retries : ℤ) where
  -- Whether the partial file cannot be one of this file, and is cut.
  abbrev pub is_stale : ℕ → Bool
  is_stale offset =
      (not (ltb_ℤ (pos 0) total) && ltb 0 offset)
      || (ltb_ℤ (pos 0) total && ltb_ℤ total (pos offset))

  abbrev pub completed : Outcome → ProgressUpdate
  completed o = record (progress_update (pos o.received) (pos o.received) (pos 0) "FTP 下载完成") {
    progress = full_percent;
  }

  abbrev pub with_completed : Outcome → Outcome
  with_completed o = record o { reports = o.reports ++ completed o ∷ [] }

  -- What follows the loop.
  unfoldable pub finish : Finish → Outcome → Finished
  finish f o = elim o.end [
    | open_ended ↦ stays o
    | returned (some e) ↦ stays o
    | returned none ↦
        if ltb_ℤ (pos 0) total && not (eq_ℤ (pos o.received) total)
        then stays (ends_with (some size_mismatch) o)
        else move_to_output f o (record { outcome = with_completed o; moved = true })
  ]

  abbrev connecting : ℕ → ProgressUpdate
  connecting received = progress_update (pos received) total (pos 0) "正在连接 FTP 服务器…"

  abbrev pub begin_report : ℕ → Outcome → Outcome
  begin_report received o = record o { reports = connecting received ∷ o.reports }

  unfoldable pub run_from : List Attempt → Finish → ℕ → Finished
  run_from attempts f received =
      finish f (begin_report received (try_all total max_retries attempts 0 received))

  -- From the size of the partial file, and the error of the cut.
  unfoldable pub run : PartStat → Option Error → List Attempt → Finish → Finished
  run (unreadable e) cut_error attempts f = stays (ends 0 (returned (some e)))
  run absent cut_error attempts f = run_from attempts f 0
  run (part offset) cut_error attempts f =
      if is_stale offset
      then elim cut_error [
        | some e ↦ stays (ends offset (returned (some e)))
        | none ↦ with_cut (run_from attempts f 0)
      ]
      else run_from attempts f offset

-- The output as completedFileMatches finds it: its size where it can be read and is no directory,
-- its digest, and what the marker holds, without blanks.
pub record OutputStat : Type 0 where
  pub size : Option ℕ
  pub digest : Option String
  pub marker : Option String
  pub stat_error : Option Error  -- of root.Stat, where the output is there

unfoldable pub completed_file_matches : ℤ → OutputStat → Bool
completed_file_matches size o = elim o.size [
  | none ↦ false
  | some n ↦ if not (ltb_ℤ size (pos 0)) && not (eq_ℤ (pos n) size) then false else elim o.marker [
    | none ↦ false
    | some want ↦ elim o.digest [ none ↦ false | some got ↦ str_eq want got ]
  ]
]

-- The words that downloadDirectoryFile passes on, with the bytes and the speed of a report.
abbrev pub reword_all : List ProgressUpdate → List ProgressUpdate
reword_all [] = []
reword_all (u ∷ reports) = record u { detail = "正在下载 FTP 文件" } ∷ reword_all reports

-- downloadDirectoryFile, with its own tests on sizes: -1 stands for one that is not known.
module _ (size max_retries : ℤ) where
  abbrev pub is_stale_entry : ℕ → Bool
  is_stale_entry received =
      (ltb_ℤ size (pos 0) && ltb 0 received)
      || (not (ltb_ℤ size (pos 0)) && ltb_ℤ size (pos received))

  -- The marker is written once the file is moved.
  unfoldable pub finish_entry : Finish → Outcome → Finished
  finish_entry f o = elim o.end [
    | open_ended ↦ stays o
    | returned (some e) ↦ stays o
    | returned none ↦
        if not (ltb_ℤ size (pos 0)) && not (eq_ℤ (pos o.received) size)
        then stays (ends_with (some size_mismatch) o)
        else move_to_output f o (record { outcome = ends_with f.marker_error o; moved = true })
  ]

  abbrev pub begin_entry : ℕ → Outcome → Outcome
  begin_entry received o = record o {
    reports = progress_update (pos received) size (pos 0) "正在连接 FTP 服务器" ∷ reword_all o.reports;
  }

  abbrev pub entry_from : List Attempt → Finish → ℕ → Finished
  entry_from attempts f received =
      finish_entry f (begin_entry received (try_all size max_retries attempts 0 received))

  -- An output that matches is taken as it is; the second Stat of it is taken to find what the one of
  -- completedFileMatches found.
  unfoldable pub download_directory_file :
      OutputStat → PartStat → Option Error → List Attempt → Finish → Finished
  download_directory_file output partial cut_error attempts f =
      if completed_file_matches size output
      then elim output.size [
        | none ↦ stays (ends 0 (returned output.stat_error))
        | some n ↦ stays (ends n (returned none))
      ]
      else elim output.stat_error [
        | some e ↦ stays (ends 0 (returned (some e)))
        | none ↦ elim partial [
          | unreadable e ↦ stays (ends 0 (returned (some e)))
          | absent ↦ entry_from attempts f 0
          | part n ↦
              if is_stale_entry n
              then elim cut_error [
                | some e ↦ stays (ends 0 (returned (some e)))
                | none ↦ with_cut (entry_from attempts f 0)
              ]
              else entry_from attempts f n
        ]
      ]
