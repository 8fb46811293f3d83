-- ===== src/Ftp/Transfer.antt =====
-- internal/download/ftp/ftp.go: transfer, waitLimited and update. What the server, the disk and the
-- context do is an argument, and a time is a number of nanoseconds.
pub mod Counted
pub mod Limited
use godown.Base.{
  ℕ, zero, suc, ◌+◌, ◌-◌, ◌*◌, ◌/◌, Bool, true, false, not, Option, none, some, List, [], ◌∷◌, ◌++◌,
  String, ltb, leb, ◌==◌, if◌then◌else◌,
}
use godown.Base.Int.{ℤ, pos, ltb_ℤ, pos_part, ◌-ℤ◌}
use godown.Core.Task.{Percent, percent, zero_percent, full_percent, ProgressUpdate}
use godown.Core.Output.{Error, message}

unfoldable pub progress_update : ℤ → ℤ → ℤ → String → ProgressUpdate
progress_update received total speed detail = record {
  received = received;
  file_size = total;
  speed = speed;
  progress =
      if ltb_ℤ (pos 0) total
      then (if ltb_ℤ total received then full_percent else percent received total)
      else zero_percent;
  detail = detail;
  status = none;
  stage_state = [];
  uses_slot = none;
}

-- A round of the loop in waitLimited: the limiter's rate, and the error of its Wait.
pub record Turn : Type 0 where
  pub rate : ℤ
  pub wait_error : Option Error

pub data Waited : Type 0 where
  passed cut_off : Waited
  stopped : Error → Waited

abbrev pub min : ℕ → ℕ → ℕ
min a b = if ltb b a then b else a

-- waitLimited: what it asks the limiter for, and how it ends; `cut_off` is the end of the fuel.
unfoldable pub wait_limited : (ℕ → Turn) → ℕ → ℕ → List ℕ × Waited
wait_limited turns zero bytes = ([], if bytes == 0 then passed else cut_off)
wait_limited turns (suc fuel) bytes =
    let turn = turns fuel in
    let chunk = min bytes (pos_part turn.rate) in
    let rest = wait_limited turns fuel (bytes - chunk) in
    if bytes == 0
    then ([], passed)
    else if not (ltb_ℤ (pos 0) turn.rate)
    then ([], passed)
    else elim turn.wait_error [ some e ↦ (chunk ∷ [], stopped e) | none ↦ (chunk ∷ rest.0, rest.1) ]

-- What response.Read gives beside its bytes.
pub data ReadEnd : Type 0 where
  more eof : ReadEnd
  broken : Error → ReadEnd

-- A round of the loop that reads.
pub record Read : Type 0 where
  pub context_error : Option Error
  pub bytes : ℕ
  pub read_end : ReadEnd
  pub limit_error : Option Error  -- of waitLimited
  pub written : ℕ
  pub write_error : Option Error
  pub now : ℕ
  pub response_close : Option Error
  pub late_context_error : Option Error
  pub file_close : Option Error

-- What is done to the partial file: the count of its bytes starts again, and whether the file could
-- be cut, or bytes are written at an offset.
pub data Step : Type 0 where
  restart : Bool → Step
  wrote : ℕ → ℕ → Step

-- How a call ends: with its error, or not within the rounds that are given.
pub data End : Type 0 where
  returned : Option Error → End
  open_ended : End

-- `received` is the variable that the caller shares.
pub record Outcome : Type 0 where
  pub received : ℕ
  pub steps : List Step
  pub reports : List ProgressUpdate
  pub end : End

abbrev pub ends : ℕ → End → Outcome
ends received end = record { received = received; steps = []; reports = []; end = end }

abbrev pub behind : Step → Outcome → Outcome
behind step o = record o { steps = step ∷ o.steps }

abbrev second : ℕ
second = 1000000000

abbrev first_error : Option Error → Option Error → Option Error
first_error none later = later
first_error (some e) later = some e

-- The time and the bytes of the last report.
pub record Mark : Type 0 where
  pub at : ℕ
  pub bytes : ℕ

abbrev pub is_due : Mark → ℕ → Bool
is_due m now = leb second (now - m.at)

abbrev pub speed_since : Mark → ℕ → ℕ → ℤ
speed_since m now received = let gained = received - m.bytes in pos (gained * second / (now - m.at))

-- What happens in a transfer before its loop.
pub record Opening : Type 0 where
  pub dial_error : Option Error
  pub resume_error : Option Error  -- of RetrFrom
  pub cut_error : Option Error  -- of the cut of the partial file
  pub start_error : Option Error  -- of Retr
  pub file_error : Option Error  -- of the open and the seek
  pub now : ℕ

module _ (total : ℤ) where
  -- Behind the bytes of a read: the end of the stream, an error of it, or the next round.
  unfoldable pub read_on : Read → ℕ → Outcome → Outcome
  read_on r received rest = elim r.read_end [
    | more ↦ rest
    | broken e ↦ ends received (returned (some e))
    | eof ↦
        ends received
          (returned (first_error r.response_close (first_error r.late_context_error r.file_close)))
  ]

  -- The report of a round, and what follows.
  abbrev pub with_report : Bool → Mark → ℕ → ℕ → Outcome → Outcome
  with_report true m now received o = record o {
    reports =
        progress_update (pos received) total (speed_since m now received) "正在下载 FTP 文件…"
        ∷ o.reports;
  }
  with_report false m now received o = o

  abbrev pub next_mark : Bool → Mark → ℕ → ℕ → Mark
  next_mark true m now received = record { at = now; bytes = received }
  next_mark false m now received = m

  -- The write of a round that has bytes.
  unfoldable pub write_on : Read → ℕ → Mark → Outcome → Outcome
  write_on r received m rest = elim r.limit_error [
    | some e ↦ ends received (returned (some e))
    | none ↦
        let now_received = received + r.written in
        behind (wrote received r.written) (elim r.write_error [
          | some e ↦ ends now_received (returned (some e))
          | none ↦
              if r.written == r.bytes
              then with_report (is_due m r.now) m r.now now_received rest
              else ends now_received (returned (some (message "short write")))
        ])
  ]

  unfoldable pub read_loop : List Read → ℕ → Mark → Outcome
  read_loop [] received m = ends received open_ended
  read_loop (r ∷ reads) received m =
      let now_received = received + r.written in
      let due = is_due m r.now in
      let behind_write =
        read_on r now_received
          (read_loop reads now_received (next_mark due m r.now now_received)) in
      let without_bytes = read_on r received (read_loop reads received m) in
      elim r.context_error [
        | some e ↦ ends received (returned (some e))
        | none ↦ if ltb 0 r.bytes then write_on r received m behind_write else without_bytes
      ]

  unfoldable pub read_from : Opening → List Read → ℕ → Outcome
  read_from o reads received = elim o.file_error [
    | some e ↦ ends received (returned (some e))
    | none ↦ read_loop reads received (record { at = o.now; bytes = received })
  ]

  -- The stream from the first byte on.
  unfoldable pub retrieve : Opening → List Read → Outcome
  retrieve o reads = elim o.start_error [
    | some e ↦ ends 0 (returned (some e))
    | none ↦ read_from o reads 0
  ]

  -- The stream from an offset on, or else from the first byte, with the file cut.
  unfoldable pub resume : Opening → List Read → ℕ → Outcome
  resume o reads received = elim o.resume_error [
    | none ↦ read_from o reads received
    | some e ↦ elim o.cut_error [
      | some c ↦ behind (restart false) (ends 0 (returned (some c)))
      | none ↦ behind (restart true) (retrieve o reads)
    ]
  ]

  unfoldable pub transfer : Opening → List Read → ℕ → Outcome
  transfer o reads received = elim o.dial_error [
    | some e ↦ ends received (returned (some e))
    | none ↦ if ltb 0 received then resume o reads received else retrieve o reads
  ]
