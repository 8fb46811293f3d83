-- ===== src/Http/Download.antt =====
-- internal/download/http/worker.go: the tries of a part, against a list of what the server and the
-- disk do in each.
pub mod Attempts
pub mod Filling
pub mod Whole
use godown.Base.{
  ℕ, zero, suc, ◌+◌, Bool, true, false, not, ◌&&◌, ◌||◌, Option, none, some, List, [], ◌∷◌, ◌++◌,
  String, ltb, ◌==◌, if◌then◌else◌,
}
use godown.Base.Int.{ℤ, pos, negsuc, pos_part, ◌+ℤ◌, ◌-ℤ◌, ltb_ℤ, eq_ℤ}
use godown.Core.Output.{Error, message, canceled, Result, ok, err}
use godown.Http.Segments.{Subworker, unknown_size}
use Prim.Native.Nat.{min}
use godown.Http.Transfer.{
  Outcome, Read, ReadEnd, Request, Resource, Response, Transfer, advance, chunk_length, chunk_of,
  clip, copy_chunk, copy_loop, copy_part, copy_round, end_round, incomplete, is_bounded,
  range_error, response_error, validate_part_complete, done, failed, panicked, open_ended, whole,
  from, between,
}

-- The result is negative where there are too many failures: `none`.
unfoldable pub update_retry_count : ℕ → ℤ → Bool → Option ℕ
update_retry_count failures max_retries made_progress =
    let count = suc (if made_progress then 0 else failures) in
    if ltb (pos_part max_retries) count then none else some count

unfoldable pub reset_part : Transfer → Transfer
reset_part t = record t {
  part = record t.part { progress = pos 0 };
  received = if ltb_ℤ (pos 0) t.part.progress then t.received -ℤ t.part.progress else t.received;
}

-- One round of downloadPart. `truncate` is the disk's answer where the file is truncated, `bad_url`
-- that of http.NewRequest; the context may be cancelled after the request and in the pause.
pub record Attempt : Type 0 where
  pub truncate : Option Error
  pub bad_url : Option Error
  pub reply : Result Response
  pub cancelled : Bool
  pub pause_cancelled : Bool

abbrev pub request_for : Resource → Subworker → Request
request_for resource p =
    if resource.supports_range
    then (if eq_ℤ p.end unknown_size then from p.progress else between p.progress p.end)
    else whole

abbrev pub is_complete : Subworker → Bool
is_complete p = not (eq_ℤ p.end unknown_size) && ltb_ℤ p.end p.progress

-- How a round ends: with an outcome, or with another round after so many failures.
pub data Next : Type 0 where
  ends : Outcome → Next
  again : ℕ → Next

abbrev pub pause_then : Attempt → Error → Option ℕ → Next
pause_then a e none = ends (failed e)
pause_then a e (some failures) =
    if a.pause_cancelled then ends (failed canceled) else again failures

-- After an attempt that failed with an error.
abbrev pub retry : Attempt → Error → Option ℕ → Next
retry a e count = if a.cancelled then ends (failed canceled) else pause_then a e count

abbrev pub after_copy : Resource → Attempt → ℕ → ℤ → Transfer × Outcome → Transfer × Next
after_copy resource a failures before (t, failed e) =
    (t, retry a e (update_retry_count failures resource.max_retries (ltb_ℤ before t.part.progress)))
after_copy resource a failures before (t, o) = (t, ends o)

unfoldable pub send_request : Resource → Attempt → ℕ → Transfer → Transfer × Next
unfolding copy_part update_retry_count
send_request resource a failures t = elim a.bad_url [
  | some e ↦ (t, ends (failed e))
  | none ↦
      let sent = record t { requests = t.requests ++ request_for resource t.part ∷ [] } in
      elim a.reply [
        | err e ↦ (sent, retry a e (update_retry_count failures resource.max_retries false))
        | ok response ↦
            after_copy resource a failures t.part.progress (copy_part resource response sent)
      ]
]

abbrev pub attempt_from : Resource → Attempt → ℕ → Transfer → Transfer × Next
attempt_from resource a failures t =
    if is_complete t.part then (t, ends done) else send_request resource a failures t

unfoldable pub attempt : Resource → Attempt → ℕ → Transfer → Transfer × Next
unfolding reset_part send_request
attempt resource a failures t =
    if resource.supports_range then attempt_from resource a failures t else elim a.truncate [
      | some e ↦ (reset_part t, ends (failed e))
      | none ↦ attempt_from resource a failures (reset_part t)
    ]

unfoldable pub download_from : Resource → List Attempt → ℕ → Transfer → Transfer × Outcome
download_from resource [] failures t = (t, open_ended)
download_from resource (a ∷ rest) failures t =
    let t' = (attempt resource a failures t).0 in
    elim (attempt resource a failures t).1 [
      | ends o ↦ (t', o)
      | again count ↦ download_from resource rest count t'
    ]

unfoldable pub download_part : Resource → List Attempt → Transfer → Transfer × Outcome
unfolding download_from
download_part resource attempts t = download_from resource attempts 0 t

-- A part before its first request.
abbrev pub fresh : Subworker → Transfer
fresh p = record { part = p; received = pos 0; requests = []; writes = [] }

-- The goroutines of Run, one for each part. They share nothing but the file and the total, so that
-- each is followed by itself, against what it meets.
unfoldable pub download_parts :
    Resource → (Subworker → List Attempt) → List Subworker → List (Transfer × Outcome)
unfolding download_part
download_parts resource meets [] = []
download_parts resource meets (p ∷ ps) =
    download_part resource (meets p) (fresh p) ∷ download_parts resource meets ps
