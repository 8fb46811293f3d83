-- ===== src/Http/Download/Attempts.antt =====
-- How often a part is tried.
use godown.Base.{
  ℕ, suc, ◌+◌, ◌-◌, ◌≤◌, ◌<◌, ◌≡◌, refl, ap, sym, subst, inl, inr, true, false, ltb→lt, none, List,
  [], ◌∷◌, ◌++◌, arith, ltb, length, length-append, Bool-cases, if◌then◌else◌,
}
use godown.Base.Int.{ℤ, pos, pos_part}
use godown.Core.Output.{Error, err}
use godown.Http.Segments.{Subworker, generate, not_supported_size}
use godown.Http.Transfer.{Transfer, Outcome, done, failed, Resource}
use godown.Http.Download.{
  Attempt, ends, again, attempt, send_request, request_for, update_retry_count, reset_part,
  is_complete, download_from, download_part,
}

-- An attempt whose request is made and gets no response, in a download that goes on.
pub record IsRefused (a : Attempt) : Type 0 where
  pub url_fits : a.bad_url ≡ none
  pub error : Error
  pub refused : a.reply ≡ err error
  pub goes_on : a.cancelled ≡ false
  pub waits : a.pause_cancelled ≡ false

abbrev pub AllRefused : List Attempt → Type 0
AllRefused [] = Unit {0}
AllRefused (a ∷ rest) = IsRefused a × AllRefused rest

-- The transfer after a request that got no response.
abbrev pub asked : Resource → Transfer → Transfer
asked resource t = record t { requests = t.requests ++ request_for resource t.part ∷ [] }

attempt_refused :
    (resource : Resource) (a : Attempt) (failures : ℕ) (t : Transfer)
    → resource.supports_range ≡ true
    → is_complete t.part ≡ false
    → (r : IsRefused a)
    → attempt resource a failures t ≡ (
      asked resource t,
      if ltb (pos_part resource.max_retries) (suc failures)
          then ends (failed r.error)
          else again (suc failures),
    )
unfolding attempt send_request update_retry_count
attempt_refused resource a failures t ranged unfilled r =
    ground (arith, r.url_fits, r.refused, r.goes_on, r.waits)

-- The outcome and the number of requests of a download.
record GivesUp (requests : ℕ) (x : Transfer × Outcome) : Type 0 where
  error : Error
  fails : x.1 ≡ failed error
  counted : length x.0.requests ≡ requests

pub download_from_ends :
    (resource : Resource) (a : Attempt) (rest : List Attempt) (failures : ℕ) (t u : Transfer)
    (o : Outcome)
    → attempt resource a failures t ≡ (u, ends o)
    → download_from resource (a ∷ rest) failures t ≡ (u, o)
unfolding download_from
download_from_ends resource a rest failures t u o e = ground arith

pub download_from_again :
    (resource : Resource) (a : Attempt) (rest : List Attempt) (failures : ℕ) (t u : Transfer)
    (count : ℕ)
    → attempt resource a failures t ≡ (u, again count)
    → download_from resource (a ∷ rest) failures t ≡ download_from resource rest count u
unfolding download_from
download_from_again resource a rest failures t u count e = ground arith

download_from_refused :
    (resource : Resource) (attempts : List Attempt) (failures : ℕ) (t : Transfer)
    → resource.supports_range ≡ true
    → is_complete t.part ≡ false
    → AllRefused attempts
    → failures ≤ pos_part resource.max_retries
    → pos_part resource.max_retries < failures + length attempts
    → GivesUp
        (length t.requests + (suc (pos_part resource.max_retries) - failures))
        (download_from resource attempts failures t)
download_from_refused resource [] failures t ranged unfilled all low enough = absurd (omega arith)
download_from_refused resource (a ∷ rest) failures t ranged unfilled all low enough =
    let limit = pos_part resource.max_retries in
    let u = asked resource t in
    let goal = GivesUp (length t.requests + (suc limit - failures)) in
    let e = attempt_refused resource a failures t ranged unfilled all.0 in
    let one_more = length-append t.requests (request_for resource t.part ∷ []) in
    elim (Bool-cases (ltb limit (suc failures))) [
      | inl over ↦
          subst goal
            (sym (
              download_from_ends resource a rest failures t u (failed all.0.error)
                (ground (arith, e, over))))
            (record {
              error = all.0.error;
              fails = refl;
              counted = omega (arith, one_more, ltb→lt limit (suc failures) over);
            })
      | inr under ↦
          subst goal
            (sym (
              download_from_again resource a rest failures t u (suc failures)
                (ground (arith, e, under))))
            (subst (λ n. GivesUp n (download_from resource rest (suc failures) u))
              {x = length u.requests + (suc limit - suc failures)} (ground (arith, one_more))
              (download_from_refused resource rest (suc failures) u ranged unfilled all.1
                (ground arith) (omega arith)))
    ]

unranged_end :
    (file_size block_num : ℤ) (p : Subworker)
    → generate file_size block_num false ≡ p ∷ []
    → p.end ≡ not_supported_size
unfolding generate
unranged_end file_size block_num p made = ground arith

unranged_done :
    (p : Subworker) → p.progress ≡ pos 0 → p.end ≡ not_supported_size → is_complete p ≡ true
unranged_done p start last = ground (arith, start, last)

attempt_unranged :
    (resource : Resource) (a : Attempt) (t : Transfer)
    → resource.supports_range ≡ false
    → a.truncate ≡ none
    → t.part.end ≡ not_supported_size
    → attempt resource a 0 t ≡ (reset_part t, ends done)
unfolding attempt reset_part
attempt_unranged resource a t unranged truncates last =
    rw (unranged, truncates, attempt) (rw (unranged_done (reset_part t).part refl last))

-- A resource without ranges is not downloaded at all: its one part ends at -1, so the test for a
-- complete part passes at once, and if the file can be truncated the part succeeds with no request
-- sent and nothing written,
-- whatever size the file has and whatever the server would have sent.
pub download_part_without_ranges :
    (resource : Resource) (block_num : ℤ) (a : Attempt) (rest : List Attempt) (t : Transfer)
    → resource.supports_range ≡ false
    → generate resource.file_size block_num resource.supports_range ≡ t.part ∷ []
    → a.truncate ≡ none
    → ((download_part resource (a ∷ rest) t).1 ≡ done)
      × ((download_part resource (a ∷ rest) t).0.requests ≡ t.requests)
      × ((download_part resource (a ∷ rest) t).0.writes ≡ t.writes)
unfolding download_part reset_part
download_part_without_ranges resource block_num a rest t unranged made truncates =
    let last = unranged_end resource.file_size block_num t.part (rw unranged at made) in
    let e =
      download_from_ends resource a rest 0 t (reset_part t) done
        (attempt_unranged resource a t unranged truncates last) in
    (ap (λ x. x.1) e, ap (λ x. x.0.requests) e, ap (λ x. x.0.writes) e)
