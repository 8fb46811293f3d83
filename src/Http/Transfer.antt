-- ===== src/Http/Transfer.antt =====
-- internal/download/http/worker.go: the copy of a response into a part. What the server and the disk
-- do comes as a list of reads of the body; a copy whose list has ended is `open_ended`.
pub mod Pieces
pub mod Ranges
use godown.Base.{
  ℕ, zero, suc, ◌+◌, Bool, true, false, not, ◌&&◌, ◌||◌, Option, none, some, List, [], ◌∷◌, ◌++◌,
  String, ltb, ◌==◌, if◌then◌else◌,
}
use godown.Base.Int.{ℤ, pos, negsuc, pos_part, ◌+ℤ◌, ◌-ℤ◌, ltb_ℤ, eq_ℤ}
use godown.Core.Output.{Error, message, canceled, Result, ok, err}
use godown.Http.Segments.{Subworker, unknown_size}
use Prim.Native.Nat.{min}

pub data ReadEnd : Type 0 where
  more eof : ReadEnd
  broken : Error → ReadEnd

-- One round of the copy: what the body, the limiter, the disk and the context give. `size` is at
-- most the 64 KiB of the buffer.
pub record Read : Type 0 where
  pub size : ℕ
  pub end : ReadEnd
  pub cancelled : Bool
  pub limiter : Option Error
  pub write : Option Error

-- The Range header of a request.
pub data Request : Type 0 where
  whole : Request
  from : ℤ → Request
  between : ℤ → ℤ → Request

-- A part in transfer, with the counter of all received bytes, the requests sent, and the pieces
-- written into the file, oldest first: each an offset and a length. A write that failed is not there.
pub record Transfer : Type 0 where
  pub part : Subworker
  pub received : ℤ
  pub requests : List Request
  pub writes : List (ℤ × ℕ)

pub data Outcome : Type 0 where
  done : Outcome
  failed : Error → Outcome
  panicked : Outcome  -- a slice bound out of range
  open_ended : Outcome

-- What the stage says of the resource.
pub record Resource : Type 0 where
  pub supports_range : Bool
  pub file_size : ℤ
  pub max_retries : ℤ

-- chunk[:remaining]; a negative bound panics.
abbrev pub clip : ℕ → ℤ → Option ℕ
clip size (pos n) = some (min size n)
clip size (negsuc n) = none

abbrev pub is_bounded : Resource → Subworker → Bool
is_bounded resource p = resource.supports_range && ltb_ℤ (pos 0) p.end

abbrev pub chunk_length : Resource → Subworker → ℕ → Option ℕ
chunk_length resource p size =
    if is_bounded resource p then clip size (p.end -ℤ p.progress +ℤ pos 1) else some size

unfoldable pub advance : ℕ → Transfer → Transfer
advance n t = record t {
  part = record t.part { progress = t.part.progress +ℤ pos n };
  received = t.received +ℤ pos n;
  writes = t.writes ++ (t.part.progress, n) ∷ [];
}

-- The body of `if n > 0`: how the copy ends there, if it does.
unfoldable pub copy_chunk : Resource → Read → Transfer → Transfer × Option Outcome
copy_chunk resource r t = elim (chunk_length resource t.part r.size) [
  | none ↦ (t, some panicked)
  | some n ↦ elim r.limiter [
    | some e ↦ (t, some (failed e))
    | none ↦ elim r.write [
      | some e ↦ (t, some (failed e))
      | none ↦ (
        advance n t,
        if is_bounded resource t.part && ltb_ℤ t.part.end (advance n t).part.progress
            then some done
            else none,
      )
    ]
  ]
]

abbrev pub incomplete : Error
incomplete = message "incomplete"

unfoldable pub validate_part_complete : Resource → Subworker → Outcome
validate_part_complete resource p =
    if resource.supports_range
    then (if eq_ℤ p.end unknown_size || ltb_ℤ p.end p.progress then done else failed incomplete)
    else (if ltb_ℤ (pos 0) resource.file_size && ltb_ℤ p.progress resource.file_size
        then failed incomplete
        else done)

abbrev pub chunk_of : Resource → Read → Transfer → Transfer × Option Outcome
chunk_of resource r t = if ltb 0 r.size then copy_chunk resource r t else (t, none)

-- What follows the chunk of a round: `none` is the next round.
abbrev pub end_round : Resource → ReadEnd → Transfer × Option Outcome → Transfer × Option Outcome
end_round resource e (t, some o) = (t, some o)
end_round resource more (t, none) = (t, none)
end_round resource eof (t, none) = (t, some (validate_part_complete resource t.part))
end_round resource (broken e) (t, none) = (t, some (failed e))

unfoldable pub copy_round : Resource → Read → Transfer → Transfer × Option Outcome
unfolding copy_chunk
copy_round resource r t =
    if r.cancelled
    then (t, some (failed canceled))
    else end_round resource r.end (chunk_of resource r t)

unfoldable pub copy_loop : Resource → List Read → Transfer → Transfer × Outcome
copy_loop resource [] t = (t, open_ended)
copy_loop resource (r ∷ rs) t =
    let t' = (copy_round resource r t).0 in
    elim (copy_round resource r t).1 [ some o ↦ (t', o) | none ↦ copy_loop resource rs t' ]

-- A response: its status, the offsets of its Content-Range, and its body.
pub record Response : Type 0 where
  pub status : ℕ
  pub content_range : Result (ℤ × ℤ)
  pub body : List Read

-- The checks that copyPart makes before it copies.
abbrev pub range_error : Subworker → Result (ℤ × ℤ) → Option Error
range_error p (err e) = some e
range_error p (ok (start, end)) =
    if not (eq_ℤ start p.progress)
    then some (message "range response starts elsewhere")
    else if not (ltb_ℤ end (pos 0)) && ltb_ℤ end start
    then some (message "range response ends before it starts")
    else none

unfoldable pub response_error : Resource → Subworker → Response → Option Error
response_error resource p response =
    if resource.supports_range
    then (if response.status == 206
        then range_error p response.content_range
        else some (message "range request rejected"))
    else (if response.status == 200 then none else some (message "server returned"))

unfoldable pub copy_part : Resource → Response → Transfer → Transfer × Outcome
unfolding response_error copy_loop
copy_part resource response t = elim (response_error resource t.part response) [
  | some e ↦ (t, failed e)
  | none ↦ copy_loop resource response.body t
]
