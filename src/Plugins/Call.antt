-- ===== src/Plugins/Call.antt =====
-- internal/pluginhost/manager.go: one call of a plugin, from its start to its answer. What the
-- process and its pipes do is an argument.
pub mod Checked
use godown.Base.{
  ℕ, suc, ◌+◌, ◌-◌, ◌^◌, ◌*◌, Bool, true, false, not, ◌&&◌, ◌||◌, Option, none, some, List, [], ◌∷◌,
  ◌++◌, String, ltb, leb, length, take, ◌==◌, str_eq, zero, ◌⊎◌, inl, inr, if◌then◌else◌,
}
use godown.Base.Int.{ℤ, pos, eq_ℤ}
use godown.Core.Output.{Error, Result, ok, err}
use godown.Plugins.Manifest.{
  Manifest, Problem, pipe_failed, start_failed, write_failed, close_failed, timed_out, read_failed,
  too_long, process_exited, bad_json, bad_envelope, rpc_error, no_result, bad_result, ParseParams,
  timeout,
}

-- The parameters of the three methods.
pub data Params : Type 0 where
  no_params : Params
  match_params : String → Params
  parse_params : ParseParams → Params

pub record Request : Type 0 where
  pub id : ℕ
  pub method : String
  pub params : Params

-- `result` is the raw JSON, [] where there is none.
pub record Response : Type 0 where
  pub jsonrpc : String
  pub id : ℤ
  pub error : Option (ℤ × String)
  pub result : List ℕ

-- What a process does in answer to a request: the errors of its pipes and of its start, what it
-- writes and whether the reading of it ends with an error other than EOF, how it ends, and
-- whether the time was over by then.
pub record Exchange : Type 0 where
  pub pipe_error : Option Error
  pub start_error : Option Error
  pub write_error : Option Error
  pub close_error : Option Error
  pub stdout : List ℕ
  pub read_error : Option Error
  pub stderr : List (List ℕ)  -- the writes to it
  pub exit_error : Option Error
  pub expired : Bool

abbrev pub max_message_bytes : ℕ
max_message_bytes = 4 * 2 ^ 20

abbrev pub max_stderr_bytes : ℕ
max_stderr_bytes = 64 * 2 ^ 10

-- limitedBuffer.Write: what the buffer then holds, and the number of bytes that it says it wrote.
unfoldable pub write_limited : List ℕ → List ℕ → List ℕ × ℕ
write_limited p buffer =
    let remaining = max_stderr_bytes - length buffer in
    (if ltb 0 remaining then buffer ++ take remaining p else buffer, length p)

unfoldable pub write_all : List (List ℕ) → List ℕ → List ℕ
write_all [] buffer = buffer
write_all (p ∷ ps) buffer = write_all ps (write_limited p buffer).0

-- ReadBytes('\n') of a reader that gives no more than `limit` bytes.
unfoldable pub read_line : ℕ → List ℕ → List ℕ
read_line zero bytes = []
read_line (suc limit) [] = []
read_line (suc limit) (c ∷ bytes) =
    let rest = read_line limit bytes in if c == 10 then c ∷ [] else c ∷ rest

module _ {ℓ} {A : Type ℓ} (parse_response : List ℕ → Result Response)
    (decode : List ℕ → Result A) where
  abbrev pub decoded_result : Result A → A ⊎ Problem
  decoded_result (ok a) = inl a
  decoded_result (err e) = inr (bad_result e)

  -- The checks of a response.
  unfoldable pub accept_response : ℕ → Response → A ⊎ Problem
  accept_response id r =
      if not (str_eq r.jsonrpc "2.0") || not (eq_ℤ r.id (pos id))
      then inr bad_envelope
      else elim r.error [
        | some (code, message) ↦ inr (rpc_error code message)
        | none ↦ if length r.result == 0 then inr no_result else decoded_result (decode r.result)
      ]

  -- What was read, once the process has ended.
  unfoldable pub accept_line : Manifest → ℕ → Exchange → A ⊎ Problem
  accept_line m id x =
      let line = read_line (max_message_bytes + 1) x.stdout in
      if x.expired then inr (timed_out (timeout m)) else elim x.read_error [
        | some e ↦ inr (read_failed e)
        | none ↦ if ltb max_message_bytes (length line) then inr too_long else elim x.exit_error [
          | some e ↦ inr (process_exited e (write_all x.stderr []))
          | none ↦ elim (parse_response line) [
            | err e ↦ inr (bad_json e (write_all x.stderr []))
            | ok r ↦ accept_response id r
          ]
        ]
      ]

  -- The number of requests made so far, which the call counts up once the process is started,
  -- with the answer.
  unfoldable pub call : Manifest → String → Params → (Request → Exchange) → ℕ → ℕ × (A ⊎ Problem)
  call m method params process requests =
      let id = suc requests in
      let x = process (record { id = id; method = method; params = params }) in
      elim x.pipe_error [
        | some e ↦ (requests, inr (pipe_failed e))
        | none ↦ elim x.start_error [
          | some e ↦ (requests, inr (start_failed e))
          | none ↦ elim x.write_error [
            | some e ↦ (id, inr (write_failed e))
            | none ↦ elim x.close_error [
              | some e ↦ (id, inr (close_failed e))
              | none ↦ (id, accept_line m id x)
            ]
          ]
        ]
      ]
