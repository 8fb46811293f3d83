-- ===== src/Plugins/Call/Checked.antt =====
-- What holds of an answer that a call accepts.
use godown.Base.{
  ℕ, suc, ◌+◌, ◌-◌, ◌≤◌, ◌≡◌, false, none, List, [], ◌∷◌, String, zero, length, length-append, take,
  inl, inr, arith, eq_iff,
}
use godown.Base.Int.{pos, eq_of_parts}
use godown.Core.Output.{Result, ok}
use godown.Core.Output.Moves.{Result-cases}
use godown.Plugins.Manifest.{Manifest}
use godown.Plugins.Call.{
  Params, Request, Response, Exchange, max_message_bytes, max_stderr_bytes, write_limited,
  write_all, read_line, accept_response, accept_line, call,
}

length-take_le : (n : ℕ) (l : List ℕ) → length (take n l) ≤ n
length-take_le zero l = omega arith
length-take_le (suc n) [] = omega arith
length-take_le (suc n) (x ∷ l) = omega (arith, length-take_le n l)

write_limited_le :
    (p buffer : List ℕ)
    → length buffer ≤ max_stderr_bytes
    → length (write_limited p buffer).0 ≤ max_stderr_bytes
unfolding write_limited
write_limited_le p buffer h = ground (
  arith,
  length-append buffer (take (max_stderr_bytes - length buffer) p),
  length-take_le (max_stderr_bytes - length buffer) p,
)

-- However much a plugin writes to its standard error, no more than 64 KiB of it are kept.
pub write_all_le :
    (ps : List (List ℕ)) (buffer : List ℕ)
    → length buffer ≤ max_stderr_bytes
    → length (write_all ps buffer) ≤ max_stderr_bytes
unfolding write_all
write_all_le [] buffer h = h
write_all_le (p ∷ ps) buffer h =
    write_all_le ps (write_limited p buffer).0 (write_limited_le p buffer h)

-- A response that is accepted: of the version of the protocol, under the id of the request, with no
-- error, and with a result that decodes.
pub record IsAccepted {A : Type 0} (decode : List ℕ → Result A) (id : ℕ) (r : Response) (a : A)
    : Type 0 where
  pub versioned : r.jsonrpc ≡ "2.0"
  pub numbered : r.id ≡ pos id
  pub faultless : r.error ≡ none
  pub decoded : decode r.result ≡ ok a

module _ {A : Type 0} (parse_response : List ℕ → Result Response) (decode : List ℕ → Result A) where
  response-IsAccepted :
      (id : ℕ) (r : Response) (a : A)
      → accept_response parse_response decode id r ≡ inl a
      → IsAccepted decode id r a
  unfolding accept_response
  response-IsAccepted id r a h = record {
    versioned = ground (arith, eq_iff r.jsonrpc "2.0");
    numbered = ground (arith, eq_of_parts r.id (pos id));
    faultless = ground arith;
    decoded = ground arith;
  }

  abbrev pub line_of : Exchange → List ℕ
  line_of x = read_line (max_message_bytes + 1) x.stdout

  -- An exchange that ended well, with a line that is no longer than a message may be.
  pub record EndedWell (x : Exchange) : Type 0 where
    pub read : x.read_error ≡ none
    pub exited : x.exit_error ≡ none
    pub timely : x.expired ≡ false
    pub short : length (line_of x) ≤ max_message_bytes

  line-IsAccepted :
      (m : Manifest) (id : ℕ) (x : Exchange) (a : A)
      → accept_line parse_response decode m id x ≡ inl a
      → EndedWell x
        × ((r : Response) × (parse_response (line_of x) ≡ ok r) × IsAccepted decode id r a)
  unfolding accept_line
  line-IsAccepted m id x a h = elim (Result-cases (parse_response (line_of x))) [
    | inr (e, broken) ↦ ground arith
    | inl (r, read) ↦ (
      record {
        read = ground arith;
        exited = ground arith;
        timely = ground arith;
        short = ground arith;
      },
      (r, read, response-IsAccepted id r a (ground arith)),
    )
  ]

  module _ (m : Manifest) (method : String) (params : Params) (process : Request → Exchange)
      (requests : ℕ) where
    abbrev pub exchange_of : Exchange
    exchange_of = process (record { id = suc requests; method = method; params = params })

    -- A call gives an answer only if the process was started and asked, ended by itself in time
    -- and with no error, and wrote a line of at most 4 MiB that is a response: of JSON-RPC 2.0,
    -- under the number of this very request, with no error and with a result that decodes to the
    -- answer. The request is counted.
    pub call_checked :
        (a : A)
        → (call parse_response decode m method params process requests).1 ≡ inl a
        → ((call parse_response decode m method params process requests).0 ≡ suc requests)
          × (exchange_of.start_error ≡ none)
          × (exchange_of.write_error ≡ none)
          × EndedWell exchange_of
          × ((r : Response) × (parse_response (line_of exchange_of) ≡ ok r)
              × IsAccepted decode (suc requests) r a)
    unfolding call
    call_checked a h =
        let accepted = line-IsAccepted m (suc requests) exchange_of a (ground arith) in
        (ground arith, ground arith, ground arith, accepted.0, accepted.1)
