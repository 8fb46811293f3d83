-- ===== src/Http/Transfer/Ranges.antt =====
-- A ranged copy stays in its part.
use godown.Base.{
  ℕ, suc, ◌+◌, ◌-◌, ◌≤◌, ◌<◌, ◌≡◌, ◌≢◌, refl, ap, sym, subst, ◌∙◌, ◌⊎◌, inl, inr, true, ◌&&◌,
  Option, none, some, List, [], ◌∷◌, arith, ltb, Bool-cases, Option-cases, if◌then◌else◌,
}
use godown.Base.Int.{pos, ◌+ℤ◌, ◌-ℤ◌, ltb_ℤ}
use godown.Core.Output.{canceled}
use godown.Http.Transfer.{
  Read, ReadEnd, more, eof, broken, Transfer, Outcome, done, failed, panicked, Resource, advance,
  copy_chunk, copy_round, copy_loop, copy_part, response_error, Response, chunk_of, end_round,
  open_ended, validate_part_complete, chunk_length, is_bounded,
}
use godown.Http.Transfer.Pieces.{Copied, Copied-refl, Copied-trans, advance-Copied}
use Prim.Native.Nat.{min}

remaining : (end p : ℕ) → p ≤ end → pos end -ℤ pos p +ℤ pos 1 ≡ pos (suc end - p)
unfolding ◌-ℤ◌ ◌+ℤ◌
remaining end p h = ground arith

-- What one round of the copy leaves: how far it came, and when it goes on or ends well.
record Round (end p : ℕ) (t u : Transfer) (o : Option Outcome) : Type 0 where
  reached : ℕ
  copied : Copied end p reached t u
  goes_on : o ≡ none → reached ≤ end
  ends_well : o ≡ some done → reached ≡ suc end
  sound : o ≢ some panicked

-- What a whole copy leaves.
pub record Kept (end p : ℕ) (t : Transfer) (x : Transfer × Outcome) : Type 0 where
  pub reached : ℕ
  pub copied : Copied end p reached t x.0
  pub complete : (x.1 ≢ done) ⊎ (reached ≡ suc end)
  pub sound : x.1 ≢ panicked

pub Kept-after :
    (end p : ℕ) (t u : Transfer) (q : ℕ) (x : Transfer × Outcome)
    → Copied end p q t u
    → Kept end q u x
    → Kept end p t x
Kept-after end p t u q x c k = record {
  reached = k.reached;
  copied = Copied-trans end p q k.reached t u x.0 c k.copied;
  complete = k.complete;
  sound = k.sound;
}

is_done : (o : Outcome) → (o ≢ done) ⊎ (o ≡ done)
is_done done = inr refl
is_done (failed e) = inl (λ q. cc)
is_done panicked = inl (λ q. cc)
is_done open_ended = inl (λ q. cc)

filled :
    (end p : ℕ) (t u : Transfer) (o : Outcome) {x : Option Outcome}
    → (round : Round end p t u x) → x ≡ some o
    → (o ≢ done) ⊎ (round.reached ≡ suc end)
filled end p t u o round e = elim (is_done o) [
  | inl other ↦ inl other
  | inr ok ↦ inr (round.ends_well (e ∙ ap some ok))
]

abbrev RoundOf : ℕ → ℕ → Transfer → Transfer × Option Outcome → Type 0
RoundOf end p t x = Round end p t x.0 x.1

module _ (resource : Resource) (ranged : resource.supports_range ≡ true) (end : ℕ)
    (big : 0 < end) where
  module _ (p : ℕ) (t : Transfer) (at : t.part.progress ≡ pos p) (last : t.part.end ≡ pos end)
      (inside : p ≤ end) where
    stays : (o : Option Outcome) → o ≢ some done → o ≢ some panicked → Round end p t t o
    stays o not_done not_panicked = record {
      reached = p;
      copied = Copied-refl end p t at (omega arith);
      goes_on = λ e. inside;
      ends_well = λ e. absurd (not_done e);
      sound = not_panicked;
    }

    clipped : (n : ℕ) → chunk_length resource t.part n ≡ some (min n (suc end - p))
    clipped n = rw (ranged, last, at) (ground (arith, remaining end p inside))

    -- The pieces end at the end of the part at the latest.
    advanced : (n : ℕ) → Copied end p (p + min n (suc end - p)) t (advance (min n (suc end - p)) t)
    advanced n = advance-Copied end p (min n (suc end - p)) t at (omega arith)

    passes_end :
        (n : ℕ)
        → (is_bounded resource t.part
            && ltb_ℤ t.part.end (advance (min n (suc end - p)) t).part.progress)
          ≡ ltb end (p + min n (suc end - p))
    passes_end n = rw ((advanced n).at, ranged, last) (ground arith)

    chunk_written :
        (r : Read)
        → r.limiter ≡ none
        → r.write ≡ none
        → copy_chunk resource r t ≡ (
          advance (min r.size (suc end - p)) t,
          if ltb end (p + min r.size (suc end - p)) then some done else none,
        )
    unfolding copy_chunk
    chunk_written r l w = rw (clipped r.size, l, w, copy_chunk) (rw (passes_end r.size))

    written-Round :
        (n : ℕ)
        → Round end p t
            (advance (min n (suc end - p)) t)
            (if ltb end (p + min n (suc end - p)) then some done else none)
    written-Round n = record {
      reached = p + min n (suc end - p);
      copied = advanced n;
      goes_on = λ e. ground arith;
      ends_well = λ e. ground arith;
      sound = λ e. ground arith;
    }

    copy_chunk-Round : (r : Read) → RoundOf end p t (copy_chunk resource r t)
    unfolding copy_chunk
    copy_chunk-Round r = elim (Option-cases r.limiter) [
      | inr (e, l) ↦
          rw (clipped r.size, l, copy_chunk) (stays (some (failed e)) (λ q. cc) (λ q. cc))
      | inl l ↦ elim (Option-cases r.write) [
        | inr (e, w) ↦
            rw (clipped r.size, l, w, copy_chunk) (stays (some (failed e)) (λ q. cc) (λ q. cc))
        | inl w ↦ subst (RoundOf end p t) (sym (chunk_written r l w)) (written-Round r.size)
      ]
    ]

    chunk_of-Round : (r : Read) → RoundOf end p t (chunk_of resource r t)
    chunk_of-Round r = elim (Bool-cases (ltb 0 r.size)) [
      | inl some_bytes ↦ rw some_bytes (copy_chunk-Round r)
      | inr no_bytes ↦ rw no_bytes (stays none (λ q. cc) (λ q. cc))
    ]

  -- The end of the body: the part is complete, or that is an error.
  validate-Round :
      (p : ℕ) (t u : Transfer)
      → t.part.end ≡ pos end
      → Round end p t u none
      → Round end p t u (some (validate_part_complete resource u.part))
  unfolding validate_part_complete
  validate-Round p t u last round = record {
    reached = round.reached;
    copied = round.copied;
    goes_on = λ e. cc;
    ends_well = λ e. ground (arith, ranged, last, round.goes_on refl);
    sound = λ e. ground arith;
  }

  end_round-Round :
      (p : ℕ) (t : Transfer) (e : ReadEnd) (x : Transfer × Option Outcome)
      → t.part.end ≡ pos end
      → RoundOf end p t x
      → RoundOf end p t (end_round resource e x)
  end_round-Round p t more (u, none) last round = round
  end_round-Round p t eof (u, none) last round = validate-Round p t u last round
  end_round-Round p t (broken e) (u, none) last round = record {
    reached = round.reached;
    copied = round.copied;
    goes_on = λ q. cc;
    ends_well = λ q. cc;
    sound = λ q. cc;
  }
  end_round-Round p t e (u, some o) last round = round

  -- One round that is not cancelled, and one that is.
  copy_round-Round :
      (p : ℕ) (t : Transfer) (r : Read)
      → t.part.progress ≡ pos p
      → t.part.end ≡ pos end
      → p ≤ end
      → RoundOf end p t (copy_round resource r t)
  unfolding copy_round
  copy_round-Round p t r at last inside = elim (Bool-cases r.cancelled) [
    | inl c ↦ rw c (stays p t at last inside (some (failed canceled)) (λ q. cc) (λ q. cc))
    | inr c ↦ rw c (
        end_round-Round p t r.end (chunk_of resource r t) last
          (chunk_of-Round p t at last inside r))
  ]

  copy_loop-Kept :
      (rs : List Read) (p : ℕ) (t : Transfer)
      → t.part.progress ≡ pos p
      → t.part.end ≡ pos end
      → p ≤ end
      → Kept end p t (copy_loop resource rs t)
  unfolding copy_loop
  copy_loop-Kept [] p t at last inside = record {
    reached = p;
    copied = Copied-refl end p t at (omega arith);
    complete = inl (λ e. cc);
    sound = λ e. cc;
  }
  copy_loop-Kept (r ∷ rs) p t at last inside =
      let u = (copy_round resource r t).0 in
      let round = copy_round-Round p t r at last inside in
      elim (Option-cases (copy_round resource r t).1) [
        | inr (o, e) ↦
            rw (e, copy_loop)
              (record {
                reached = round.reached;
                copied = round.copied;
                complete = filled end p t u o round e;
                sound = λ q. round.sound (e ∙ ap some q);
              })
        | inl e ↦
            rw (e, copy_loop)
              (Kept-after end p t u round.reached (copy_loop resource rs u) round.copied (
                copy_loop-Kept rs round.reached u round.copied.at (round.copied.same_end ∙ last)
                  (round.goes_on e)))
      ]

-- Whatever the server sends and wherever the copy stops, a copy into a part with a known end, from
-- a place in the part, writes the bytes from that place on, one piece behind the other, and none
-- behind the end; `received` grows by as much; the part's progress stands behind the last byte
-- written; if the copy ends well, the part is full; and the code does not panic.
pub copy_part-Kept :
    (resource : Resource) (response : Response) (end p : ℕ) (t : Transfer)
    → resource.supports_range ≡ true
    → 0 < end
    → t.part.progress ≡ pos p
    → t.part.end ≡ pos end
    → p ≤ end
    → Kept end p t (copy_part resource response t)
unfolding copy_part
copy_part-Kept resource response end p t ranged big at last inside =
    elim (Option-cases (response_error resource t.part response)) [
      | inr (x, e) ↦
          rw (e, copy_part)
            (record {
              reached = p;
              copied = Copied-refl end p t at (omega arith);
              complete = inl (λ q. cc);
              sound = λ q. cc;
            })
      | inl e ↦
          rw (e, copy_part)
            (copy_loop-Kept resource ranged end big response.body p t at last inside)
    ]
