-- ===== src/Ftp/Transfer/Counted.antt =====
-- That a transfer counts the bytes that lie in the partial file.
use godown.Base.{
  ℕ, ◌+◌, ◌≡◌, refl, sym, subst, Bool, true, false, Option, none, some, List, [], ◌∷◌, ltb, ◌==◌,
  inl, inr, arith, if◌then◌else◌, Bool-cases,
}
use godown.Base.Int.{ℤ}
use godown.Core.Output.{Error}
use godown.Ftp.Transfer.{
  ReadEnd, more, eof, broken, Read, Step, restart, wrote, End, returned, open_ended, Outcome, ends,
  behind, Mark, is_due, read_on, with_report, next_mark, write_on, read_loop, Opening, read_from,
  retrieve, resume, transfer,
}

-- How many bytes lie in the file from its first on, without a gap, behind the steps.
unfoldable pub replay : ℕ → List Step → Option ℕ
replay n [] = some n
replay n (restart cut ∷ steps) = replay 0 steps
replay n (wrote offset k ∷ steps) =
    let rest = replay (n + k) steps in if offset == n then rest else none

pub record IsCounted (n : ℕ) (o : Outcome) : Type 0 where
  pub counted : replay n o.steps ≡ some o.received

pub ends-IsCounted : (n : ℕ) (end : End) → IsCounted n (ends n end)
unfolding replay
ends-IsCounted n end = record { counted = refl }

-- One branch each.
pub on_error :
    (n : ℕ) (x : Option Error) (good : Outcome) (bad : Error → Outcome)
    → IsCounted n good
    → ((e : Error) → IsCounted n (bad e))
    → IsCounted n (elim x [ some e ↦ bad e | none ↦ good ])
on_error n none good bad h k = h
on_error n (some e) good bad h k = k e

pub on_test :
    (n : ℕ) (b : Bool) (o o' : Outcome)
    → IsCounted n o
    → IsCounted n o'
    → IsCounted n (if b then o else o')
on_test n true o o' h k = h
on_test n false o o' h k = k

on_end :
    (n : ℕ) (x : ReadEnd) (o o' : Outcome) (bad : Error → Outcome)
    → IsCounted n o
    → ((e : Error) → IsCounted n (bad e))
    → IsCounted n o'
    → IsCounted n (elim x [ more ↦ o | broken e ↦ bad e | eof ↦ o' ])
on_end n more o o' bad h k l = h
on_end n eof o o' bad h k l = l
on_end n (broken e) o o' bad h k l = k e

wrote-IsCounted : (n k : ℕ) (o : Outcome) → IsCounted (n + k) o → IsCounted n (behind (wrote n k) o)
unfolding replay
wrote-IsCounted n k o h = record { counted = ground (arith, h.counted) }

pub restart-IsCounted :
    (n : ℕ) (cut : Bool) (o : Outcome) → IsCounted 0 o → IsCounted n (behind (restart cut) o)
unfolding replay
restart-IsCounted n cut o h = record { counted = h.counted }

module _ (total : ℤ) where
  read_on-IsCounted :
      (r : Read) (n : ℕ) (rest : Outcome) → IsCounted n rest → IsCounted n (read_on total r n rest)
  unfolding read_on
  read_on-IsCounted r n rest h =
      on_end n r.read_end rest (ends n _) (λ e. ends n (returned (some e))) h
        (λ e. ends-IsCounted n (returned (some e))) (ends-IsCounted n _)

  report-IsCounted :
      (due : Bool) (m : Mark) (now n k : ℕ) (o : Outcome)
      → IsCounted n o
      → IsCounted n (with_report total due m now k o)
  report-IsCounted true m now n k o h = record { counted = h.counted }
  report-IsCounted false m now n k o h = h

  write_on-IsCounted :
      (r : Read) (n : ℕ) (m : Mark) (rest : Outcome)
      → IsCounted (n + r.written) rest
      → IsCounted n (write_on total r n m rest)
  unfolding write_on
  write_on-IsCounted r n m rest h =
      let k = n + r.written in
      on_error n r.limit_error _ (λ e. ends n (returned (some e)))
        (wrote-IsCounted n r.written _ (
          on_error k r.write_error _ (λ e. ends k (returned (some e)))
            (on_test k (r.written == r.bytes) _ _
              (report-IsCounted (is_due m r.now) m r.now k k rest h) (ends-IsCounted k _))
            (λ e. ends-IsCounted k (returned (some e)))))
        (λ e. ends-IsCounted n (returned (some e)))

  read_loop-IsCounted :
      (reads : List Read) (n : ℕ) (m : Mark) → IsCounted n (read_loop total reads n m)
  unfolding read_loop
  read_loop-IsCounted [] n m = ends-IsCounted n open_ended
  read_loop-IsCounted (r ∷ reads) n m =
      let k = n + r.written in
      on_error n r.context_error _ (λ e. ends n (returned (some e)))
        (on_test n (ltb 0 r.bytes) _ _
          (write_on-IsCounted r n m _ (
            read_on-IsCounted r k _
              (read_loop-IsCounted reads k (next_mark total (is_due m r.now) m r.now k))))
          (read_on-IsCounted r n _ (read_loop-IsCounted reads n m)))
        (λ e. ends-IsCounted n (returned (some e)))

  read_from-IsCounted :
      (o : Opening) (reads : List Read) (n : ℕ) → IsCounted n (read_from total o reads n)
  unfolding read_from
  read_from-IsCounted o reads n =
      on_error n o.file_error _ (λ e. ends n (returned (some e)))
        (read_loop-IsCounted reads n (record { at = o.now; bytes = n }))
        (λ e. ends-IsCounted n (returned (some e)))

  retrieve-IsCounted : (o : Opening) (reads : List Read) → IsCounted 0 (retrieve total o reads)
  unfolding retrieve
  retrieve-IsCounted o reads =
      on_error 0 o.start_error _ (λ e. ends 0 (returned (some e))) (read_from-IsCounted o reads 0)
        (λ e. ends-IsCounted 0 (returned (some e)))

  resume-IsCounted :
      (o : Opening) (reads : List Read) (n : ℕ) → IsCounted n (resume total o reads n)
  unfolding resume
  resume-IsCounted o reads n = on_error n o.resume_error _ _ (read_from-IsCounted o reads n) (λ e.
      on_error n o.cut_error _ (λ c. behind (restart false) (ends 0 (returned (some c))))
        (restart-IsCounted n true _ (retrieve-IsCounted o reads))
        (λ c. restart-IsCounted n false _ (ends-IsCounted 0 (returned (some c)))))

  -- With no byte before, the stream starts at the first.
  none_before :
      (o : Opening) (reads : List Read) (n : ℕ)
      → ltb 0 n ≡ false
      → IsCounted n (retrieve total o reads)
  none_before o reads n h =
      subst (λ (k : ℕ). IsCounted k (retrieve total o reads)) (ground (arith, h))
        (retrieve-IsCounted o reads)

  pub transfer-IsCounted :
      (o : Opening) (reads : List Read) (n : ℕ) → IsCounted n (transfer total o reads n)
  unfolding transfer
  transfer-IsCounted o reads n =
      on_error n o.dial_error _ (λ e. ends n (returned (some e)))
        (elim (Bool-cases (ltb 0 n)) [
          | inl some_bytes ↦
              subst
                (λ (b : Bool).
                  IsCounted n (if b then resume total o reads n else retrieve total o reads))
                (sym some_bytes) (resume-IsCounted o reads n)
          | inr none_yet ↦
              subst
                (λ (b : Bool).
                  IsCounted n (if b then resume total o reads n else retrieve total o reads))
                (sym none_yet) (none_before o reads n none_yet)
        ])
        (λ e. ends-IsCounted n (returned (some e)))
