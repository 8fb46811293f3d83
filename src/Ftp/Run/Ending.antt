-- ===== src/Ftp/Run/Ending.antt =====
-- How the download of a file ends.
use godown.Base.{
  ℕ, ◌≡◌, refl, sym, subst, Bool, true, false, not, ◌&&◌, Option, none, some, List, ◌⊎◌, inl, inr,
  arith, if◌then◌else◌, Bool-cases,
}
use godown.Base.Int.{ℤ, pos, ltb_ℤ, eq_ℤ, eq_of_parts}
use godown.Core.Output.{Error}
use godown.Ftp.Transfer.{End, returned, open_ended, Outcome, ends}
use godown.Ftp.Transfer.Counted.{IsCounted, ends-IsCounted, restart-IsCounted}
use godown.Ftp.Run.{
  Attempt, PartStat, absent, part, unreadable, Finish, Finished, stays, ends_with, move_to_output,
  finish, run_from, is_stale, with_cut, run, size_mismatch,
}
use godown.Ftp.Run.Counted.{try_all-IsCounted, ends_with-IsCounted}

-- The size of the partial file that is found.
abbrev pub found_size : PartStat → ℕ
found_size absent = 0
found_size (unreadable e) = 0
found_size (part n) = n

-- The bytes are counted; and a download that ends well has moved its file, with every byte where
-- the size is known.
pub record IsWhole (known : Bool) (size : ℤ) (n : ℕ) (r : Finished) : Type 0 where
  pub counted : IsCounted n r.outcome
  pub ending :
      ((e : Error) × (r.outcome.end ≡ returned (some e)))
      ⊎ (r.outcome.end ≡ open_ended)
      ⊎ ((r.outcome.end ≡ returned none)
          × (r.moved ≡ true)
          × ((known ≡ false) ⊎ (pos r.outcome.received ≡ size)))

failed-IsWhole :
    (known : Bool) (size : ℤ) (n : ℕ) (e : Error) (o : Outcome)
    → IsCounted n o
    → IsWhole known size n (stays (ends_with (some e) o))
failed-IsWhole known size n e o h = record {
  counted = ends_with-IsCounted n (some e) o h;
  ending = inl (e, refl);
}

pub on_fail :
    (known : Bool) (size : ℤ) (n : ℕ) (x : Option Error) (o : Outcome) (good : Finished)
    → IsCounted n o
    → IsWhole known size n good
    → IsWhole known size n (elim x [ some e ↦ stays (ends_with (some e) o) | none ↦ good ])
on_fail known size n none o good h k = k
on_fail known size n (some e) o good h k = failed-IsWhole known size n e o h

pub move-IsWhole :
    (known : Bool) (size : ℤ) (n : ℕ) (f : Finish) (o : Outcome) (moved : Finished)
    → IsCounted n o
    → IsWhole known size n moved
    → IsWhole known size n (move_to_output f o moved)
move-IsWhole known size n f o moved h k =
    on_fail known size n f.remove_error o _ h (on_fail known size n f.rename_error o moved h k)

pub stays-IsWhole :
    (known : Bool) (size : ℤ) (n : ℕ) (o : Outcome)
    → IsCounted n o
    → ((e : Error) × (o.end ≡ returned (some e))) ⊎ (o.end ≡ open_ended)
    → IsWhole known size n (stays o)
stays-IsWhole known size n o h (inl e) = record { counted = h; ending = inl e }
stays-IsWhole known size n o h (inr e) = record { counted = h; ending = inr (inl e) }

-- A size that is known is reached, or the file is not taken.
pub matched :
    (known : Bool) (size : ℤ) (received : ℕ)
    → (known && not (eq_ℤ (pos received) size)) ≡ false
    → (known ≡ false) ⊎ (pos received ≡ size)
matched false size received h = inl refl
matched true size received h = inr (eq_of_parts (pos received) size (ground (arith, h)))

pub sized-IsWhole :
    (known : Bool) (size : ℤ) (n : ℕ) (o : Outcome) (moved : Finished) (e : Error)
    → IsCounted n o
    → ((known ≡ false) ⊎ (pos o.received ≡ size) → IsWhole known size n moved)
    → IsWhole known size n
        (if known && not (eq_ℤ (pos o.received) size) then stays (ends_with (some e) o) else moved)
sized-IsWhole known size n o moved e h k =
    elim (Bool-cases (known && not (eq_ℤ (pos o.received) size))) [
      | inl wrong ↦
          subst
            (λ (b : Bool). IsWhole known size n (if b then stays (ends_with (some e) o) else moved))
            (sym wrong) (failed-IsWhole known size n e o h)
      | inr right ↦
          subst
            (λ (b : Bool). IsWhole known size n (if b then stays (ends_with (some e) o) else moved))
            (sym right) (k (matched known size o.received right))
    ]

pub on_ended :
    (known : Bool) (size : ℤ) (n : ℕ) (x : End) (o : Outcome) (good : Finished)
    → IsCounted n o
    → o.end ≡ x
    → (o.end ≡ returned none → IsWhole known size n good)
    → IsWhole known size n
        (elim x [ open_ended ↦ stays o | returned y ↦ elim y [ some e ↦ stays o | none ↦ good ] ])
on_ended known size n open_ended o good h e k = stays-IsWhole known size n o h (inr e)
on_ended known size n (returned (some x)) o good h e k = stays-IsWhole known size n o h (inl (x, e))
on_ended known size n (returned none) o good h e k = k e

pub on_test-IsWhole :
    (known : Bool) (size : ℤ) (n : ℕ) (b : Bool) (r r' : Finished)
    → IsWhole known size n r
    → IsWhole known size n r'
    → IsWhole known size n (if b then r else r')
on_test-IsWhole known size n true r r' h k = h
on_test-IsWhole known size n false r r' h k = k

pub cut-IsWhole :
    (known : Bool) (size : ℤ) (n : ℕ) (r : Finished)
    → IsWhole known size 0 r
    → IsWhole known size n (with_cut r)
cut-IsWhole known size n r h = record {
  counted = restart-IsCounted n true r.outcome h.counted;
  ending = h.ending;
}

module _ (total max_retries : ℤ) where
  abbrev is_known : Bool
  is_known = ltb_ℤ (pos 0) total

  finish-IsWhole :
      (f : Finish) (n : ℕ) (o : Outcome)
      → IsCounted n o
      → IsWhole is_known total n (finish total max_retries f o)
  unfolding finish
  finish-IsWhole f n o h = on_ended is_known total n o.end o _ h refl (λ ended.
      sized-IsWhole is_known total n o _ size_mismatch h (λ all.
        move-IsWhole is_known total n f o _ h (record {
          counted = record { counted = h.counted };
          ending = inr (inr (ended, refl, all));
        })))

  run_from-IsWhole :
      (attempts : List Attempt) (f : Finish) (n : ℕ)
      → IsWhole is_known total n (run_from total max_retries attempts f n)
  unfolding run_from
  run_from-IsWhole attempts f n =
      finish-IsWhole f n _
        (record { counted = (try_all-IsCounted total max_retries attempts 0 n).counted })

  -- From whatever partial file a run begins, and however its attempts end, the bytes that it counts
  -- lie in the partial file one behind the other, from its first on; and if it returns no error,
  -- the file was moved to its place, with all bytes where the size of the task is known.
  pub run-IsWhole :
      (partial : PartStat) (cut_error : Option Error) (attempts : List Attempt) (f : Finish)
      → IsWhole is_known total
          (found_size partial)
          (run total max_retries partial cut_error attempts f)
  unfolding run
  run-IsWhole (unreadable e) cut_error attempts f =
      stays-IsWhole is_known total 0 (ends 0 (returned (some e))) (ends-IsCounted 0 _)
        (inl (e, refl))
  run-IsWhole absent cut_error attempts f = run_from-IsWhole attempts f 0
  run-IsWhole (part n) cut_error attempts f =
      on_test-IsWhole is_known total n (is_stale total max_retries n) _ _
        (on_fail is_known total n cut_error (ends n open_ended) _ (ends-IsCounted n open_ended)
          (cut-IsWhole is_known total n _ (run_from-IsWhole attempts f 0)))
        (run_from-IsWhole attempts f n)
