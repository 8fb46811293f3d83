-- ===== src/Http/Download/Filling.antt =====
-- A part that is downloaded is full.
use godown.Base.{
  ℕ, suc, ◌≤◌, ◌<◌, ◌≡◌, ◌≢◌, refl, sym, ap, subst, ◌∙◌, ◌⊎◌, inl, inr, true, false, Option, List,
  [], ◌∷◌, arith, Bool-cases, Option-cases,
}
use godown.Base.Int.{ℤ, pos, ltb_ℤ}
use godown.Core.Output.{Error}
use godown.Core.Output.Moves.{Result-cases}
use godown.Http.Transfer.{
  Transfer, Outcome, done, failed, panicked, open_ended, Resource, copy_part,
}
use godown.Http.Transfer.Pieces.{Copied, Copied-refl}
use godown.Http.Transfer.Ranges.{Kept, Kept-after, copy_part-Kept}
use godown.Http.Download.{
  Attempt, Next, ends, again, is_complete, retry, after_copy, send_request, attempt,
  update_retry_count, download_from, download_part,
}
use godown.Http.Download.Attempts.{asked, download_from_ends, download_from_again}

-- What one try leaves.
record Tried (end p : ℕ) (t : Transfer) (x : Transfer × Next) : Type 0 where
  reached : ℕ
  copied : Copied end p reached t x.0
  complete : (x.1 ≢ ends done) ⊎ (reached ≡ suc end)
  sound : x.1 ≢ ends panicked

retry_fails :
    (a : Attempt) (e : Error) (count : Option ℕ)
    → (retry a e count ≢ ends done) × (retry a e count ≢ ends panicked)
retry_fails a e count = (λ q. ground arith, λ q. ground arith)

-- The request changes nothing that a copy is measured by.
asked-Copied :
    (resource : Resource) (end p q : ℕ) (t u : Transfer)
    → Copied end p q (asked resource t) u
    → Copied end p q t u
asked-Copied resource end p q t u c = record {
  at = c.at;
  same_end = c.same_end;
  grows = c.grows;
  within = c.within;
  counted = c.counted;
  pieces = c.pieces;
  written = c.written;
  follow = c.follow;
}

unchanged :
    (end p : ℕ) (t : Transfer) (n : Next)
    → t.part.progress ≡ pos p
    → p ≤ suc end
    → n ≢ ends done
    → n ≢ ends panicked
    → Tried end p t (t, n)
unchanged end p t n at within a b = record {
  reached = p;
  copied = Copied-refl end p t at within;
  complete = inl a;
  sound = b;
}

Next-cases : (n : Next) → ((o : Outcome) × (n ≡ ends o)) ⊎ ((count : ℕ) × (n ≡ again count))
Next-cases (ends o) = inl (o, refl)
Next-cases (again count) = inr (count, refl)

-- A try that ends the download.
ended :
    (end p : ℕ) (t u : Transfer) (o : Outcome) {n : Next}
    → Tried end p t (u, n)
    → n ≡ ends o
    → Kept end p t (u, o)
ended end p t u o tried e = record {
  reached = tried.reached;
  copied = tried.copied;
  complete = elim tried.complete [
    | inl other ↦ inl (λ q. other (e ∙ ap ends q))
    | inr full ↦ inr full
  ];
  sound = λ q. tried.sound (e ∙ ap ends q);
}

module _ (resource : Resource) (ranged : resource.supports_range ≡ true) (end : ℕ)
    (big : 0 < end) where
  after_copy-Tried :
      (p : ℕ) (t : Transfer) (a : Attempt) (failures : ℕ) (before : ℤ) (x : Transfer × Outcome)
      → Kept end p (asked resource t) x
      → Tried end p t (after_copy resource a failures before x)
  after_copy-Tried p t a failures before (u, failed e) k =
      let fails =
        retry_fails a e
          (update_retry_count failures resource.max_retries (ltb_ℤ before u.part.progress)) in
      record {
        reached = k.reached;
        copied = asked-Copied resource end p k.reached t u k.copied;
        complete = inl fails.0;
        sound = fails.1;
      }
  after_copy-Tried p t a failures before (u, done) k = record {
    reached = k.reached;
    copied = asked-Copied resource end p k.reached t u k.copied;
    complete = elim k.complete [ inl other ↦ inl (λ q. other refl) | inr full ↦ inr full ];
    sound = λ q. cc;
  }
  after_copy-Tried p t a failures before (u, panicked) k = absurd (k.sound refl)
  after_copy-Tried p t a failures before (u, open_ended) k = record {
    reached = k.reached;
    copied = asked-Copied resource end p k.reached t u k.copied;
    complete = inl (λ q. cc);
    sound = λ q. cc;
  }

  send_request-Tried :
      (a : Attempt) (failures p : ℕ) (t : Transfer)
      → t.part.progress ≡ pos p
      → t.part.end ≡ pos end
      → p ≤ end
      → Tried end p t (send_request resource a failures t)
  unfolding send_request
  send_request-Tried a failures p t at last inside = elim (Option-cases a.bad_url) [
    | inr (e, u) ↦
        rw (u, send_request)
          (unchanged end p t (ends (failed e)) at (omega arith) (λ q. cc) (λ q. cc))
    | inl u ↦ elim (Result-cases a.reply) [
      | inr (e, r) ↦
          let fails = retry_fails a e (update_retry_count failures resource.max_retries false) in
          rw (u, r, send_request)
            (record {
              reached = p;
              copied =
                  asked-Copied resource end p p t (asked resource t)
                    (Copied-refl end p (asked resource t) at (omega arith));
              complete = inl fails.0;
              sound = fails.1;
            })
      | inl (response, r) ↦
          rw (u, r, send_request)
            (after_copy-Tried p t a failures t.part.progress
              (copy_part resource response (asked resource t))
              (copy_part-Kept resource response end p (asked resource t) ranged big at last inside))
    ]
  ]

  attempt_full :
      (a : Attempt) (failures : ℕ) (t : Transfer)
      → is_complete t.part ≡ true
      → attempt resource a failures t ≡ (t, ends done)
  unfolding attempt
  attempt_full a failures t full = ground (arith, ranged)

  attempt_sends :
      (a : Attempt) (failures : ℕ) (t : Transfer)
      → is_complete t.part ≡ false
      → attempt resource a failures t ≡ send_request resource a failures t
  unfolding attempt
  attempt_sends a failures t lacks = ground (arith, ranged)

  attempt-Tried :
      (a : Attempt) (failures p : ℕ) (t : Transfer)
      → t.part.progress ≡ pos p
      → t.part.end ≡ pos end
      → p ≤ suc end
      → Tried end p t (attempt resource a failures t)
  attempt-Tried a failures p t at last within = elim (Bool-cases (is_complete t.part)) [
    | inl full ↦ subst (Tried end p t) (sym (attempt_full a failures t full)) (record {
      reached = p;
      copied = Copied-refl end p t at within;
      complete = inr (ground (arith, at, last));
      sound = λ q. cc;
    })
    | inr lacks ↦
        subst (Tried end p t) (sym (attempt_sends a failures t lacks))
          (send_request-Tried a failures p t at last (ground (arith, at, last)))
  ]

  download_from-Kept :
      (attempts : List Attempt) (failures p : ℕ) (t : Transfer)
      → t.part.progress ≡ pos p
      → t.part.end ≡ pos end
      → p ≤ suc end
      → Kept end p t (download_from resource attempts failures t)
  unfolding download_from
  download_from-Kept [] failures p t at last within = record {
    reached = p;
    copied = Copied-refl end p t at within;
    complete = inl (λ q. cc);
    sound = λ q. cc;
  }
  download_from-Kept (a ∷ rest) failures p t at last within =
      let u = (attempt resource a failures t).0 in
      let tried = attempt-Tried a failures p t at last within in
      elim (Next-cases (attempt resource a failures t).1) [
        | inl (o, e) ↦
            subst (Kept end p t)
              (sym (download_from_ends resource a rest failures t u o (ap (λ n. (u, n)) e)))
              (ended end p t u o tried e)
        | inr (count, e) ↦
            subst (Kept end p t)
              (sym (download_from_again resource a rest failures t u count (ap (λ n. (u, n)) e)))
              (Kept-after end p t u tried.reached (download_from resource rest count u) tried.copied
                (download_from-Kept rest count tried.reached u tried.copied.at
                  (tried.copied.same_end ∙ last) tried.copied.within))
      ]

-- Whatever the server and the disk do in any number of tries, a download of a part with a known end,
-- from a place in the part, writes the bytes from that place on, one piece behind the other and none
-- behind the end; where a try fails, the next goes on behind the last byte written; and if the
-- download ends well, every byte of the part has been written, and once.
pub download_part-Kept :
    (resource : Resource) (attempts : List Attempt) (end p : ℕ) (t : Transfer)
    → resource.supports_range ≡ true
    → 0 < end
    → t.part.progress ≡ pos p
    → t.part.end ≡ pos end
    → p ≤ suc end
    → Kept end p t (download_part resource attempts t)
unfolding download_part
download_part-Kept resource attempts end p t ranged big at last within =
    download_from-Kept resource ranged end big attempts 0 p t at last within
