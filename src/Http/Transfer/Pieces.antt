-- ===== src/Http/Transfer/Pieces.antt =====
-- What a copy writes: pieces that lie one behind the other.
use godown.Base.{ℕ, suc, ◌+◌, ◌≤◌, ◌≡◌, refl, ap, sym, subst, ◌∙◌, List, [], ◌∷◌, ◌++◌, arith}
use godown.Base.Int.{ℤ, pos, pos_part, neg_part, ◌+ℤ◌, +ℤ_parts}
use godown.Http.Transfer.{Transfer, advance}
use mathlib.Core.List.{append-nil, append_assoc}

-- Pieces that follow one another from one offset to another.
abbrev pub Consecutive : ℕ → List (ℤ × ℕ) → ℕ → Type 0
Consecutive a [] b = a ≡ b
Consecutive a ((offset, n) ∷ ws) b = (offset ≡ pos a) × Consecutive (a + n) ws b

pub Consecutive-append :
    (a b c : ℕ) (vs ws : List (ℤ × ℕ))
    → Consecutive a vs b
    → Consecutive b ws c
    → Consecutive a (vs ++ ws) c
Consecutive-append a b c [] ws v w = subst (λ k. Consecutive k ws c) (sym v) w
Consecutive-append a b c ((o, n) ∷ vs) ws v w = (v.0, Consecutive-append (a + n) b c vs ws v.1 w)

-- From the one transfer to the other the bytes from `p` on, up to `q`, were written and counted,
-- and none lies past `end`.
pub record Copied (end p q : ℕ) (t u : Transfer) : Type 0 where
  pub at : u.part.progress ≡ pos q
  pub same_end : u.part.end ≡ t.part.end
  pub grows : p ≤ q
  pub within : q ≤ suc end
  -- `received` grows by q - p.
  pub counted :
      pos_part u.received + neg_part t.received + p ≡ pos_part t.received + neg_part u.received + q
  pub pieces : List (ℤ × ℕ)
  pub written : u.writes ≡ t.writes ++ pieces
  pub follow : Consecutive p pieces q

pub Copied-refl :
    (end p : ℕ) (t : Transfer) → t.part.progress ≡ pos p → p ≤ suc end → Copied end p p t t
Copied-refl end p t at within = record {
  at = at;
  same_end = refl;
  grows = omega arith;
  within = within;
  counted = omega arith;
  pieces = [];
  written = sym (append-nil t.writes);
  follow = refl;
}

pub Copied-trans :
    (end p q r : ℕ) (t u v : Transfer)
    → Copied end p q t u
    → Copied end q r u v
    → Copied end p r t v
Copied-trans end p q r t u v c d = record {
  at = d.at;
  same_end = d.same_end ∙ c.same_end;
  grows = omega (arith, c.grows, d.grows);
  within = d.within;
  counted = omega (arith, c.counted, d.counted);
  pieces = c.pieces ++ d.pieces;
  written =
      d.written ∙ ap (λ ws. ws ++ d.pieces) c.written ∙ append_assoc t.writes c.pieces d.pieces;
  follow = Consecutive-append p q r c.pieces d.pieces c.follow d.follow;
}

pos_sum : (p n : ℕ) → pos p +ℤ pos n ≡ pos (p + n)
unfolding ◌+ℤ◌
pos_sum p n = ground arith

pub advance-Copied :
    (end p n : ℕ) (t : Transfer)
    → t.part.progress ≡ pos p
    → p + n ≤ suc end
    → Copied end p (p + n) t (advance n t)
unfolding advance
advance-Copied end p n t at within = record {
  at = rw at (pos_sum p n);
  same_end = refl;
  grows = omega arith;
  within = within;
  counted = omega (arith, +ℤ_parts t.received (pos n));
  pieces = (t.part.progress, n) ∷ [];
  written = refl;
  follow = (at, refl);
}
