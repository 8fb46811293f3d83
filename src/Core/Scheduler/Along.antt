-- ===== src/Core/Scheduler/Along.antt =====
-- The entries that occupy a slot can be counted along the order of the tasks.
use godown.Base.{
  ℕ, suc, ◌+◌, ◌≤◌, ◌≡◌, refl, Bool, true, false, not, ◌&&◌, none, some, List, [], ◌∷◌, String,
  Dict, arith, eq_iff, str_eq, lookup, has, mem, count, Distinct, if◌then◌else◌,
}
use godown.Core.Scheduler.{Run, Scheduler, count_running}
use godown.Core.Scheduler.Counting.{live_in_slot}
use godown.Core.Scheduler.Invariant.{IsKept}

-- The keys of the entries that pass a test.
abbrev count_keys : (String → Bool) → Dict Run → ℕ
count_keys q [] = 0
count_keys q ((k, r) ∷ rs) = let rest = count_keys q rs in if q k then suc rest else rest

abbrev without : String → (String → Bool) → String → Bool
without o q k = q k && not (str_eq k o)

count-without_le :
    (o : String) (q : String → Bool) (ids : List String) → count (without o q) ids ≤ count q ids
count-without_le o q [] = omega arith
count-without_le o q (k ∷ ids) = ground (arith, count-without_le o q ids)

count_keys-without_absent :
    (o : String) (q : String → Bool) (rs : Dict Run)
    → has o rs ≡ false
    → count_keys q rs ≡ count_keys (without o q) rs
count_keys-without_absent o q [] h = refl
count_keys-without_absent o q ((k, r) ∷ rs) h = ground (arith, count_keys-without_absent o q rs)

-- Entries with distinct keys: one key stands once.
count_keys-without :
    (o : String) (q : String → Bool) (rs : Dict Run)
    → Distinct rs
    → count_keys q rs ≤ (if q o then 1 else 0) + count_keys (without o q) rs
count_keys-without o q [] d = omega arith
count_keys-without o q ((k, r) ∷ rs) d =
    ground (arith, eq_iff k o, count_keys-without_absent o q rs, count_keys-without o q rs d.1)

count_keys-none :
    (q : String → Bool) (rs : Dict Run)
    → ((k : String) → has k rs ≡ true → q k ≡ false)
    → count_keys q rs ≡ 0
count_keys-none q [] h = refl
count_keys-none q ((k, r) ∷ rs) h =
    ground (arith, h k, eq_iff k k, count_keys-none q rs (λ j p. h j (ground (arith, eq_iff k j))))

-- Distinct keys that are all listed are no more than the list has.
count_keys-le-count :
    (q : String → Bool) (rs : Dict Run) (ids : List String)
    → Distinct rs
    → ((k : String) → has k rs ≡ true → q k ≡ true → mem k ids ≡ true)
    → count_keys q rs ≤ count q ids
count_keys-le-count q rs [] d h = omega (arith, count_keys-none q rs (λ k p. ground (arith, h k p)))
count_keys-le-count q rs (o ∷ ids) d h = ground (
  arith,
  count_keys-without o q rs d,
  count-without_le o q ids,
  count_keys-le-count (without o q) rs ids d
      (λ k p r. ground (arith, eq_iff k o, eq_iff o k, h k p)),
)

-- An id with an entry and a live task that uses a slot.
abbrev pub occupies : Scheduler → String → Bool
occupies s id =
    has id s.running && elim (lookup id s.tasks) [ none ↦ false | some t ↦ live_in_slot t ]

count_running-le-count_keys :
    (s : Scheduler) (rs : Dict Run)
    → ((k : String) → has k rs ≡ true → has k s.running ≡ true)
    → count_running live_in_slot s.tasks rs ≤ count_keys (occupies s) rs
unfolding count_running
count_running-le-count_keys s [] h = omega arith
count_running-le-count_keys s ((k, r) ∷ rs) h = ground (
  arith,
  eq_iff k k,
  h k,
  count_running-le-count_keys s rs (λ j p. h j (ground (arith, eq_iff k j))),
)

occupies_listed :
    (s : Scheduler) → IsKept s → (k : String) → occupies s k ≡ true → mem k s.order ≡ true
occupies_listed s v k e = v.listed k (ground arith)

-- So the entries can be counted along the order.
pub count_running-le-order :
    (s : Scheduler)
    → IsKept s
    → count_running live_in_slot s.tasks s.running ≤ count (occupies s) s.order
count_running-le-order s v = omega (
  arith,
  count_running-le-count_keys s s.running (λ k h. h),
  count_keys-le-count (occupies s) s.running s.order v.distinct (λ k p e. occupies_listed s v k e),
)
