-- ===== src/Update/Version/Order.antt =====
-- IsNewer is a strict order of the versions that can be read.
use godown.Base.{
  ◌≡◌, refl, sym, ap, ◌∙◌, ◌⊎◌, inl, inr, Bool, true, false, String, arith, Bool-cases,
}
use godown.Core.Output.{Result, ok, err}
use godown.Update.Version.{Texts, Version, parse_version, newer, compare_parsed, is_newer}

newer_trans : (a b c : Version) → newer a b ≡ true → newer b c ≡ true → newer a c ≡ true
unfolding newer
newer_trans a b c h k = ground arith

newer_asymmetric : (a b : Version) → newer a b ≡ true → newer b a ≡ false
unfolding newer
newer_asymmetric a b h = ground arith

newer_total : (a b : Version) → newer a b ≡ false → newer b a ≡ false → a ≡ b
unfolding newer
newer_total a b h k = ground arith

ok_injective {ℓ} : {A : Type ℓ} (x y : A) → ok x ≡ ok y → x ≡ y
ok_injective x y e = cc

-- A comparison with an answer is one of two versions that can be read.
record IsCompared (left right : Result Version) (b : Bool) : Type 0 where
  current : Version
  candidate : Version
  left_reads : left ≡ ok current
  right_reads : right ≡ ok candidate
  answer : newer current candidate ≡ b

compared :
    (left right : Result Version) (b : Bool)
    → compare_parsed left right ≡ ok b
    → IsCompared left right b
compared (err e) right b h = absurd (cc)
compared (ok u) (err e) b h = absurd (cc)
compared (ok u) (ok v) b h = record {
  current = u;
  candidate = v;
  left_reads = refl;
  right_reads = refl;
  answer = ok_injective (newer u v) b h;
}

-- If a second version is newer than a first and a third newer than the second, the third is newer
-- than the first.
pub is_newer_trans :
    (texts : Texts) (a b c : String)
    → is_newer texts a b ≡ ok true
    → is_newer texts b c ≡ ok true
    → is_newer texts a c ≡ ok true
unfolding is_newer
is_newer_trans texts a b c h k =
    let p = compared (parse_version texts a) (parse_version texts b) true h in
    let q = compared (parse_version texts b) (parse_version texts c) true k in
    let same : p.candidate ≡ q.current =
      ok_injective p.candidate q.current (sym p.right_reads ∙ q.left_reads) in
    rw (p.left_reads, q.right_reads)
      (ap ok (newer_trans p.current p.candidate q.candidate p.answer (rw same q.answer)))

-- Of two texts that can be read as versions, either the second is newer and the first is not, or the
-- first is newer and the second is not, or they are read as the same version and neither is newer.
pub is_newer_decides :
    (texts : Texts) (a b : String) (u v : Version)
    → parse_version texts a ≡ ok u
    → parse_version texts b ≡ ok v
    → ((is_newer texts a b ≡ ok true) × (is_newer texts b a ≡ ok false))
      ⊎ (((is_newer texts a b ≡ ok false) × (is_newer texts b a ≡ ok true))
          ⊎ ((u ≡ v) × (is_newer texts a b ≡ ok false) × (is_newer texts b a ≡ ok false)))
unfolding is_newer
is_newer_decides texts a b u v reads_a reads_b =
    rw (reads_a, reads_b)
      (elim (Bool-cases (newer u v)) [
        | inl n ↦ inl (ap ok n, ap ok (newer_asymmetric u v n))
        | inr n ↦ elim (Bool-cases (newer v u)) [
          | inl m ↦ inr (inl (ap ok n, ap ok m))
          | inr m ↦ inr (inr (newer_total u v n m, ap ok n, ap ok m))
        ]
      ])
