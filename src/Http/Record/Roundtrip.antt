-- ===== src/Http/Record/Roundtrip.antt =====
-- A record that was written is read back as it was.
use godown.Base.{
  ℕ, zero, suc, ◌*◌, ◌/◌, ◌%◌, ◌^◌, ◌<◌, ◌≡◌, refl, ap, ◌∙◌, true, some, List, [], ◌∷◌, arith,
  length, ◌==◌, false,
}
use godown.Base.Int.{ℤ, pos, negsuc}
use native.Mathlib.Nat.{pow-suc}
use godown.Http.Segments.{Subworker}
use godown.Http.Record.{
  to_u64, to_i64, put_bytes, get_bytes, put_i64, encode, decode, non_empty, restore, write_record,
}

-- The range of an int64.
abbrev pub IsI64 : ℤ → Type 0
IsI64 (pos n) = n < 2 ^ 63
IsI64 (negsuc n) = n < 2 ^ 63

abbrev pub AllI64 : List Subworker → Type 0
AllI64 [] = Unit {0}
AllI64 (p ∷ ps) = IsI64 p.start × IsI64 p.progress × IsI64 p.end × AllI64 ps

get_bytes-put_bytes : (k u : ℕ) → u < 256 ^ k → get_bytes (put_bytes k u) ≡ u
unfolding get_bytes put_bytes
get_bytes-put_bytes zero u h = omega arith
get_bytes-put_bytes (suc k) u h =
    omega (arith, pow-suc 256 k, get_bytes-put_bytes k (u / 256) (omega (arith, pow-suc 256 k)))

to_i64-to_u64 : (x : ℤ) → IsI64 x → to_i64 (to_u64 x) ≡ x
to_i64-to_u64 (pos n) h = ground arith
to_i64-to_u64 (negsuc n) h = ground arith

to_u64_bound : (x : ℤ) → to_u64 x < 2 ^ 64
to_u64_bound (pos n) = omega arith
to_u64_bound (negsuc n) = omega arith

get_put : (x : ℤ) → IsI64 x → to_i64 (get_bytes (put_i64 x)) ≡ x
get_put x h = ap to_i64 (get_bytes-put_bytes 8 (to_u64 x) (to_u64_bound x)) ∙ to_i64-to_u64 x h

length-encode : (ps : List Subworker) → length (encode ps) ≡ 24 * length ps
unfolding encode
length-encode [] = refl
length-encode (p ∷ ps) = omega (arith, length-encode ps)

decode-encode : (ps : List Subworker) → AllI64 ps → decode (length ps) (encode ps) ≡ ps
unfolding decode encode
decode-encode [] h = refl
decode-encode (p ∷ ps) h =
    cc (get_put p.start h.0, get_put p.progress h.1, get_put p.end h.2, decode-encode ps h.3)

whole_records :
    (ps : List Subworker)
    → ((length (encode ps) % 24 == 0) ≡ true) × (length (encode ps) / 24 ≡ length ps)
whole_records ps = ground (arith, length-encode ps)

restore_decoded :
    (bytes : List ℕ) (ps : List Subworker)
    → (length bytes % 24 == 0) ≡ true
    → decode (length bytes / 24) bytes ≡ ps
    → restore (some bytes) ≡ non_empty ps
unfolding restore
restore_decoded bytes ps whole e = ground arith

-- The record of the parts of a download, of which there is at least one, is read back as it was
-- written, if each number in it is an int64.
pub restore-write_record :
    (p : Subworker) (ps : List Subworker)
    → AllI64 (p ∷ ps)
    → restore (some (write_record (p ∷ ps))) ≡ (p ∷ ps, true)
restore-write_record p ps h =
    let parts : List Subworker = p ∷ ps in
    let whole = whole_records parts in
    restore_decoded (encode parts) parts whole.0 (rw whole.1 (decode-encode parts h))

-- A record whose length is no number of whole records is not used.
pub restore_torn : (bytes : List ℕ) → 0 < length bytes % 24 → restore (some bytes) ≡ ([], false)
unfolding restore
restore_torn bytes h = ground arith
