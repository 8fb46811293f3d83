-- ===== src/Http/Record.antt =====
-- internal/download/http/worker.go: the record of the parts beside the file, 24 bytes for each part,
-- and binary.LittleEndian on 64-bit words.
pub mod Roundtrip
use godown.Base.{
  ℕ, zero, suc, ◌+◌, ◌-◌, ◌*◌, ◌/◌, ◌%◌, ◌^◌, Bool, true, false, Option, none, some, List, [], ◌∷◌,
  ◌++◌, length, take, drop, ltb, ◌==◌, if◌then◌else◌,
}
use godown.Base.Int.{ℤ, pos, negsuc}
use godown.Http.Segments.{Subworker}

abbrev pub u64_mod : ℕ
u64_mod = 2 ^ 64

-- uint64(x) of an int64, and back.
abbrev pub to_u64 : ℤ → ℕ
to_u64 (pos n) = n % u64_mod
to_u64 (negsuc n) = u64_mod - 1 - n % u64_mod

abbrev pub to_i64 : ℕ → ℤ
to_i64 u = if ltb u (2 ^ 63) then pos u else negsuc (u64_mod - 1 - u)

-- The low bytes of a word, lowest first.
unfoldable pub put_bytes : ℕ → ℕ → List ℕ
put_bytes zero u = []
put_bytes (suc k) u = (u % 256) ∷ put_bytes k (u / 256)

unfoldable pub get_bytes : List ℕ → ℕ
get_bytes [] = 0
get_bytes (b ∷ bs) = b + 256 * get_bytes bs

abbrev pub put_i64 : ℤ → List ℕ
put_i64 x = put_bytes 8 (to_u64 x)

-- The word at an offset.
abbrev pub get_i64 : ℕ → List ℕ → ℤ
get_i64 offset bytes = to_i64 (get_bytes (take 8 (drop offset bytes)))

unfoldable pub encode : List Subworker → List ℕ
unfolding put_bytes
encode [] = []
encode (p ∷ ps) = put_i64 p.start ++ (put_i64 p.progress ++ (put_i64 p.end ++ encode ps))

-- The loop over the records, by their number.
unfoldable pub decode : ℕ → List ℕ → List Subworker
unfolding get_bytes
decode zero bytes = []
decode (suc n) bytes =
    record { start = get_i64 0 bytes; progress = get_i64 8 bytes; end = get_i64 16 bytes }
    ∷ decode n (drop 24 bytes)

abbrev pub non_empty : List Subworker → List Subworker × Bool
non_empty [] = ([], false)
non_empty (p ∷ ps) = (p ∷ ps, true)

-- `none`: the record cannot be read.
unfoldable pub restore : Option (List ℕ) → List Subworker × Bool
unfolding decode
restore none = ([], false)
restore (some bytes) =
    if length bytes % 24 == 0 then non_empty (decode (length bytes / 24) bytes) else ([], false)

-- What writeRecord puts into the file.
abbrev pub write_record : List Subworker → List ℕ
write_record parts = encode parts
