-- ===== src/Bt/Storage/Transfers.antt =====
-- The loops of readAt and writeAt.
use godown.Base.{
  ℕ, zero, suc, ◌+◌, ◌-◌, ◌≤◌, ◌<◌, ◌≡◌, ◌≢◌, ◌∙◌, ap, subst, false, none, List, [], ◌∷◌, String,
  inl, inr, arith, ℕ_discrete,
}
use godown.Bt.Storage.{
  Extent, inside, gap, entry_at, Chunk, chunk, hole, Io, finished, after, min, after_read,
  read_chunk, write_chunk, read_at, write_at,
}
use godown.Bt.Storage.Extents.{
  Holds, Laid, end_from, NoFile, IsPlace, entry_at-IsPlace, NoFile-fewer, inside_facts, gap_facts,
  beyond_end, Place-cases,
}

-- The system does all of what it is asked.
abbrev pub well : ℕ → Io
well n = record {
  missing = false;
  open_error = none;
  count = n;
  io_error = none;
  close_error = none;
}

abbrev pub IsWell : (Chunk → Io) → Type 0
IsWell io = (path : String) (offset n : ℕ) → io (chunk path offset n) ≡ well n

-- The chunks are the n bytes from g on, one behind the other: each within one file, at the place
-- that the bytes have in it, or where there is no file.
pub data Tiles (files : List Extent) : ℕ → ℕ → List Chunk → Type 0 where
  tiled : {g n : ℕ} → n ≡ 0 → Tiles files g n []
  in_file :
      {f : Extent} {g n c : ℕ} {chunks : List Chunk}
      → Holds f files
      → f.offset ≤ g
      → g + c ≤ f.offset + f.length
      → 0 < c
      → c ≤ n
      → Tiles files (g + c) (n - c) chunks
      → Tiles files g n (chunk f.path (g - f.offset) c ∷ chunks)
  in_hole :
      {g n c : ℕ} {chunks : List Chunk}
      → NoFile files g c
      → 0 < c
      → c ≤ n
      → Tiles files (g + c) (n - c) chunks
      → Tiles files g n (hole c ∷ chunks)

module _ (io : Chunk → Io) (files : List Extent) where
  read_in_file :
      (fuel n g : ℕ) (f : Extent) (k : ℕ)
      → IsWell io
      → n ≢ 0
      → entry_at files g ≡ inside f k
      → read_at io (suc fuel) files n g
        ≡ after
            (chunk f.path (g - f.offset) (min n k))
            (min n k)
            (read_at io fuel files (n - min n k) (g + min n k))
  unfolding read_at read_chunk after_read
  read_in_file fuel n g f k is_well some_left e =
      ground (arith, is_well f.path (g - f.offset) (min n k))

  write_in_file :
      (fuel n g : ℕ) (f : Extent) (k : ℕ)
      → IsWell io
      → n ≢ 0
      → entry_at files g ≡ inside f k
      → write_at io (suc fuel) files n g
        ≡ after
            (chunk f.path (g - f.offset) (min n k))
            (min n k)
            (write_at io fuel files (n - min n k) (g + min n k))
  unfolding write_at write_chunk
  write_in_file fuel n g f k is_well some_left e =
      ground (arith, is_well f.path (g - f.offset) (min n k))

  read_in_hole :
      (fuel n g k : ℕ)
      → n ≢ 0
      → entry_at files g ≡ gap k
      → read_at io (suc fuel) files n g
        ≡ after (hole (min n k)) (min n k) (read_at io fuel files (n - min n k) (g + min n k))
  unfolding read_at
  read_in_hole fuel n g k some_left e = ground arith

  write_in_hole :
      (fuel n g k : ℕ)
      → n ≢ 0
      → entry_at files g ≡ gap k
      → write_at io (suc fuel) files n g
        ≡ after (hole (min n k)) (min n k) (write_at io fuel files (n - min n k) (g + min n k))
  unfolding write_at
  write_in_hole fuel n g k some_left e = ground arith

  -- What both loops come to, for n bytes from g on.
  pub record Agree (fuel n g : ℕ) : Type 0 where
    pub chunks : List Chunk
    pub read : read_at io fuel files n g ≡ record { count = n; end = finished; chunks = chunks }
    pub write : write_at io fuel files n g ≡ record { count = n; end = finished; chunks = chunks }
    pub tiles : Tiles files g n chunks

  nothing_left : (fuel n g : ℕ) → n ≡ 0 → Agree (suc fuel) n g
  unfolding read_at write_at
  nothing_left fuel n g h = record {
    chunks = [];
    read = ground arith;
    write = ground arith;
    tiles = tiled h;
  }

  -- One round, and the rest of the loop.
  after_chunk :
      (fuel n g c : ℕ) (part : Chunk)
      → c ≤ n
      → (rest : Agree fuel (n - c) (g + c))
      → read_at io (suc fuel) files n g ≡ after part c (read_at io fuel files (n - c) (g + c))
      → write_at io (suc fuel) files n g ≡ after part c (write_at io fuel files (n - c) (g + c))
      → Tiles files g n (part ∷ rest.chunks)
      → Agree (suc fuel) n g
  after_chunk fuel n g c part fits rest r w tiles =
      let whole : c + (n - c) ≡ n = omega arith in
      record {
        chunks = part ∷ rest.chunks;
        read =
            r
            ∙ ap (after part c) rest.read
            ∙ ap (λ m. record { count = m; end = finished; chunks = part ∷ rest.chunks }) whole;
        write =
            w
            ∙ ap (after part c) rest.write
            ∙ ap (λ m. record { count = m; end = finished; chunks = part ∷ rest.chunks }) whole;
        tiles = tiles;
      }

  min_le : (n k : ℕ) → (min n k ≤ n) × (min n k ≤ k)
  min_le n k = ground arith

  min_some : (n k : ℕ) → n ≢ 0 → 0 < k → 0 < min n k
  min_some n k some_left h = ground arith

  both_whole :
      (fuel n g : ℕ)
      → IsWell io
      → Laid 0 files
      → g + n ≤ end_from 0 files
      → n < fuel
      → Agree fuel n g
  both_whole zero n g is_well laid fits enough =
      let impossible : ⊥ = omega arith in elim impossible [ ]
  both_whole (suc fuel) n g is_well laid fits enough = elim (ℕ_discrete n 0) [
    | yes h ↦ nothing_left fuel n g h
    | no some_left ↦ elim (Place-cases (entry_at files g)) [
      | inl (f, k, e) ↦
          let place = inside_facts (subst (IsPlace files g) e (entry_at-IsPlace files 0 g laid)) in
          let c = min n k in
          let small = min_le n k in
          let some_now = min_some n k some_left place.3 in
          let rest = both_whole fuel (n - c) (g + c) is_well laid (omega arith) (omega arith) in
          after_chunk fuel n g c (chunk f.path (g - f.offset) c) small.0 rest
            (read_in_file fuel n g f k is_well some_left e)
            (write_in_file fuel n g f k is_well some_left e)
            (in_file place.0 place.1 (omega (arith, place.2, small.1)) some_now small.0 rest.tiles)
      | inr (inl (k, e)) ↦
          let place = gap_facts (subst (IsPlace files g) e (entry_at-IsPlace files 0 g laid)) in
          let c = min n k in
          let small = min_le n k in
          let some_now = min_some n k some_left place.1 in
          let rest = both_whole fuel (n - c) (g + c) is_well laid (omega arith) (omega arith) in
          after_chunk fuel n g c (hole c) small.0 rest (read_in_hole fuel n g k some_left e)
            (write_in_hole fuel n g k some_left e)
            (in_hole (NoFile-fewer files g k c small.1 place.0) some_now small.0 rest.tiles)
      | inr (inr e) ↦
          let past = beyond_end files 0 g laid (omega arith) e in
          let impossible : ⊥ = omega arith in elim impossible [ ]
    ]
  ]

  -- Where the system does what it is asked, a write and a read of n bytes within the torrent, whose
  -- files lie one behind the other, both transfer all n bytes within n + 1 rounds, and by the same
  -- chunks: each byte is read from the very place that it was written to, which is its place in
  -- the one file that holds it; bytes that no file holds are passed over.
  pub read_where_written :
      (n g : ℕ)
      → IsWell io
      → Laid 0 files
      → g + n ≤ end_from 0 files
      → (chunks : List Chunk) × (write_at io (suc n) files n g
          ≡ record { count = n; end = finished; chunks = chunks })
        × (read_at io (suc n) files n g ≡ record { count = n; end = finished; chunks = chunks })
        × Tiles files g n chunks
  read_where_written n g is_well laid fits =
      let both = both_whole (suc n) n g is_well laid fits (omega arith) in
      (both.chunks, both.write, both.read, both.tiles)
