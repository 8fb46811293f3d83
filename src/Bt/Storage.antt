-- ===== src/Bt/Storage.antt =====
-- internal/download/bt/resume_storage.go: the bytes of a torrent, which lie one after the other in
-- its files. An offset in the torrent is a number; what the system does with a part of a file is
-- an argument.
pub mod Extents
pub mod Transfers
pub mod Pieces
pub mod Present
use godown.Base.{
  ℕ, zero, suc, ◌+◌, ◌-◌, ◌≡◌, Bool, true, false, not, ◌&&◌, ◌||◌, Option, none, some, List, [],
  ◌∷◌, ◌++◌, String, ltb, leb, ◌==◌, if◌then◌else◌,
}
use godown.Base.Int.{ℤ, pos, negsuc}
use godown.Core.Output.{Error}

-- resumeFileEntry.
pub record Extent : Type 0 where
  pub path : String
  pub offset : ℕ
  pub length : ℕ

-- What lies at an offset: a file with the bytes up to its end, no file for a number of bytes, or
-- nothing any more.
pub data Place : Type 0 where
  inside : Extent → ℕ → Place
  gap : ℕ → Place
  beyond : Place

unfoldable pub entry_at : List Extent → ℕ → Place
entry_at [] g = beyond
entry_at (f ∷ files) g =
    let rest = entry_at files g in
    if ltb g f.offset
    then gap (f.offset - g)
    else if ltb g (f.offset + f.length)
    then inside f (f.offset + f.length - g)
    else rest

-- A part of a transfer: `chunk path offset count`, or bytes that no file holds.
pub data Chunk : Type 0 where
  chunk : String → ℕ → ℕ → Chunk
  hole : ℕ → Chunk

-- What the system does with a chunk. An EOF of a read is no `io_error`.
pub record Io : Type 0 where
  pub missing : Bool  -- the open gives os.ErrNotExist
  pub open_error : Option Error
  pub count : ℕ
  pub io_error : Option Error
  pub close_error : Option Error

pub data End : Type 0 where
  finished eof short_write unfinished invalid : End
  failed : List Error → End

-- The bytes that were transferred, how it ended, and the chunks.
pub record Transfer : Type 0 where
  pub count : ℕ
  pub end : End
  pub chunks : List Chunk

abbrev pub stop : End → Transfer
stop end = record { count = 0; end = end; chunks = [] }

abbrev pub after : Chunk → ℕ → Transfer → Transfer
after c n t = record t { count = n + t.count; chunks = c ∷ t.chunks }

abbrev pub min : ℕ → ℕ → ℕ
min a b = if ltb a b then a else b

abbrev joined : Option Error → Option Error → List Error
joined none none = []
joined (some e) none = e ∷ []
joined none (some e) = e ∷ []
joined (some e) (some e') = e ∷ e' ∷ []

-- Behind the read of a chunk of some bytes: the read goes on, or it ends.
unfoldable pub after_read : Io → Chunk → ℕ → Transfer → Transfer
after_read x c wanted rest = elim x.io_error [
  | some e ↦ after c x.count (stop (failed (joined (some e) x.close_error)))
  | none ↦ elim x.close_error [
    | some e ↦ after c x.count (stop (failed (e ∷ [])))
    | none ↦ if x.count == wanted then after c x.count rest else after c x.count (stop eof)
  ]
]

unfoldable pub read_chunk : Io → Chunk → ℕ → Transfer → Transfer
read_chunk x c wanted rest =
    if x.missing
    then stop eof
    else elim x.open_error [ some e ↦ stop (failed (e ∷ [])) | none ↦ after_read x c wanted rest ]

-- A missing file is created by a write.
unfoldable pub write_chunk : Io → Chunk → ℕ → Transfer → Transfer
write_chunk x c wanted rest = elim x.open_error [
  | some e ↦ stop (failed (e ∷ []))
  | none ↦ elim (joined x.io_error x.close_error) [
    | e ∷ es ↦ after c x.count (stop (failed (e ∷ es)))
    | [] ↦ if x.count == wanted then after c x.count rest else after c x.count (stop short_write)
  ]
]

module _ (io : Chunk → Io) where
  -- The loop of readAt for n bytes from an offset on. Behind a whole chunk the number of bytes
  -- that are left and the offset are those behind it.
  unfoldable pub read_at : ℕ → List Extent → ℕ → ℕ → Transfer
  read_at zero files n g = stop unfinished
  read_at (suc fuel) files n g = if n == 0 then stop finished else elim (entry_at files g) [
    | beyond ↦ stop eof
    | gap k ↦ let c = min n k in after (hole c) c (read_at fuel files (n - c) (g + c))
    | inside f k ↦
        let c = min n k in
        let part = chunk f.path (g - f.offset) c in
        read_chunk (io part) part c (read_at fuel files (n - c) (g + c))
  ]

  unfoldable pub write_at : ℕ → List Extent → ℕ → ℕ → Transfer
  write_at zero files n g = stop unfinished
  write_at (suc fuel) files n g = if n == 0 then stop finished else elim (entry_at files g) [
    | beyond ↦ stop short_write
    | gap k ↦ let c = min n k in after (hole c) c (write_at fuel files (n - c) (g + c))
    | inside f k ↦
        let c = min n k in
        let part = chunk f.path (g - f.offset) c in
        write_chunk (io part) part c (write_at fuel files (n - c) (g + c))
  ]

-- A piece: its offset in the torrent and its length.
pub record Piece : Type 0 where
  pub offset : ℕ
  pub length : ℕ

-- Whether a read that gave no error gave too few bytes: io.EOF.
abbrev short_read : ℕ → Transfer → Transfer
short_read n t = elim t.end [
  | finished ↦ if ltb t.count n then record t { end = eof } else t
  | _ ↦ t
]

module _ (io : Chunk → Io) (files : List Extent) (p : Piece) where
  -- ReadAt and WriteAt of a piece, for a buffer of n bytes.
  unfoldable pub piece_read_at : ℕ → ℤ → Transfer
  piece_read_at n (negsuc offset) = stop invalid
  piece_read_at n (pos offset) =
      if leb p.length offset
      then stop eof
      else let wanted = min n (p.length - offset) in
        short_read wanted (read_at io (suc wanted) files wanted (p.offset + offset))

  unfoldable pub piece_write_at : ℕ → ℤ → Transfer
  piece_write_at n (negsuc offset) = stop invalid
  piece_write_at n (pos offset) =
      if ltb p.length (offset + n)
      then stop invalid
      else write_at io (suc n) files n (p.offset + offset)

-- What os.Stat says of a file: an error, or whether it is a regular file, and its size.
pub data Stat : Type 0 where
  no_stat : Error → Stat
  stat : Bool → ℕ → Stat

abbrev max : ℕ → ℕ → ℕ
max a b = if ltb a b then b else a

-- checkExtent: an error, or io.ErrUnexpectedEOF, or none.
unfoldable pub check_extent : (String → Stat) → List Extent → ℕ → ℕ → Option End
check_extent stats [] offset length = none
check_extent stats (f ∷ files) offset length =
    let start = max offset f.offset in
    let stop_at = min (offset + length) (f.offset + f.length) in
    let rest = check_extent stats files offset length in
    if leb stop_at start then rest else elim (stats f.path) [
      | no_stat e ↦ some (failed (e ∷ []))
      | stat regular size ↦ if not regular || ltb size (stop_at - f.offset) then some eof else rest
    ]
