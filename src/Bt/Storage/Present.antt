-- ===== src/Bt/Storage/Present.antt =====
-- The files that a complete piece has.
use godown.Base.{
  ℕ, ◌+◌, ◌-◌, ◌≤◌, ◌<◌, ◌≡◌, refl, Bool, true, false, Option, none, some, List, [], ◌∷◌, ◌++◌,
  String, leb, ◌⊎◌, inl, inr, arith, Bool-cases, Option-cases,
}
use godown.Core.Output.{Error}
use godown.Bt.Storage.{Extent, Piece, Stat, no_stat, stat, min, max, check_extent}
use godown.Bt.Storage.Extents.{Holds, first_file, later_file}
use godown.Bt.Storage.Pieces.{
  Completion, join, is_empty, completion, Sync, sync_file, sync_each, sync_extent, mark_complete,
}

-- A byte of the torrent within a piece and within a file.
pub record IsByte (p : Piece) (f : Extent) (b : ℕ) : Type 0 where
  pub from_piece : p.offset ≤ b
  pub to_piece : b < p.offset + p.length
  pub from_file : f.offset ≤ b
  pub to_file : b < f.offset + f.length

-- The file is a regular file that has the byte.
abbrev pub HasByte : (String → Stat) → Extent → ℕ → Type 0
HasByte stats f b = (size : ℕ) × (stats f.path ≡ stat true size) × (b - f.offset < size)

overlaps :
    (p : Piece) (f : Extent) (b : ℕ)
    → IsByte p f b
    → leb (min (p.offset + p.length) (f.offset + f.length)) (max p.offset f.offset) ≡ false
overlaps p f b byte = ground (arith, byte.from_piece, byte.to_piece, byte.from_file, byte.to_file)

Stat-cases : (s : Stat) → ((e : Error) × (s ≡ no_stat e)) ⊎ ((r : Bool) × (n : ℕ) × (s ≡ stat r n))
Stat-cases (no_stat e) = inl (e, refl)
Stat-cases (stat r n) = inr (r, n, refl)

module _ (stats : String → Stat) (p : Piece) where
  check_rest :
      (f : Extent) (files : List Extent)
      → check_extent stats (f ∷ files) p.offset p.length ≡ none
      → check_extent stats files p.offset p.length ≡ none
  unfolding check_extent
  check_rest f files h = elim (Stat-cases (stats f.path)) [
    | inl (e, s) ↦ ground (arith, s)
    | inr (r, n, s) ↦ ground (arith, s)
  ]

  check_here :
      (f : Extent) (files : List Extent) (b : ℕ)
      → IsByte p f b
      → check_extent stats (f ∷ files) p.offset p.length ≡ none
      → HasByte stats f b
  unfolding check_extent
  check_here f files b byte h =
      let overlap = overlaps p f b byte in
      elim (Stat-cases (stats f.path)) [
        | inl (e, s) ↦ let impossible : ⊥ = ground (arith, s, overlap) in elim impossible [ ]
        | inr (false, n, s) ↦ let impossible : ⊥ = ground (arith, s, overlap) in elim impossible [ ]
        | inr (true, n, s) ↦ (
          n,
          s,
          ground (arith, s, overlap, byte.from_piece, byte.to_piece, byte.from_file, byte.to_file),
        )
      ]

  checked_byte :
      {f : Extent} {files : List Extent} (b : ℕ)
      → Holds f files
      → IsByte p f b
      → check_extent stats files p.offset p.length ≡ none
      → HasByte stats f b
  checked_byte b (first_file {files}) byte h = check_here _ files b byte h
  checked_byte b (later_file {e} {files} holds) byte h =
      checked_byte b holds byte (check_rest e files h)

  check_none :
      (files : List Extent) (held : Completion) (get_error set_error : Option Error)
      → (completion stats files p held get_error set_error).0.complete ≡ true
      → (completion stats files p held get_error set_error).0.ok ≡ true
      → (completion stats files p held get_error set_error).0.errors ≡ []
      → check_extent stats files p.offset p.length ≡ none
  unfolding completion
  check_none files held get_error set_error whole known clean =
      elim (Option-cases (check_extent stats files p.offset p.length)) [
        | inl e ↦ e
        | inr (x, e) ↦
            let impossible : ⊥ = ground (arith, e, whole, known, clean) in elim impossible [ ]
      ]

  -- Where a completed piece is given, without an error, every byte of it that a file of the torrent
  -- holds is within a regular file of the disk.
  pub complete_present :
      (files : List Extent) (held : Completion) (get_error set_error : Option Error)
      → (completion stats files p held get_error set_error).0.complete ≡ true
      → (completion stats files p held get_error set_error).0.ok ≡ true
      → (completion stats files p held get_error set_error).0.errors ≡ []
      → (f : Extent) → Holds f files
      → (b : ℕ) → IsByte p f b
      → (size : ℕ) × (stats f.path ≡ stat true size) × (b - f.offset < size)
  complete_present files held get_error set_error whole known clean f holds b byte =
      checked_byte b holds byte (check_none files held get_error set_error whole known clean)

-- The file was opened, synced and closed.
abbrev pub IsSynced : Sync → Type 0
IsSynced x = (x.open_error ≡ none) × (x.sync_error ≡ none) × (x.close_error ≡ none)

append-is_empty : (errors : List Error) (e : Error) → is_empty (errors ++ e ∷ []) ≡ false
append-is_empty [] e = refl
append-is_empty (x ∷ errors) e = refl

join_empty :
    (errors : List Error) (e : Option Error)
    → is_empty (join errors e) ≡ true
    → (is_empty errors ≡ true) × (e ≡ none)
join_empty errors none h = (h, refl)
join_empty errors (some e) h =
    let impossible : ⊥ = ground (arith, h, append-is_empty errors e) in elim impossible [ ]

sync_outcome :
    (o s c : Option Error) (errors : List Error)
    → is_empty (sync_file (record { open_error = o; sync_error = s; close_error = c }) errors)
      ≡ true
    → (is_empty errors ≡ true) × (o ≡ none) × (s ≡ none) × (c ≡ none)
sync_outcome none s c errors h =
    let closed = join_empty (join errors s) c h in
    let synced = join_empty errors s closed.0 in (synced.0, refl, synced.1, closed.1)
sync_outcome (some e) s c errors h =
    let impossible : ⊥ = ground (arith, h, append-is_empty errors e) in elim impossible [ ]

sync_file_empty :
    (x : Sync) (errors : List Error)
    → is_empty (sync_file x errors) ≡ true
    → (is_empty errors ≡ true) × IsSynced x
sync_file_empty x errors h =
    let outcome = sync_outcome x.open_error x.sync_error x.close_error errors h in
    (outcome.0, (outcome.1, outcome.2, outcome.3))

module _ (syncs : String → Sync) (p : Piece) where
  -- No byte of the piece is in the file.
  abbrev passes_over : Extent → Bool
  passes_over f = leb (min (p.offset + p.length) (f.offset + f.length)) (max p.offset f.offset)

  sync_each_empty :
      (files : List Extent) (errors : List Error)
      → is_empty (sync_each syncs files p.offset p.length errors) ≡ true
      → is_empty errors ≡ true
  unfolding sync_each
  sync_each_empty [] errors h = h
  sync_each_empty (f ∷ files) errors h =
      let rest = sync_each_empty files _ h in
      elim (Bool-cases (passes_over f)) [
        | inl passed ↦ ground (arith, rest, passed)
        | inr here ↦ (sync_file_empty (syncs f.path) errors (ground (arith, rest, here))).0
      ]

  sync_each-IsSynced :
      {f : Extent} {files : List Extent} (errors : List Error) (b : ℕ)
      → Holds f files
      → IsByte p f b
      → is_empty (sync_each syncs files p.offset p.length errors) ≡ true
      → IsSynced (syncs f.path)
  unfolding sync_each
  sync_each-IsSynced {f} errors b (first_file {files}) byte h =
      let rest = sync_each_empty files _ h in
      (sync_file_empty (syncs f.path) errors (ground (arith, rest, overlaps p f b byte))).1
  sync_each-IsSynced errors b (later_file {e} {files} holds) byte h =
      sync_each-IsSynced _ b holds byte h

  -- Where MarkComplete records a piece as complete, every file of the torrent that holds a byte of
  -- it was opened, synced and closed with no error.
  pub mark_complete-IsSynced :
      (files : List Extent) (set_error : Option Error)
      → (mark_complete syncs files p set_error).1 ≡ some true
      → (f : Extent) → Holds f files
      → (b : ℕ) → IsByte p f b
      → IsSynced (syncs f.path)
  unfolding mark_complete sync_extent
  mark_complete-IsSynced files set_error marked f holds b byte =
      sync_each-IsSynced [] b holds byte (ground (arith, marked))
