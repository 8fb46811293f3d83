-- ===== src/Ftp/Listing.antt =====
-- internal/download/ftp/ftp.go: safeRelativePath, validateDirectoryEntrySize and listDirectory, from
-- what the library's walker gives.
pub mod Parts
pub mod Again
pub mod Apart
pub mod Whole
pub mod Kept
pub mod Sorted
use godown.Base.{
  ℕ, zero, suc, ◌+◌, ◌-◌, ◌^◌, Bool, true, false, not, ◌&&◌, ◌||◌, Option, none, some, List, [],
  ◌∷◌, ◌++◌, ltb, ◌==◌, length, if◌then◌else◌,
}
use godown.Base.Int.{ℤ, pos, negsuc}
use godown.Ftp.Names.{Text, Unicode, slash, is_empty, eq_text, map_text, safe_file_name}

pub data Refusal : Type 0 where
  reserved_name conflict duplicate outside_root no_relative_path : Text → Refusal
  size_out_of_range : Text → Refusal
  total_out_of_range too_many_entries walk_failed : Refusal

pub data Checked {ℓ} (A : Type ℓ) : Type ℓ where
  refused : Refusal → Checked A
  accepted : A → Checked A

infixl 5 ◌>>=◌
abbrev pub ◌>>=◌ {ℓ κ} : {A : Type ℓ} {B : Type κ} → Checked A → (A → Checked B) → Checked B
refused e >>= f = refused e
accepted a >>= f = f a

abbrev on_first : ℕ → List Text → List Text
on_first c [] = (c ∷ []) ∷ []
on_first c (part ∷ parts) = (c ∷ part) ∷ parts

-- strings.Split(s, "/").
unfoldable pub split : Text → List Text
split [] = [] ∷ []
split (c ∷ s) = let rest = split s in if c == slash then [] ∷ rest else on_first c rest

-- strings.Join(parts, "/").
unfoldable pub join : List Text → Text
join [] = []
join (part ∷ []) = part
join (part ∷ next ∷ parts) = part ++ slash ∷ join (next ∷ parts)

-- The map `seen`: whether a path is a directory. The first entry of a path counts.
abbrev pub Seen : Type 0
Seen = List (Text × Bool)

unfoldable pub seen_at : Text → Seen → Option Bool
seen_at key [] = none
seen_at key ((k, d) ∷ seen) = let rest = seen_at key seen in if eq_text k key then some d else rest

abbrev pub same_kind : Bool → Bool → Bool
same_kind true d = d
same_kind false d = not d

abbrev pub is_last : List Text → Bool
is_last [] = true
is_last (part ∷ parts) = false

-- core.FTPDirectoryOwnerMarker.
abbrev pub owner_marker : Text
owner_marker =
    b'.' ∷ b'g' ∷ b'd' ∷ b'3' ∷ b'_' ∷ b'f' ∷ b't' ∷ b'p' ∷ b'_' ∷ b'o' ∷ b'w' ∷ b'n' ∷ b'e' ∷ b'r'
    ∷ []

-- What `seen` says against an entry of a path.
abbrev pub clash : Text → Bool → Bool → Option Bool → Option Refusal
clash remote directory last none = none
clash remote directory last (some before) =
    if not (same_kind before directory)
    then some (conflict remote)
    else if last
    then some (duplicate remote)
    else none

module _ (unicode : Unicode) (remote : Text) (directory : Bool) where
  abbrev pub key_of : List Text → Text
  key_of local = map_text unicode.lower (join local)

  abbrev pub takes_marker : List Text → Text → Bool
  takes_marker [] part = unicode.equal_fold part owner_marker
  takes_marker (first ∷ before) part = false

  -- The loop over the parts, behind those that are cleaned already.
  unfoldable pub take_parts : List Text → List Text → Seen → Checked (List Text × Seen)
  take_parts before [] seen = accepted (before, seen)
  take_parts before (part ∷ parts) seen =
      let local = safe_file_name unicode part in
      let here = before ++ local ∷ [] in
      let key = key_of here in
      let is_directory = not (is_last parts) || directory in
      let rest = take_parts here parts ((key, is_directory) ∷ seen) in
      if takes_marker before local
      then refused (reserved_name remote)
      else elim (clash remote is_directory (is_last parts) (seen_at key seen)) [
        | some e ↦ refused e
        | none ↦ rest
      ]

  unfoldable pub safe_relative_path : Seen → Checked (Text × Seen)
  safe_relative_path seen = do r ← take_parts [] (split remote) seen; accepted (join r.0, r.1)

-- An entry of the walker; `other` is a nil one.
pub data Kind : Type 0 where
  file folder link other : Kind

pub record Walked : Type 0 where
  pub kind : Kind
  pub path : Text
  pub size : ℕ  -- a uint64

pub record DirectoryEntry : Type 0 where
  pub remote_path : Text
  pub relative_path : Text
  pub size : ℤ
  pub directory : Bool

abbrev pub item_of : Text → Text → ℤ → Bool → DirectoryEntry
item_of remote local n directory = record {
  remote_path = remote;
  relative_path = local;
  size = n;
  directory = directory;
}

abbrev pub max_int64 : ℕ
max_int64 = 2 ^ 63 - 1

abbrev pub max_directory_entries : ℕ
max_directory_entries = 100000

-- The variables of the loop; the entries stand as they were appended.
pub record Listing : Type 0 where
  pub entries : List DirectoryEntry
  pub seen : Seen
  pub total : ℕ
  pub total_known : Bool

abbrev pub trimmed_prefix : Text → Text → Option Text
trimmed_prefix [] s = some s
trimmed_prefix (c ∷ p) [] = none
trimmed_prefix (c ∷ p) (d ∷ s) = let rest = trimmed_prefix p s in if c == d then rest else none

-- strings.TrimSuffix(root, "/") + "/", for a root that is cleaned.
unfoldable pub with_slash : Text → Text
with_slash [] = slash ∷ []
with_slash (c ∷ []) = if c == slash then slash ∷ [] else c ∷ slash ∷ []
with_slash (c ∷ d ∷ s) = c ∷ with_slash (d ∷ s)

-- a < b on texts: code points are in the order of their bytes.
unfoldable pub lt_text : Text → Text → Bool
lt_text s [] = false
lt_text [] (d ∷ t) = true
lt_text (c ∷ s) (d ∷ t) = let rest = lt_text s t in if c == d then rest else ltb c d

unfoldable pub insert_entry : DirectoryEntry → List DirectoryEntry → List DirectoryEntry
insert_entry e [] = e ∷ []
insert_entry e (f ∷ entries) =
    let rest = insert_entry e entries in
    if lt_text f.relative_path e.relative_path then f ∷ rest else e ∷ f ∷ entries

unfoldable pub sort_entries : List DirectoryEntry → List DirectoryEntry
sort_entries [] = []
sort_entries (e ∷ entries) = insert_entry e (sort_entries entries)

-- The total with a size, where it stays in range.
abbrev pub add_size : ℤ → ℕ → Checked ℕ
add_size (negsuc n) total = accepted total
add_size (pos n) total =
    if ltb (max_int64 - total) n then refused total_out_of_range else accepted (total + n)

-- validateDirectoryEntrySize.
abbrev pub validate_size : Text → ℕ → Checked (Unit {0})
validate_size remote n = if ltb max_int64 n then refused (size_out_of_range remote) else accepted tt

abbrev pub append_entry : DirectoryEntry → Seen → ℕ → Bool → Listing → Checked Listing
append_entry e seen total known l =
    if ltb max_directory_entries (length (l.entries ++ e ∷ []))
    then refused too_many_entries
    else accepted (record {
      entries = l.entries ++ e ∷ [];
      seen = seen;
      total = total;
      total_known = l.total_known && known;
    })

abbrev pub nothing_listed : Listing
nothing_listed = record { entries = []; seen = []; total = 0; total_known = true }

-- path.Clean, and conn.FileSize where it gives no error.
module _ (unicode : Unicode) (clean : Text → Text) (probe : Text → Option ℤ) where
  -- The size of a file, and whether it is known.
  unfoldable pub size_of : Text → ℕ → ℤ × Bool
  size_of remote zero = elim (probe remote) [ some n ↦ (n, true) | none ↦ (negsuc 0, false) ]
  size_of remote (suc n) = (pos (suc n), true)

  abbrev pub take_folder : Text → Text × Seen → Listing → Checked Listing
  take_folder remote local l =
      append_entry (item_of remote local.0 (pos 0) true) local.1 l.total true l

  abbrev pub take_file : Text → Text × Seen → ℕ → Listing → Checked Listing
  take_file remote local size l = do
    ok ← validate_size remote size
    let n = size_of remote size
    total ← add_size n.0 l.total
    append_entry (item_of remote local.0 n.0 false) local.1 total n.1 l

  -- The body of the loop for a file or a folder.
  unfoldable pub take_walked : Text → Bool → Walked → Listing → Checked Listing
  take_walked prefix directory w l =
      let remote = clean w.path in
      elim (trimmed_prefix prefix remote) [
        | none ↦ refused (outside_root w.path)
        | some relative ↦ if is_empty relative then refused (no_relative_path w.path) else do
          local ← safe_relative_path unicode relative directory l.seen
          if directory then take_folder remote local l else take_file remote local w.size l
      ]

  unfoldable pub take_all : Text → List Walked → Listing → Checked Listing
  take_all prefix [] l = accepted l
  take_all prefix (w ∷ walked) l = elim w.kind [
    | file ↦ take_walked prefix false w l >>= take_all prefix walked
    | folder ↦ take_walked prefix true w l >>= take_all prefix walked
    | link ↦ take_all prefix walked l
    | other ↦ take_all prefix walked l
  ]

  -- listDirectory, from the walker's entries and whether it ended with an error.
  unfoldable pub list_directory : Text → List Walked → Bool → Checked (List DirectoryEntry × ℕ)
  list_directory root walked failed = do
    l ← take_all (with_slash (clean root)) walked nothing_listed
    if failed
        then refused walk_failed
        else accepted (sort_entries l.entries, if l.total_known then l.total else 0)
