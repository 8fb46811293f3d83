-- ===== src/Ftp/Listing/Kept.antt =====
-- That the loop over the entries of a walk keeps a listing whole.
use godown.Base.{
  ℕ, ◌≡◌, refl, subst, Bool, true, false, Option, List, [], ◌∷◌, ◌⊎◌, inl, inr, arith,
  if◌then◌else◌, Bool-cases, Option-cases,
}
use godown.Base.Int.{ℤ, pos}
use godown.Ftp.Names.{Text, Unicode, is_empty}
use godown.Ftp.Names.Safe.{IsPlain}
use godown.Ftp.Listing.{
  accepted, Seen, safe_relative_path, Kind, file, folder, link, other, Walked, item_of, Listing,
  trimmed_prefix, size_of, add_size, validate_size, take_folder, take_file, take_walked, take_all,
}
use godown.Ftp.Listing.Parts.{bind_accepted}
use godown.Ftp.Listing.Whole.{IsPut, path-IsPut, IsListed, append-IsListed, add_size_fits}

kind_cases : (k : Kind) → (k ≡ file) ⊎ (k ≡ folder) ⊎ (k ≡ link) ⊎ (k ≡ other)
kind_cases file = inl refl
kind_cases folder = inr (inl refl)
kind_cases link = inr (inr (inl refl))
kind_cases other = inr (inr (inr refl))

module _ (unicode : Unicode) where
  module _ (clean : Text → Text) (probe : Text → Option ℤ) (plain : IsPlain unicode) where
    take_folder-IsListed :
        (remote : Text) (local : Text × Seen) (l l' : Listing)
        → IsListed unicode l
        → IsPut unicode l.seen true local
        → take_folder unicode clean probe remote local l ≡ accepted l'
        → IsListed unicode l'
    take_folder-IsListed remote local l l' listed put h =
        append-IsListed unicode (item_of remote local.0 (pos 0) true) local l.total true l l' listed
          put refl listed.in_range h

    take_file-IsListed :
        (remote : Text) (local : Text × Seen) (size : ℕ) (l l' : Listing)
        → IsListed unicode l
        → IsPut unicode l.seen false local
        → take_file unicode clean probe remote local size l ≡ accepted l'
        → IsListed unicode l'
    take_file-IsListed remote local size l l' listed put h =
        let n = size_of unicode clean probe remote size in
        let (ok, valid, h') = bind_accepted (validate_size remote size) _ l' h in
        let (total, added, h2) = bind_accepted (add_size n.0 l.total) _ l' h' in
        append-IsListed unicode (item_of remote local.0 n.0 false) local total n.1 l l' listed put
          refl (add_size_fits unicode n.0 l.total total listed.in_range added) h2

    either-IsListed :
        (directory : Bool) (w : Walked) (local : Text × Seen) (l l' : Listing)
        → IsListed unicode l
        → IsPut unicode l.seen directory local
        → (if directory
            then take_folder unicode clean probe (clean w.path) local l
            else take_file unicode clean probe (clean w.path) local w.size l)
          ≡ accepted l'
        → IsListed unicode l'
    either-IsListed true w local l l' listed put h =
        take_folder-IsListed (clean w.path) local l l' listed put h
    either-IsListed false w local l l' listed put h =
        take_file-IsListed (clean w.path) local w.size l l' listed put h

    take_walked-IsListed :
        (prefix : Text) (directory : Bool) (w : Walked) (l l' : Listing)
        → IsListed unicode l
        → take_walked unicode clean probe prefix directory w l ≡ accepted l'
        → IsListed unicode l'
    unfolding take_walked
    take_walked-IsListed prefix directory w l l' listed h =
        elim (Option-cases (trimmed_prefix prefix (clean w.path))) [
          | inl outside ↦ let impossible : ⊥ = ground (arith, h, outside) in elim impossible [ ]
          | inr (relative, e) ↦ elim (Bool-cases (is_empty relative)) [
            | inl empty ↦ let impossible : ⊥ = ground (arith, h, e, empty) in elim impossible [ ]
            | inr some_text ↦
                let (local, taken, h') =
                  bind_accepted (safe_relative_path unicode relative directory l.seen)
                    (λ (local : Text × Seen).
                      if directory
                      then take_folder unicode clean probe (clean w.path) local l
                      else take_file unicode clean probe (clean w.path) local w.size l)
                    l' (ground (arith, h, e, some_text)) in
                either-IsListed directory w local l l' listed
                  (path-IsPut unicode relative directory l.seen local plain taken) h'
          ]
        ]

    pub take_all-IsListed :
        (prefix : Text) (walked : List Walked) (l l' : Listing)
        → IsListed unicode l
        → take_all unicode clean probe prefix walked l ≡ accepted l'
        → IsListed unicode l'
    unfolding take_all
    take_all-IsListed prefix [] l l' listed h =
        let same : l ≡ l' = ground (arith, h) in subst (IsListed unicode) same listed
    take_all-IsListed prefix (w ∷ walked) l l' listed h = elim (kind_cases w.kind) [
      | inl e ↦
          let (m, taken, h') =
            bind_accepted (take_walked unicode clean probe prefix false w l)
              (take_all unicode clean probe prefix walked) l' (ground (arith, h, e)) in
          take_all-IsListed prefix walked m l'
            (take_walked-IsListed prefix false w l m listed taken) h'
      | inr (inl e) ↦
          let (m, taken, h') =
            bind_accepted (take_walked unicode clean probe prefix true w l)
              (take_all unicode clean probe prefix walked) l' (ground (arith, h, e)) in
          take_all-IsListed prefix walked m l' (take_walked-IsListed prefix true w l m listed taken)
            h'
      | inr (inr (inl e)) ↦ take_all-IsListed prefix walked l l' listed (ground (arith, h, e))
      | inr (inr (inr e)) ↦ take_all-IsListed prefix walked l l' listed (ground (arith, h, e))
    ]
