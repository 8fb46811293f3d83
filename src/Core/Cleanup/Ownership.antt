-- ===== src/Core/Cleanup/Ownership.antt =====
-- A cleanup removes nothing that is not the task's.
use godown.Base.{
  ◌≡◌, refl, subst, ◌⊎◌, inl, inr, false, none, some, List, [], ◌∷◌, ◌++◌, String, str_eq, concat,
  arith, Bool-cases,
}
use godown.Core.Task.{Task, read}
use godown.Core.Output.{
  ok, Host, leaves_base, output_file, task_owned_path, verify_ftp_directory_owner,
}
use godown.Core.Output.Moves.{Result-cases}
use godown.Core.Cleanup.{
  Removal, tree, file, Cleaning, ◌andthen◌, remove_task_owned_path, remove_if_exists, cleanup_bt,
  cleanup_ftp_root, cleanup_ftp_directory, cleanup_file, cleanup_files,
}

-- A path whose relative path from the base leads neither to the base nor out of it.
pub record IsInside (host : Host) (base path : String) : Type 0 where
  pub base_path : String
  pub based : host.abs_clean base ≡ ok base_path
  pub relative : String
  pub related : host.rel base_path path ≡ ok relative
  pub stays : leaves_base host relative ≡ false

-- The files that belong to a task beside the trees.
abbrev pub IsOwnFile : Host → Task → String → Type 0
IsOwnFile host t path =
    (path ≡ output_file host t)
    ⊎ ((path ≡ concat (output_file host t) ".ghd")
        ⊎ ((path ≡ concat (output_file host t) ".part")
            ⊎ (path ≡ concat (output_file host t) ".torrent")))

abbrev pub IsOwned : Host → Task → Removal → Type 0
IsOwned host t (tree path) = IsInside host t.path path
IsOwned host t (file path) = IsOwnFile host t path

abbrev pub AllOwned : Host → Task → List Removal → Type 0
AllOwned host t [] = Unit {0}
AllOwned host t (r ∷ rs) = IsOwned host t r × AllOwned host t rs

inside :
    (host : Host) (base target path : String)
    → task_owned_path host base target ≡ ok path
    → IsInside host base path
unfolding task_owned_path
inside host base target path h = elim (Result-cases (host.abs_clean base)) [
  | inr (x, e) ↦ absurd (ground arith)
  | inl (b, e) ↦ elim (Result-cases (host.abs_clean target)) [
    | inr (x, f) ↦ absurd (ground arith)
    | inl (q, f) ↦ elim (Result-cases (host.rel b q)) [
      | inr (x, g) ↦ absurd (ground arith)
      | inl (r, g) ↦ elim (Bool-cases (leaves_base host r)) [
        | inl out ↦ absurd (ground arith)
        | inr k ↦ record {
          base_path = b;
          based = e;
          relative = r;
          related = subst (λ (x : String). host.rel b x ≡ ok r) {x = q} (ground arith) g;
          stays = k;
        }
      ]
    ]
  ]
]

module _ (host : Host) (t : Task) where
  AllOwned-append :
      (rs qs : List Removal) → AllOwned host t rs → AllOwned host t qs → AllOwned host t (rs ++ qs)
  AllOwned-append [] qs a b = b
  AllOwned-append (r ∷ rs) qs a b = (a.0, AllOwned-append rs qs a.1 b)

  andthen-AllOwned :
      (c d : Cleaning) → AllOwned host t c.0 → AllOwned host t d.0 → AllOwned host t (c andthen d).0
  unfolding ◌andthen◌
  andthen-AllOwned (done, none) (more, e) a b = AllOwned-append done more a b
  andthen-AllOwned (done, some x) (more, e) a b = a

  tree-AllOwned : (target : String) → AllOwned host t (remove_task_owned_path host t.path target).0
  unfolding remove_task_owned_path
  tree-AllOwned target = elim (Result-cases (task_owned_path host t.path target)) [
    | inl (path, e) ↦ rw (e, remove_task_owned_path) (inside host t.path target path e, tt)
    | inr (x, e) ↦ rw (e, remove_task_owned_path) tt
  ]

  file-AllOwned :
      (path : String) → IsOwnFile host t path → AllOwned host t (remove_if_exists host path).0
  unfolding remove_if_exists
  file-AllOwned path own = (own, tt)

  cleanup_bt-AllOwned : AllOwned host t (cleanup_bt host t).0
  unfolding cleanup_bt
  cleanup_bt-AllOwned =
      andthen-AllOwned _ _
        (andthen-AllOwned _ _ (andthen-AllOwned _ _ (tree-AllOwned _) (tree-AllOwned _))
          (tree-AllOwned _))
        (file-AllOwned _ (inr (inr (inr refl))))

  cleanup_ftp_root-AllOwned : (root : String) → AllOwned host t (cleanup_ftp_root host t root).0
  unfolding cleanup_ftp_root
  cleanup_ftp_root-AllOwned root = elim (Result-cases (verify_ftp_directory_owner host root t.id)) [
    | inr (x, v) ↦ rw (v, cleanup_ftp_root) tt
    | inl (u, v) ↦
        rw (v, cleanup_ftp_root) (andthen-AllOwned _ _ (tree-AllOwned root) (tree-AllOwned _))
  ]

  cleanup_ftp_directory-AllOwned : AllOwned host t (cleanup_ftp_directory host t).0
  unfolding cleanup_ftp_directory
  cleanup_ftp_directory-AllOwned =
      elim (Result-cases (task_owned_path host t.path (output_file host t))) [
        | inr (x, e) ↦ rw (e, cleanup_ftp_directory) tt
        | inl (root, e) ↦ rw (e, cleanup_ftp_directory) (cleanup_ftp_root-AllOwned root)
      ]

  cleanup_file-AllOwned : AllOwned host t (cleanup_file host t).0
  unfolding cleanup_file
  cleanup_file-AllOwned =
      andthen-AllOwned _ _ (file-AllOwned _ (inl refl)) (file-AllOwned _ (inr (inl refl)))

  -- Whatever the task holds and whatever the file system answers, a cleanup removes whole trees only
  -- inside the task's directory, never the directory itself nor anything above it, and single files
  -- only under the name of the task's output and with the endings .ghd, .part and .torrent.
  pub cleanup_files-AllOwned : AllOwned host t (cleanup_files host t).0
  unfolding cleanup_files
  cleanup_files-AllOwned = elim (Bool-cases (str_eq t.pack_id "bt")) [
    | inl bt ↦ rw (bt, cleanup_files) cleanup_bt-AllOwned
    | inr other ↦ elim (Bool-cases (str_eq t.pack_id "ftp")) [
      | inr http ↦ rw (other, http, cleanup_files) cleanup_file-AllOwned
      | inl ftp ↦ elim (Bool-cases (str_eq (read "directory" t.stage.state) "true")) [
        | inl d ↦ rw (other, ftp, d, cleanup_files) cleanup_ftp_directory-AllOwned
        | inr d ↦
            rw (other, ftp, d, cleanup_files)
              (andthen-AllOwned _ _ (file-AllOwned _ (inr (inr (inl refl)))) cleanup_file-AllOwned)
      ]
    ]
  ]
