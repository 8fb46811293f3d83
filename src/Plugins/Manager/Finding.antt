-- ===== src/Plugins/Manager/Finding.antt =====
-- What Discover finds in the plugin directory.
use godown.Base.{
  ℕ, suc, ◌+◌, ◌≡◌, refl, sym, ◌∙◌, subst, Bool, true, false, ◌&&◌, none, some, List, [], ◌∷◌, ◌++◌,
  String, mem, length, length-append, inl, inr, arith, if◌then◌else◌, Option-cases, Bool-cases,
}
use godown.Core.Output.{ok}
use godown.Plugins.Manifest.{Manifest, Problem, validate, unreadable, bad_manifest, duplicate_id}
use godown.Plugins.Manager.{
  ManifestFile, absent, read_error, not_json, manifest, DirEntry, Plugin, Found, insert_plugin,
  sort_plugins, report, add_plugin, take_file, take_entry, take_entries, discover,
}
use godown.Plugins.Manager.Sorting.{
  ids, DistinctIds, Ordered, sort_plugins-Ordered, mem-ids_append, append-DistinctIds,
  length-sort_plugins,
}

-- A directory with a manifest, read or not.
abbrev pub has_manifest : ManifestFile → Bool
has_manifest absent = false
has_manifest _ = true

abbrev pub count_manifests : List DirEntry → ℕ
count_manifests [] = 0
count_manifests (e ∷ entries) =
    let rest = count_manifests entries in if e.is_dir && has_manifest e.file then suc rest else rest

module _ (join : String → String → String) (trim_space : String → String) where
  abbrev pub AllValid : List Plugin → Type 0
  AllValid [] = Unit {0}
  AllValid (p ∷ l) = (validate trim_space p.manifest ≡ none) × AllValid l

  append-AllValid :
      (l : List Plugin) (p : Plugin)
      → AllValid l
      → validate trim_space p.manifest ≡ none
      → AllValid (l ++ p ∷ [])
  append-AllValid [] p valid h = (h, tt)
  append-AllValid (q ∷ l) p valid h = (valid.0, append-AllValid l p valid.1 h)

  insert_plugin-AllValid :
      (p : Plugin) (l : List Plugin)
      → AllValid l
      → validate trim_space p.manifest ≡ none
      → AllValid (insert_plugin p l)
  unfolding insert_plugin
  insert_plugin-AllValid p [] valid h = (h, tt)
  insert_plugin-AllValid p (q ∷ l) valid h = ground (arith, insert_plugin-AllValid p l valid.1 h)

  sort_plugins-AllValid : (l : List Plugin) → AllValid l → AllValid (sort_plugins l)
  unfolding sort_plugins
  sort_plugins-AllValid [] valid = tt
  sort_plugins-AllValid (p ∷ l) valid =
      insert_plugin-AllValid p (sort_plugins l) (sort_plugins-AllValid l valid.1) valid.0

  record IsSound (found : Found) : Type 0 where
    agrees : (k : String) → mem k found.seen ≡ mem k (ids found.plugins)
    distinct : DistinctIds found.plugins
    valid : AllValid found.plugins

  report-IsSound :
      (problem : Problem) (found : Found)
      → IsSound found
      → IsSound (record found { problems = found.problems ++ problem ∷ [] })
  report-IsSound problem found v = record {
    agrees = v.agrees;
    distinct = v.distinct;
    valid = v.valid;
  }

  add_plugin_seen :
      (m : Manifest) (dir : String) (found : Found)
      → mem m.id found.seen ≡ true
      → add_plugin join trim_space m dir found ≡ report (duplicate_id m.id) found
  add_plugin_seen m dir found seen = ground arith

  add_plugin_fresh :
      (m : Manifest) (dir : String) (found : Found)
      → mem m.id found.seen ≡ false
      → add_plugin join trim_space m dir found ≡ record found {
        plugins = found.plugins ++ record { manifest = m; manifest_dir = dir } ∷ [];
        seen = m.id ∷ found.seen;
      }
  add_plugin_fresh m dir found fresh = ground arith

  add_plugin-IsSound :
      (m : Manifest) (dir : String) (found : Found)
      → validate trim_space m ≡ none
      → IsSound found
      → IsSound (add_plugin join trim_space m dir found)
  add_plugin-IsSound m dir found h v = elim (Bool-cases (mem m.id found.seen)) [
    | inl seen ↦
        subst IsSound (sym (add_plugin_seen m dir found seen))
          (report-IsSound (duplicate_id m.id) found v)
    | inr fresh ↦
        let p : Plugin = record { manifest = m; manifest_dir = dir } in
        subst IsSound (sym (add_plugin_fresh m dir found fresh)) (record {
          agrees = λ k. ground (arith, v.agrees k, mem-ids_append k found.plugins p);
          distinct = append-DistinctIds found.plugins p v.distinct (sym (v.agrees m.id) ∙ fresh);
          valid = append-AllValid found.plugins p v.valid h;
        })
  ]

  take_file-IsSound :
      (root name : String) (file : ManifestFile) (found : Found)
      → IsSound found
      → IsSound (take_file join trim_space root name file found)
  unfolding take_file
  take_file-IsSound root name absent found v = v
  take_file-IsSound root name (read_error x) found v = report-IsSound _ found v
  take_file-IsSound root name (not_json x) found v = report-IsSound _ found v
  take_file-IsSound root name (manifest m) found v = elim (Option-cases (validate trim_space m)) [
    | inl good ↦ rw (good, take_file) (add_plugin-IsSound m (join root name) found good v)
    | inr (problem, bad) ↦ rw (bad, take_file) (report-IsSound problem found v)
  ]

  take_entry_dir :
      (root : String) (e : DirEntry) (found : Found)
      → e.is_dir ≡ true
      → take_entry join trim_space root e found ≡ take_file join trim_space root e.name e.file found
  unfolding take_entry
  take_entry_dir root e found dir = ground arith

  take_entry_other :
      (root : String) (e : DirEntry) (found : Found)
      → e.is_dir ≡ false
      → take_entry join trim_space root e found ≡ found
  unfolding take_entry
  take_entry_other root e found other = ground arith

  take_entry-IsSound :
      (root : String) (e : DirEntry) (found : Found)
      → IsSound found
      → IsSound (take_entry join trim_space root e found)
  unfolding take_entry
  take_entry-IsSound root e found v = elim (Bool-cases e.is_dir) [
    | inl dir ↦
        subst IsSound (sym (take_entry_dir root e found dir))
          (take_file-IsSound root e.name e.file found v)
    | inr other ↦ subst IsSound (sym (take_entry_other root e found other)) v
  ]

  take_entries-IsSound :
      (root : String) (entries : List DirEntry) (found : Found)
      → IsSound found
      → IsSound (take_entries join trim_space root entries found)
  unfolding take_entries
  take_entries-IsSound root [] found v = v
  take_entries-IsSound root (e ∷ entries) found v =
      take_entries-IsSound root entries (take_entry join trim_space root e found)
        (take_entry-IsSound root e found v)

  -- The plugins and the problems so far.
  abbrev told : Found → ℕ
  told found = length found.plugins + length found.problems

  take_file-told :
      (root name : String) (file : ManifestFile) (found : Found)
      → told (take_file join trim_space root name file found)
        ≡ told found + (if has_manifest file then 1 else 0)
  unfolding take_file
  take_file-told root name absent found = omega arith
  take_file-told root name (read_error x) found =
      omega (arith, length-append found.problems (unreadable name x ∷ []))
  take_file-told root name (not_json x) found =
      omega (arith, length-append found.problems (bad_manifest name x ∷ []))
  take_file-told root name (manifest m) found =
      let p : Plugin = record { manifest = m; manifest_dir = join root name } in
      elim (Option-cases (validate trim_space m)) [
        | inl good ↦ ground (
          arith,
          length-append found.problems (duplicate_id m.id ∷ []),
          length-append found.plugins (p ∷ []),
        )
        | inr (problem, bad) ↦ ground (arith, length-append found.problems (problem ∷ []))
      ]

  take_entry-told :
      (root : String) (e : DirEntry) (found : Found)
      → told (take_entry join trim_space root e found)
        ≡ told found + (if e.is_dir && has_manifest e.file then 1 else 0)
  unfolding take_entry
  take_entry-told root e found = ground (arith, take_file-told root e.name e.file found)

  take_entries-told :
      (root : String) (entries : List DirEntry) (found : Found)
      → told (take_entries join trim_space root entries found)
        ≡ told found + count_manifests entries
  unfolding take_entries
  take_entries-told root [] found = omega arith
  take_entries-told root (e ∷ entries) found = ground (
    arith,
    take_entry-told root e found,
    take_entries-told root entries (take_entry join trim_space root e found),
  )

  -- The plugins that are found in a directory that can be read stand in the order of their ids,
  -- no two with one id, and each has a manifest that is valid; and together with the problems
  -- that are reported they are as many as the directories with a manifest: none is lost.
  pub discover_finds :
      (root : String) (entries : List DirEntry)
      → (plugins : List Plugin) × (problems : List Problem) × (discover join trim_space root
            (ok (some entries))
          ≡ ok (plugins, problems))
        × Ordered plugins
        × AllValid plugins
        × (length plugins + length problems ≡ count_manifests entries)
  unfolding discover ids
  discover_finds root entries =
      let start : Found = record { plugins = []; problems = []; seen = [] } in
      let found = take_entries join trim_space root entries start in
      let sound =
        take_entries-IsSound root entries start
          (record { agrees = λ k. refl; distinct = tt; valid = tt }) in
      (
        sort_plugins found.plugins,
        found.problems,
        refl,
        sort_plugins-Ordered found.plugins sound.distinct,
        sort_plugins-AllValid found.plugins sound.valid,
        omega (arith, length-sort_plugins found.plugins, take_entries-told root entries start),
      )
