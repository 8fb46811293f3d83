-- ===== src/Plugins/Manager/Sorting.antt =====
-- The order of the plugins.
use godown.Base.{
  suc, ◌≡◌, refl, ◌∙◌, true, false, ◌||◌, List, [], ◌∷◌, ◌++◌, String, str_eq, str_lt, str_lt_total,
  mem, length, arith, eq_iff,
}
use godown.Plugins.Manager.{Plugin, id_of, insert_plugin, sort_plugins}

-- The ids, as a list.
unfoldable pub ids : List Plugin → List String
ids [] = []
ids (p ∷ l) = id_of p ∷ ids l

abbrev pub DistinctIds : List Plugin → Type 0
DistinctIds [] = Unit {0}
DistinctIds (p ∷ l) = (mem (id_of p) (ids l) ≡ false) × DistinctIds l

-- Each id is less than the next.
abbrev pub Ordered : List Plugin → Type 0
Ordered [] = Unit {0}
Ordered (p ∷ []) = Unit {0}
Ordered (p ∷ q ∷ l) = (str_lt (id_of p) (id_of q) ≡ true) × Ordered (q ∷ l)

mem-insert_plugin :
    (k : String) (p : Plugin) (l : List Plugin)
    → mem k (ids (insert_plugin p l)) ≡ mem k (id_of p ∷ ids l)
unfolding insert_plugin ids
mem-insert_plugin k p [] = refl
mem-insert_plugin k p (q ∷ l) = ground (arith, mem-insert_plugin k p l)

pub mem-sort_plugins : (k : String) (l : List Plugin) → mem k (ids (sort_plugins l)) ≡ mem k (ids l)
unfolding sort_plugins ids
mem-sort_plugins k [] = refl
mem-sort_plugins k (p ∷ l) =
    ground (arith, mem-insert_plugin k p (sort_plugins l), mem-sort_plugins k l)

insert_plugin-Ordered :
    (p : Plugin) (l : List Plugin)
    → mem (id_of p) (ids l) ≡ false
    → Ordered l
    → Ordered (insert_plugin p l)
unfolding insert_plugin ids
insert_plugin-Ordered p [] fresh ordered = tt
insert_plugin-Ordered p (q ∷ []) fresh ordered = ground (arith, str_lt_total (id_of q) (id_of p))
insert_plugin-Ordered p (q ∷ r ∷ l) fresh ordered =
    ground (arith, str_lt_total (id_of q) (id_of p), insert_plugin-Ordered p (r ∷ l))

pub sort_plugins-Ordered : (l : List Plugin) → DistinctIds l → Ordered (sort_plugins l)
unfolding sort_plugins
sort_plugins-Ordered [] distinct = tt
sort_plugins-Ordered (p ∷ l) distinct =
    insert_plugin-Ordered p (sort_plugins l) (mem-sort_plugins (id_of p) l ∙ distinct.0)
      (sort_plugins-Ordered l distinct.1)

pub mem-ids_append :
    (k : String) (l : List Plugin) (p : Plugin)
    → mem k (ids (l ++ p ∷ [])) ≡ (mem k (ids l) || str_eq (id_of p) k)
unfolding ids
mem-ids_append k [] p = ground arith
mem-ids_append k (q ∷ l) p = ground (arith, mem-ids_append k l p)

pub append-DistinctIds :
    (l : List Plugin) (p : Plugin)
    → DistinctIds l
    → mem (id_of p) (ids l) ≡ false
    → DistinctIds (l ++ p ∷ [])
unfolding ids
append-DistinctIds [] p distinct fresh = (refl, tt)
append-DistinctIds (q ∷ l) p distinct fresh = (
  ground
      (arith, mem-ids_append (id_of q) l p, eq_iff (id_of p) (id_of q), eq_iff (id_of q) (id_of p)),
  append-DistinctIds l p distinct.1 (ground arith),
)

length-insert_plugin : (p : Plugin) (l : List Plugin) → length (insert_plugin p l) ≡ suc (length l)
unfolding insert_plugin
length-insert_plugin p [] = refl
length-insert_plugin p (q ∷ l) = ground (arith, length-insert_plugin p l)

pub length-sort_plugins : (l : List Plugin) → length (sort_plugins l) ≡ length l
unfolding sort_plugins
length-sort_plugins [] = refl
length-sort_plugins (p ∷ l) =
    omega (arith, length-insert_plugin p (sort_plugins l), length-sort_plugins l)
