-- ===== src/Overview/Parents.antt =====
-- The maps of the relationship path: of what is set for one id, the last wins.
use klew.Base.{
  ◌≡◌, refl, ap, ◌∙◌, true, ◌&&◌, List, [], ◌∷◌, Option, some, if◌then◌else◌, Str, str_eq, has,
  Dict, lookup, insert, lookup-insert, Bool-cases, inl, inr, arith,
}
use klew.Overview.{Node, Edge, Parent, is_ownership, parent_by, parent_map_from, by_id_from}

-- The parent that the last edge of ownership to an id gives it.
abbrev pub last_parent : Str → List Edge → Option Parent → Option Parent
last_parent id [] before = before
last_parent id (e ∷ es) before =
    last_parent id es (if is_ownership e && str_eq e.to id then some (parent_by e) else before)

-- The last node with an id.
abbrev pub last_node : Str → List Node → Option Node → Option Node
last_node id [] before = before
last_node id (n ∷ ns) before = last_node id ns (if str_eq n.id id then some n else before)

pub lookup-parent_map_from :
    (id : Str) (m : Dict Parent) (es : List Edge)
    → lookup id (parent_map_from m es) ≡ last_parent id es (lookup id m)
unfolding parent_map_from
lookup-parent_map_from id m [] = refl
lookup-parent_map_from id m (e ∷ es) =
    lookup-parent_map_from id (if is_ownership e then insert e.to (parent_by e) m else m) es
    ∙ ap (last_parent id es) (ground (arith, lookup-insert e.to id (parent_by e) m))

pub lookup-by_id_from :
    (id : Str) (m : Dict Node) (ns : List Node)
    → lookup id (by_id_from m ns) ≡ last_node id ns (lookup id m)
unfolding by_id_from
lookup-by_id_from id m [] = refl
lookup-by_id_from id m (n ∷ ns) =
    lookup-by_id_from id (insert n.id n m) ns ∙ ap (last_node id ns) (lookup-insert n.id id n m)

abbrev pub keys {ℓ} : {V : Type ℓ} → Dict V → List Str
keys [] = []
keys ((k, v) ∷ m) = k ∷ keys m

pub has-keys {ℓ} :
    {V : Type ℓ} (k : Str) (m : Dict V) {v : V} → lookup k m ≡ some v → has (keys m) k ≡ true
unfolding lookup has
has-keys k [] e = absurd (ground arith)
has-keys k ((j, w) ∷ m) {v = v} e = elim (Bool-cases (str_eq j k)) [
  | inl here ↦ rw here refl
  | inr there ↦ rw there (has-keys k m {v = v} (rw there at e))
]
