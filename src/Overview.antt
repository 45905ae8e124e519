-- ===== src/Overview.antt =====
-- The relationship path of an investigation, of lib/investigationOverview.js: from an object of
-- the workload graph up through what owns, selects or routes to it. An id that names a member of
-- Object.prototype is taken for one that no node has.
pub mod Parents
pub mod Climb
pub mod Path
pub mod Search
mod Tests
use mathlib.Core.Option
use klew.Base.{
  ℕ, zero, suc, Bool, true, false, not, ◌&&◌, ◌||◌, List, [], ◌∷◌, ◌++◌, map, Option, none, some,
  ltb, length, keep, find_elem?, if◌then◌else◌, Str, codes, str_eq, is_empty, has, ◌or◌, ◌or_else◌,
  Dict, lookup, insert,
}

pub record Node : Type 0 where
  pub id : Str
  pub kind : Str
  pub name : Str
  pub health : Str

pub record Edge : Type 0 where
  pub from : Str
  pub to : Str
  pub relation : Str
  pub annotation : Str

pub record Parent : Type 0 where
  pub from : Str
  pub via : Str
  pub annotation : Str

-- An element of the chain; `via` is undefined until it is set.
pub record Step : Type 0 where
  pub kind : Str
  pub name : Str
  pub id : Str
  pub health : Str
  pub via : Option Str

abbrev pub is_ownership : Edge → Bool
is_ownership e =
    str_eq e.relation (codes "owns")
    || str_eq e.relation (codes "selects")
    || str_eq e.relation (codes "routesTo")

abbrev pub parent_by : Edge → Parent
parent_by e = record { from = e.from; via = e.relation; annotation = e.annotation }

-- The loop that fills `parentMap`.
unfoldable pub parent_map_from : Dict Parent → List Edge → Dict Parent
parent_map_from m [] = m
parent_map_from m (e ∷ es) =
    parent_map_from (if is_ownership e then insert e.to (parent_by e) m else m) es

-- `Object.fromEntries(nodes.map((n) => [n.id, n]))`
unfoldable pub by_id_from : Dict Node → List Node → Dict Node
by_id_from m [] = m
by_id_from m (n ∷ ns) = by_id_from (insert n.id n m) ns

-- `chain.unshift(…)`, if the node is there.
abbrev pub unshift_node : Option Node → List Step → List Step
unshift_node none chain = chain
unshift_node (some n) chain =
    record { kind = n.kind; name = n.name; id = n.id; health = n.health; via = none } ∷ chain

abbrev pub go_up : (Str → Option (List Step)) → List Step → Option Parent → Option (List Step)
go_up rest chain none = some chain
go_up rest chain (some p) = rest p.from

-- The `while` loop; it gives nothing if the fuel runs out. The visited ids stand last first.
module _ (parents : Dict Parent) (by_id : Dict Node) where
  unfoldable pub climb : ℕ → List Str → Str → List Step → Option (List Step)
  climb zero visited cur chain = none
  climb (suc fuel) visited cur chain = elim (is_empty cur || has visited cur) [
    | true ↦ some chain
    | false ↦
        let chain' = unshift_node (lookup cur by_id) chain in
        go_up (λ from. climb fuel (cur ∷ visited) from chain') chain' (lookup cur parents)
  ]

  unfoldable pub ownership_chain : Str → Option (List Step)
  unfolding climb
  ownership_chain target = climb (suc (length parents)) [] target []

abbrev pub is_link : Step → Step → Edge → Bool
is_link a b e = str_eq e.from a.id && str_eq e.to b.id

abbrev pub relation_or : Option Edge → Str
relation_or none = codes "owns"
relation_or (some e) = e.relation or codes "owns"

-- The loop that sets `via` of every element but the last.
unfoldable pub set_via : List Edge → List Step → List Step
set_via edges [] = []
set_via edges (a ∷ []) = a ∷ []
set_via edges (a ∷ b ∷ rest) =
    (record a { via = some (relation_or (find_elem? (is_link a b) edges)) })
    ∷ set_via edges (b ∷ rest)

unfoldable pub walk_ownership_path : Str → List Edge → Dict Node → Option (List Step)
unfolding ownership_chain parent_map_from set_via
walk_ownership_path target edges by_id =
    Option.map (set_via edges) (ownership_chain (parent_map_from [] edges) by_id target)
