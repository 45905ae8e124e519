-- ===== src/Overview/Climb.antt =====
-- The `while` loop of `walkOwnershipPath` ends, and climbs from its target to the top.
use mathlib.Core.Option
use klew.Base.{
  subst, ℕ, zero, suc, ◌+◌, ◌<◌, ◌≡◌, refl, ap, ◌∙◌, true, false, ◌||◌, List, [], ◌∷◌, Option, none,
  some, length, all, Str, is_empty, has, Dict, lookup, Unique, length-le_of_Unique, Bool-cases,
  Option-cases, inl, inr, ◌⊎◌, arith,
}
use klew.Overview.{
  Node, Edge, Parent, Step, unshift_node, climb, ownership_chain, parent_map_from, by_id_from,
  set_via, walk_ownership_path,
}
use klew.Overview.Parents.{
  keys, has-keys, last_parent, last_node, lookup-parent_map_from, lookup-by_id_from,
}

-- The ids, last first, lead by parents from a target to an id.
abbrev pub Reaches : (Str → Option Parent) → Str → List Str → Str → Type 0
Reaches up target [] cur = target ≡ cur
Reaches up target (v ∷ vs) cur =
    ((p : Parent) × (up v ≡ some p) × (p.from ≡ cur)) × Reaches up target vs v

-- They lead to an id that has no parent and is the last, or to one that is empty or among them.
abbrev pub Tops : (Str → Option Parent) → Str → List Str → Type 0
Tops up target [] = target ≡ []
Tops up target (v ∷ vs) =
    Reaches up target vs v
    × ((up v ≡ none)
        ⊎ ((p : Parent) × (up v ≡ some p) × ((is_empty p.from || has (v ∷ vs) p.from) ≡ true)))

-- The elements of the chain for the ids, as far as they have nodes.
abbrev pub steps_of : (Str → Option Node) → List Str → List Step
steps_of node_at [] = []
steps_of node_at (v ∷ vs) = unshift_node (node_at v) (steps_of node_at vs)

module _ (parents : Dict Parent) (by_id : Dict Node) (target : Str) where
  abbrev up : Str → Option Parent
  up id = lookup id parents

  abbrev nodes_of : List Str → List Step
  nodes_of = steps_of (λ id. lookup id by_id)

  length-keys : (m : Dict Parent) → length (keys m) ≡ length m
  length-keys [] = refl
  length-keys ((k, v) ∷ m) = ap suc (length-keys m)

  -- A stop at an id that is empty or visited.
  stop-Tops :
      (visited : List Str) (cur : Str)
      → Reaches up target visited cur
      → (is_empty cur || has visited cur) ≡ true
      → Tops up target visited
  unfolding has
  stop-Tops [] [] r stop = r
  stop-Tops [] (c ∷ cs) r stop = absurd (ground arith)
  stop-Tops (v ∷ vs) cur ((p, e, f), r) stop = (r, inr (p, e, rw f stop))

  climb_ends :
      (fuel : ℕ) (visited : List Str) (cur : Str)
      → length parents < fuel + length visited
      → Unique visited
      → all (has (keys parents)) visited ≡ true
      → Reaches up target visited cur
      → (ids : List Str) × Unique ids
        × Tops up target ids
        × (climb parents by_id fuel visited cur (nodes_of visited) ≡ some (nodes_of ids))
  unfolding climb
  climb_ends zero visited cur short u known r =
      absurd
        (omega (arith, length-le_of_Unique visited (keys parents) u known, length-keys parents))
  climb_ends (suc fuel) visited cur short u known r =
      elim (Bool-cases (is_empty cur || has visited cur)) [
        | inl stop ↦ (visited, u, stop-Tops visited cur r stop, rw (climb, stop) refl)
        | inr on ↦ elim (Option-cases (lookup cur parents)) [
          | inl top ↦ (cur ∷ visited, (fresh on, u), (r, inl top), rw (climb, on, top) refl)
          | inr (p, e) ↦
              let (ids, v, t, f) =
                climb_ends fuel (cur ∷ visited) p.from (omega arith) (fresh on, u)
                  (rw (has-keys cur parents {v = p} e) known) ((p, e, refl), r) in
              (ids, v, t, rw (climb, on, e) f)
        ]
      ]
    where
      fresh : (is_empty cur || has visited cur) ≡ false → has visited cur ≡ false
      fresh h = ground arith

  -- The loop ends, at the top, having visited no id twice.
  pub ownership_chain-Tops :
      (ids : List Str) × Unique ids
      × Tops up target ids
      × (ownership_chain parents by_id target ≡ some (nodes_of ids))
  unfolding ownership_chain
  ownership_chain-Tops = climb_ends (suc (length parents)) [] target (omega arith) tt refl refl

-- The walk ends, whatever the edges. It has visited no id twice, from the target up to one
-- without a parent or to one whose parent is empty or was visited, by the last edges of ownership;
-- its chain has the last node of each of these ids that has one, from the top to the target.
pub walk_ownership_path-Tops :
    (nodes : List Node) (edges : List Edge) (target : Str)
    → (ids : List Str) × Unique ids
      × Tops (λ id. last_parent id edges none) target ids
      × (walk_ownership_path target edges (by_id_from [] nodes)
          ≡ some (set_via edges (steps_of (λ id. last_node id nodes none) ids)))
unfolding walk_ownership_path lookup
walk_ownership_path-Tops nodes edges target =
    let (ids, u, t, e) =
      ownership_chain-Tops (parent_map_from [] edges) (by_id_from [] nodes) target in
    let parents : (λ id. lookup id (parent_map_from [] edges)) ≡ (λ id. last_parent id edges none) =
      λ i id. lookup-parent_map_from id [] edges i in
    let nodes_at : (λ id. lookup id (by_id_from [] nodes)) ≡ (λ id. last_node id nodes none) =
      λ i id. lookup-by_id_from id [] nodes i in
    (
      ids,
      u,
      subst (λ (f : Str → Option Parent). Tops f target ids) parents t,
      ap (Option.map (set_via edges))
          (e ∙ ap (λ (f : Str → Option Node). some (steps_of f ids)) nodes_at),
    )
