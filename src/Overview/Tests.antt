-- ===== src/Overview/Tests.antt =====
-- Tests of the relationship path, on a graph with a deployment and on one that is a cycle.
use klew.Base.{
  Free, arith, ◌≡◌, refl, List, [], ◌∷◌, map, Option, none, some, Str, codes, str_eq, has, insert,
  lookup, Unique,
}
use klew.Overview.{Node, Edge, Step, by_id_from, set_via, walk_ownership_path}
use klew.Overview.Parents.{last_parent, last_node}
use klew.Overview.Climb.{Tops, steps_of, walk_ownership_path-Tops}
use klew.Overview.Path.{anchor_candidates, build_relationship_path}
use klew.Overview.Search.{KindsFree, first_some, path_of, build_relationship_path-first}

abbrev deployment : Node
deployment = record { id = codes "d"; kind = codes "Deployment"; name = codes "api"; health = [] }

abbrev replica_set : Node
replica_set = record {
  id = codes "r";
  kind = codes "ReplicaSet";
  name = codes "api-1";
  health = [];
}

abbrev pod : Node
pod = record {
  id = codes "p";
  kind = codes "Pod";
  name = codes "api-1-x";
  health = codes "critical";
}

abbrev edge : Str → Str → Str → Edge
edge from to relation = record { from = from; to = to; relation = relation; annotation = [] }

abbrev graph_nodes : List Node
graph_nodes = deployment ∷ replica_set ∷ pod ∷ []

abbrev graph_edges : List Edge
graph_edges =
    edge (codes "d") (codes "r") (codes "owns")
    ∷ edge (codes "r") (codes "p") (codes "owns")
    ∷ edge (codes "p") (codes "d") (codes "mounts")
    ∷ []

test_path :
    build_relationship_path graph_nodes graph_edges none []
    ≡ some (
        some (
          record { kind = codes "Deployment"; name = codes "api"; health = []; via = none }
          ∷ record {
            kind = codes "ReplicaSet";
            name = codes "api-1";
            health = [];
            via = some (codes "owns");
          }
          ∷ record {
            kind = codes "Pod";
            name = codes "api-1-x";
            health = codes "critical";
            via = some (codes "owns");
          }
          ∷ []))
unfolding build_relationship_path str_eq has insert lookup
test_path = refl

-- A cycle of ownership is climbed once.
abbrev cycle_edges : List Edge
cycle_edges =
    edge (codes "r") (codes "p") (codes "owns")
    ∷ edge (codes "p") (codes "r") (codes "selects")
    ∷ []

abbrev step_ids : Option (List Step) → List Str
step_ids none = []
step_ids (some path) = map (λ (s : Step). s.id) path

test_cycle :
    step_ids (walk_ownership_path (codes "p") cycle_edges (by_id_from [] graph_nodes))
    ≡ codes "r" ∷ codes "p" ∷ []
unfolding walk_ownership_path by_id_from str_eq has insert lookup
test_cycle = refl

walk_ownership_path-Tops_example :
    (visited : List Str) × Unique visited
    × Tops (λ id. last_parent id cycle_edges none) (codes "p") visited
    × (walk_ownership_path (codes "p") cycle_edges (by_id_from [] graph_nodes)
        ≡ some (set_via cycle_edges (steps_of (λ id. last_node id graph_nodes none) visited)))
walk_ownership_path-Tops_example = walk_ownership_path-Tops graph_nodes cycle_edges (codes "p")

pod-Free : Free 47 (codes "Pod")
pod-Free = omega arith

candidates-KindsFree : KindsFree (anchor_candidates none graph_nodes [])
unfolding str_eq
candidates-KindsFree = (pod-Free, (pod-Free, tt))

build_relationship_path-first_example :
    build_relationship_path graph_nodes graph_edges none []
    ≡ some (first_some (path_of graph_nodes graph_edges) (anchor_candidates none graph_nodes []))
build_relationship_path-first_example =
    build_relationship_path-first graph_nodes graph_edges none [] candidates-KindsFree
