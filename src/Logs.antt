-- ===== src/Logs.antt =====
-- lib/drain.js: the clustering of log lines by a tree of their first tokens. A cluster is shared
-- between the list of all clusters and the nodes of the tree, so nodes hold its place in the list.
pub mod Tree
pub mod Merge
pub mod Templates
pub mod Totals
pub mod Places
pub mod Adds
mod Tests
use klew.Base.{
  ℕ, zero, suc, ◌+◌, ◌*◌, ◌-◌, leb, ltb, ◌==◌, max, Bool, true, false, not, ◌&&◌, ◌||◌, List, [],
  ◌∷◌, ◌++◌, Option, none, some, if◌then◌else◌, Str, codes, str_eq, is_empty, length, get_elem?,
  keep, has, ◌or◌,
}
use klew.Logs.Tree.{Node, empty_node, leaf_of, set_leaf, drain_wildcard}

pub record Cluster : Type 0 where
  -- the first number of `id`; the second is the length of the first message
  pub number : ℕ
  pub first_length : ℕ
  pub template : List Str
  pub count : ℕ
  pub severity : Str
  pub pods : List Str
  pub samples : List Str
  pub times : List ℕ

-- A missing field is 0 or the empty text. A weight is a whole number.
pub record Meta : Type 0 where
  pub weight : ℕ
  pub pod : Str
  pub ts : ℕ
  pub sample : Str
  pub severity : Str

-- `similarityThreshold` is a fraction.
pub record Options : Type 0 where
  pub depth : ℕ
  pub threshold_num : ℕ
  pub threshold_den : ℕ
  pub max_children : ℕ

abbrev pub default_options : Options
default_options = record { depth = 4; threshold_num = 1; threshold_den = 2; max_children = 80 }

pub record Drain : Type 0 where
  -- `root`: the length of a message, to a node
  pub root : List (ℕ × Node)
  pub clusters : List Cluster

abbrev pub empty_drain : Drain
empty_drain = record { root = []; clusters = [] }

-- `SEV_RANK`, in tenths
abbrev pub sev_ranks : List (Str × ℕ)
sev_ranks =
    (codes "critical", 50)
    ∷ (codes "fatal", 50)
    ∷ (codes "high", 40)
    ∷ (codes "error", 40)
    ∷ (codes "warning", 20)
    ∷ (codes "warn", 20)
    ∷ (codes "info", 10)
    ∷ (codes "debug", 5)
    ∷ (codes "trace", 3)
    ∷ []

abbrev pub rank_in : List (Str × ℕ) → Str → ℕ
rank_in [] s = 0
rank_in ((k, r) ∷ rs) s = if str_eq k s then r else rank_in rs s

unfoldable pub sev_rank : Str → ℕ
sev_rank s = rank_in sev_ranks s

abbrev pub add_pod : Str → List Str → List Str
add_pod p ps = if has ps p then ps else ps ++ p ∷ []

abbrev pub push_sample : Str → List Str → List Str
push_sample s ss = if ltb (length ss) 5 then ss ++ s ∷ [] else ss

abbrev pub worse : Str → Str → Str
worse s old = if ltb (sev_rank old) (sev_rank s) then s else old

unfoldable pub absorb_meta : Meta → Cluster → Cluster
absorb_meta m c = record c {
  pods = if is_empty m.pod then c.pods else add_pod m.pod c.pods;
  times = if m.ts == 0 then c.times else c.times ++ m.ts ∷ [];
  samples = if is_empty m.sample then c.samples else push_sample m.sample c.samples;
  severity = if is_empty m.severity then c.severity else worse m.severity c.severity;
}

-- How many places of two equally long lists hold the same token.
abbrev pub equal_tokens : List Str → List Str → ℕ
equal_tokens (a ∷ xs) (b ∷ ys) =
    let rest = equal_tokens xs ys in
    if str_eq a drain_wildcard || str_eq b drain_wildcard
    then rest
    else if str_eq a b
    then suc rest
    else rest
equal_tokens xs ys = 0

-- `clusterSimilarity`, times the number of tokens
unfoldable pub cluster_similarity : List Str → List Str → ℕ
cluster_similarity template tokens =
    if length template == 0 || not (length template == length tokens)
    then 0
    else equal_tokens template tokens

unfoldable pub merge_template : List Str → List Str → List Str
merge_template [] tokens = []
merge_template (a ∷ xs) [] = drain_wildcard ∷ merge_template xs []
merge_template (a ∷ xs) (b ∷ ys) = (if str_eq a b then a else drain_wildcard) ∷ merge_template xs ys

abbrev pub template_of : Option Cluster → List Str
template_of none = []
template_of (some c) = c.template

-- The best cluster so far, with its similarity.
abbrev pub better : Option (ℕ × ℕ) → ℕ → ℕ → Option (ℕ × ℕ)
better none i sim = some (i, sim)
better (some (j, b)) i sim = if ltb b sim then some (i, sim) else some (j, b)

unfoldable pub best_from : List Cluster → List Str → List ℕ → Option (ℕ × ℕ) → Option (ℕ × ℕ)
best_from cs seq [] best = best
best_from cs seq (i ∷ ids) best =
    best_from cs seq ids (better best i (cluster_similarity (template_of (get_elem? cs i)) seq))

abbrev pub weight_of : Meta → ℕ
weight_of m = if m.weight == 0 then 1 else m.weight

abbrev pub modify : ℕ → (Cluster → Cluster) → List Cluster → List Cluster
modify i f [] = []
modify zero f (c ∷ cs) = f c ∷ cs
modify (suc i) f (c ∷ cs) = c ∷ modify i f cs

unfoldable pub merged : List Str → Meta → Cluster → Cluster
unfolding absorb_meta merge_template
merged seq m c =
    absorb_meta m
      (record c { template = merge_template c.template seq; count = c.count + weight_of m })

unfoldable pub new_cluster : ℕ → List Str → Meta → Cluster
unfolding absorb_meta
new_cluster number seq m = absorb_meta m (record {
  number = number;
  first_length = length seq;
  template = seq;
  count = weight_of m;
  severity = m.severity or codes "info";
  pods = [];
  samples = [];
  times = [];
})

-- The clusters and the node's list after the choice, and the cluster chosen.
pub record Placed : Type 0 where
  pub clusters : List Cluster
  pub ids : List ℕ
  pub chosen : ℕ

abbrev pub begin_cluster : List Str → Meta → List Cluster → List ℕ → Placed
begin_cluster seq m cs ids = record {
  clusters = cs ++ new_cluster (length cs) seq m ∷ [];
  ids = ids ++ length cs ∷ [];
  chosen = length cs;
}

abbrev pub place_best : Options → List Str → Meta → List Cluster → List ℕ → Option (ℕ × ℕ) → Placed
place_best o seq m cs ids none = begin_cluster seq m cs ids
place_best o seq m cs ids (some (i, sim)) =
    if leb (o.threshold_num * length seq) (sim * o.threshold_den)
    then record { clusters = modify i (merged seq m) cs; ids = ids; chosen = i }
    else begin_cluster seq m cs ids

unfoldable pub place : Options → List Str → Meta → List Cluster → List ℕ → Placed
unfolding best_from
place o seq m cs ids = place_best o seq m cs ids (best_from cs seq ids none)

abbrev pub node_at : ℕ → List (ℕ × Node) → Node
node_at len [] = empty_node
node_at len ((l, n) ∷ root) = if l == len then n else node_at len root

abbrev pub put_node : ℕ → Node → List (ℕ × Node) → List (ℕ × Node)
put_node len n [] = (len, n) ∷ []
put_node len n ((l, old) ∷ root) =
    if l == len then (l, n) ∷ root else (l, old) ∷ put_node len n root

abbrev pub max_layer : Options → ℕ
max_layer o = max 3 o.depth - 2

abbrev pub add_seq : Options → List Str → Meta → Drain → Drain × Option ℕ
add_seq o [] m d = (d, none)
add_seq o (t ∷ ts) m d =
    let len = length (t ∷ ts) in
    let node = node_at len d.root in
    let r = place o (t ∷ ts) m d.clusters (leaf_of o.max_children (max_layer o) (t ∷ ts) node) in
    (
      record {
        root = put_node len (set_leaf o.max_children (max_layer o) (t ∷ ts) r.ids node) d.root;
        clusters = r.clusters;
      },
      some r.chosen,
    )

abbrev pub present_tokens : List Str → List Str
present_tokens tokens = keep (λ t. not (is_empty t)) tokens

-- `add`: the cluster it returns, `none` where it returns `null`
unfoldable pub add : Options → List Str → Meta → Drain → Drain × Option ℕ
unfolding place
add o tokens m d = add_seq o (present_tokens tokens) m d

-- Calls of `add` one after the other, with what each returned.
unfoldable pub add_all : Options → List (List Str × Meta) → Drain → Drain × List (Option ℕ)
add_all o [] d = (d, [])
add_all o ((tokens, m) ∷ ms) d =
    let (d1, i) = add o tokens m d in let (d2, is) = add_all o ms d1 in (d2, i ∷ is)
