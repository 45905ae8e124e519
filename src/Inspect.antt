-- ===== src/Inspect.antt =====
-- The keys by which objects are inspected, of lib/matches.js. A kind that names a member of
-- Object.prototype is taken for one that has no alias.
pub mod Kinds
pub mod Keys
pub mod Matching
mod Tests
use klew.Base.{
  ℕ, ◌==◌, Bool, true, false, not, ◌&&◌, ◌||◌, List, [], ◌∷◌, ◌++◌, Option, none, some,
  if◌then◌else◌, Str, codes, str_eq, is_empty, has, keep, find_elem?, join, trim, to_lower_case,
  ◌or◌,
}

-- Kinds that are looked up without a namespace.
abbrev pub cluster_scoped_kinds : List Str
cluster_scoped_kinds =
    codes "Node"
    ∷ codes "Namespace"
    ∷ codes "PersistentVolume"
    ∷ codes "StorageClass"
    ∷ codes "ClusterRole"
    ∷ codes "ClusterRoleBinding"
    ∷ codes "ClusterPolicy"
    ∷ []

abbrev pub kind_aliases : List (Str × Str)
kind_aliases =
    (codes "pvc", codes "PersistentVolumeClaim")
    ∷ (codes "persistentvolumeclaim", codes "PersistentVolumeClaim")
    ∷ (codes "pv", codes "PersistentVolume")
    ∷ (codes "persistentvolume", codes "PersistentVolume")
    ∷ (codes "hpa", codes "HorizontalPodAutoscaler")
    ∷ (codes "horizontalpodautoscaler", codes "HorizontalPodAutoscaler")
    ∷ (codes "sa", codes "ServiceAccount")
    ∷ (codes "serviceaccount", codes "ServiceAccount")
    ∷ (codes "cm", codes "ConfigMap")
    ∷ (codes "configmap", codes "ConfigMap")
    ∷ (codes "deploy", codes "Deployment")
    ∷ (codes "deployment", codes "Deployment")
    ∷ (codes "sts", codes "StatefulSet")
    ∷ (codes "statefulset", codes "StatefulSet")
    ∷ (codes "ds", codes "DaemonSet")
    ∷ (codes "daemonset", codes "DaemonSet")
    ∷ (codes "rs", codes "ReplicaSet")
    ∷ (codes "replicaset", codes "ReplicaSet")
    ∷ (codes "ing", codes "Ingress")
    ∷ (codes "ingress", codes "Ingress")
    ∷ (codes "svc", codes "Service")
    ∷ (codes "service", codes "Service")
    ∷ (codes "ns", codes "Namespace")
    ∷ (codes "namespace", codes "Namespace")
    ∷ (codes "sc", codes "StorageClass")
    ∷ (codes "storageclass", codes "StorageClass")
    ∷ (codes "netpol", codes "NetworkPolicy")
    ∷ (codes "networkpolicy", codes "NetworkPolicy")
    ∷ (codes "cj", codes "CronJob")
    ∷ (codes "cronjob", codes "CronJob")
    ∷ []

abbrev pub alias_in : List (Str × Str) → Str → Str
alias_in [] k = []
alias_in ((a, kind) ∷ rest) k = if str_eq a k then kind else alias_in rest k

unfoldable pub normalize_inspect_kind : Str → Str
normalize_inspect_kind kind = let k = trim kind in alias_in kind_aliases (to_lower_case k) or k

unfoldable pub is_cluster_scoped : Str → Bool
is_cluster_scoped kind = has cluster_scoped_kinds kind

-- The template literals of `buildInspectKey`.
abbrev pub key_of : Str → Str → Str → Str
key_of k n ns =
    if not (is_empty ns) && not (is_cluster_scoped k) then k ++ 47 ∷ (ns ++ 47 ∷ n) else k ++ 47 ∷ n

unfoldable pub build_inspect_key : Str → Str → Str → Str
unfolding normalize_inspect_kind is_cluster_scoped
build_inspect_key kind name namespace =
    let k = normalize_inspect_kind kind in
    let n = trim name in
    let ns = trim namespace in if is_empty k || is_empty n then [] else key_of k n ns

pub record Parsed : Type 0 where
  pub kind : Str
  pub name : Str
  pub namespace : Str
  pub key : Str

abbrev pub cons_head : ℕ → List Str → List Str
cons_head c [] = (c ∷ []) ∷ []
cons_head c (w ∷ ws) = (c ∷ w) ∷ ws

-- `key.split('/')`
unfoldable pub split_key : Str → List Str
split_key [] = [] ∷ []
split_key (c ∷ s) = let rest = split_key s in if c == 47 then [] ∷ rest else cons_head c rest

abbrev pub key_parts : Str → List Str
key_parts key = keep (λ p. not (is_empty p)) (split_key key)

-- Of a kind that has no namespace.
abbrev pub parsed_cluster : Str → Str → Parsed
parsed_cluster kind name = record {
  kind = kind;
  name = name;
  namespace = [];
  key = build_inspect_key kind name [];
}

-- `parseInspectKey` from the parts on; a part is never empty.
abbrev pub parse_rest : Str → List Str → Option Parsed
parse_rest kind [] = none
parse_rest kind (name ∷ []) = some (parsed_cluster kind name)
parse_rest kind (namespace ∷ p ∷ ps) =
    if is_cluster_scoped kind
    then some (parsed_cluster kind (join (codes "/") (namespace ∷ p ∷ ps)))
    else some (record {
      kind = kind;
      name = join (codes "/") (p ∷ ps);
      namespace = namespace;
      key = build_inspect_key kind (join (codes "/") (p ∷ ps)) namespace;
    })

abbrev pub parse_parts : List Str → Option Parsed
parse_parts [] = none
parse_parts (p ∷ ps) =
    let kind = normalize_inspect_kind p in if is_empty kind then none else parse_rest kind ps

unfoldable pub parse_inspect_key : Str → Option Parsed
unfolding split_key build_inspect_key normalize_inspect_kind
parse_inspect_key key = parse_parts (key_parts key)

abbrev pub same_object : Option Parsed → Option Parsed → Bool
same_object none b = false
same_object (some a) none = false
same_object (some a) (some b) =
    str_eq a.kind b.kind
    && str_eq a.name b.name
    && (is_empty a.namespace || is_empty b.namespace || str_eq a.namespace b.namespace)

unfoldable pub row_keys_match : Str → Str → Bool
unfolding parse_inspect_key
row_keys_match a b =
    if is_empty a || is_empty b
    then false
    else str_eq a b || same_object (parse_inspect_key a) (parse_inspect_key b)

abbrev pub canonical_of : Str → Str → Option Parsed → Str
canonical_of key fallback none = key
canonical_of key fallback (some p) =
    build_inspect_key p.kind p.name (p.namespace or trim fallback) or key

unfoldable pub canonical_inspect_key : Str → Str → Str
unfolding parse_inspect_key build_inspect_key
canonical_inspect_key key fallback_namespace =
    canonical_of key fallback_namespace (parse_inspect_key key)

module _ {ℓ} {R : Type ℓ} (row_key : R → Str) where
  unfoldable pub find_row_by_key : List R → Str → Option R
  unfolding row_keys_match
  find_row_by_key rows key =
      if is_empty key then none else find_elem? (λ r. row_keys_match (row_key r) key) rows
