-- ===== src/Matches/Groups.antt =====
-- `groupRowsByKind`, `groupByKind` and `filterByScope` of lib/matches.js. The rows of `byKind` are
-- in the order in which their kinds come; a kind that is a number or that names a member of
-- Object.prototype is left aside.
use klew.Base.{
  ℕ, not, List, [], ◌∷◌, ◌++◌, map, keep, leb, ltb, length, if◌then◌else◌, Str, codes, str_eq, has,
  ◌or_else◌, Dict, lookup, insert,
}
use klew.Matches.Rows.{Match, match_key}
use klew.Matches.Worst.{sort}

-- KIND_ORDER with the labels of KIND_DISPLAY, which has the same keys in the same order.
abbrev pub kind_display : List (Str × Str)
kind_display =
    (codes "Deployment", codes "Deployments")
    ∷ (codes "StatefulSet", codes "StatefulSets")
    ∷ (codes "DaemonSet", codes "DaemonSets")
    ∷ (codes "ReplicaSet", codes "ReplicaSets")
    ∷ (codes "Job", codes "Jobs")
    ∷ (codes "CronJob", codes "CronJobs")
    ∷ (codes "Pod", codes "Pods")
    ∷ (codes "Service", codes "Services")
    ∷ (codes "Ingress", codes "Ingresses")
    ∷ (codes "NetworkPolicy", codes "NetworkPolicies")
    ∷ (codes "HorizontalPodAutoscaler", codes "HPAs")
    ∷ (codes "PodDisruptionBudget", codes "PDBs")
    ∷ (codes "ConfigMap", codes "ConfigMaps")
    ∷ (codes "Secret", codes "Secrets")
    ∷ (codes "PersistentVolumeClaim", codes "PVCs")
    ∷ (codes "ServiceAccount", codes "ServiceAccounts")
    ∷ (codes "Role", codes "Roles")
    ∷ (codes "RoleBinding", codes "RoleBindings")
    ∷ (codes "LimitRange", codes "LimitRanges")
    ∷ (codes "ResourceQuota", codes "ResourceQuotas")
    ∷ []

abbrev pub kind_order : List Str
kind_order = map (λ (k : Str × Str). k.0) kind_display

unfoldable pub display_label : List (Str × Str) → Str → Str
display_label [] kind = kind
display_label ((k, label) ∷ rest) kind = if str_eq k kind then label else display_label rest kind

abbrev pub dict_keys {ℓ} : {V : Type ℓ} → Dict V → List Str
dict_keys [] = []
dict_keys ((k, v) ∷ m) = k ∷ dict_keys m

pub record RowGroup {ℓ} (R : Type ℓ) : Type ℓ where
  pub kind : Str
  pub label : Str
  pub items : List R

-- `kind_of` gives a row's kind, 'Unknown' where it has none.
module _ {ℓ} {R : Type ℓ} (kind_of : R → Str) where
  -- `byKind[kind]`, and no row where that is undefined
  abbrev pub rows_at : Str → Dict (List R) → List R
  rows_at k d = lookup k d or_else []

  unfoldable pub by_kind_from : Dict (List R) → List R → Dict (List R)
  by_kind_from d [] = d
  by_kind_from d (r ∷ rs) = by_kind_from (insert (kind_of r) (rows_at (kind_of r) d ++ r ∷ []) d) rs

  abbrev pub known_group : Dict (List R) → Str → RowGroup R
  known_group d k = record { kind = k; label = display_label kind_display k; items = rows_at k d }

  abbrev pub other_group : Dict (List R) → Str → RowGroup R
  other_group d k = record { kind = k; label = k; items = rows_at k d }

  abbrev pub groups_of : Dict (List R) → List (RowGroup R)
  groups_of d =
      map (known_group d) (keep (λ k. not (leb (length (rows_at k d)) 0)) kind_order)
      ++ map (other_group d) (keep (λ k. not (has kind_order k)) (dict_keys d))

  unfoldable pub group_rows_by_kind : List R → List (RowGroup R)
  unfolding by_kind_from display_label
  group_rows_by_kind rows = groups_of (by_kind_from [] rows)

  abbrev pub sort_items : (R → ℕ) → RowGroup R → RowGroup R
  sort_items score g = record g { items = sort (λ a b. ltb (score b) (score a)) g.items }

  -- The groups are the same; the items of each are sorted.
  unfoldable pub group_by_kind : (R → ℕ) → List R → List (RowGroup R)
  unfolding group_rows_by_kind sort
  group_by_kind score rows = map (sort_items score) (group_rows_by_kind rows)

-- The scope is a set of keys; none given is the empty one.
unfoldable pub filter_by_scope : List Match → List Str → List Match
unfolding match_key
filter_by_scope matches [] = matches
filter_by_scope matches (k ∷ ks) = keep (λ (m : Match). has (k ∷ ks) (match_key m.ref)) matches
