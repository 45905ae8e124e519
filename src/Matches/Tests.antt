-- ===== src/Matches/Tests.antt =====
-- Tests of the rows and of the scope, on a deployment with a pod that crashes.
use klew.Matches.Groups.{group_rows_by_kind}
use klew.Matches.Grouped.{group_kinds, is_there, Filled, group_rows_by_kind-Filled}
use klew.Matches.Selected.{smart_default_selected_keys, length-smart_default_selected_keys}
use klew.Base.{
  ◌≤◌, max, length, trim, uniq, Unique, lookup, insert, ℕ, ◌==◌, ◌≡◌, refl, false, not, ◌&&◌, List,
  [], ◌∷◌, some, any, Str, codes, str_eq, includes, to_lower_case, has,
}
use klew.Matches.{Status, critical, degraded, Pod, Container, Ref, pods_for_health}
use klew.Matches.Rows.{
  derive_match_rows, Workload, Service, Snapshot, Match, row_counts, find_service, is_short,
}
use klew.Matches.Critical.{is_critical, is_down, row_counts-critical}
use klew.Matches.Worst.{is_healthy, pick_default_focus}
use klew.Matches.Scope.{HealthRow, pool_of, scope_status}
use klew.Matches.Derived.{derived, scope_status-derive_match_rows}

abbrev crashing : Container
crashing = record {
  reason = codes "CrashLoopBackOff";
  last_reason = [];
  state = codes "waiting";
  last_state = [];
}

abbrev pod : Pod
pod = record {
  name = codes "api-1-x";
  phase = codes "Running";
  signal = [];
  ready = false;
  restart_count = 7;
  owner_refs = [];
  containers = crashing ∷ [];
}

abbrev deployment : Workload
deployment = record {
  kind = codes "Deployment";
  name = codes "api";
  ready = some 0;
  replicas = some 1;
}

abbrev service : Service
service = record { name = codes "api"; ready_endpoints = some 0; total_endpoints = some 1 }

abbrev snapshot : Snapshot
snapshot = record { workloads = deployment ∷ []; pods = pod ∷ []; services = service ∷ [] }

abbrev ref_to : Str → Ref
ref_to kind = record { kind = kind; name = codes "api" }

abbrev match_to : Str → Match
match_to kind = record { ref = ref_to kind; score = 10; match_by = codes "name" }

test_deployment : (row_counts snapshot (ref_to (codes "Deployment"))).status ≡ critical
unfolding row_counts str_eq includes to_lower_case
test_deployment = refl

-- The service of the pod that crashes is degraded only, since its endpoint is not ready.
test_service :
    ((row_counts snapshot (ref_to (codes "Service"))).status ≡ degraded)
    × ((row_counts snapshot (ref_to (codes "Service"))).signal ≡ some (codes "CrashLoopBackOff"))
unfolding row_counts str_eq includes to_lower_case
test_service = (refl, refl)

test_scope :
    (scope_status
      (derived snapshot (match_to (codes "Service") ∷ match_to (codes "Deployment") ∷ []))).label
    ≡ codes "CRITICAL"
unfolding scope_status row_counts str_eq includes to_lower_case has derive_match_rows
test_scope = refl

row_counts-critical_example :
    is_critical (row_counts snapshot (ref_to (codes "Service"))).status ≡ (
      any is_down (pods_for_health (ref_to (codes "Service")) snapshot.pods)
      && not (is_short (find_service snapshot (ref_to (codes "Service")))))
row_counts-critical_example = row_counts-critical snapshot (ref_to (codes "Service"))

abbrev row : Str → Status → ℕ → HealthRow
row key status score = record {
  key = key;
  kind = codes "Pod";
  status = status;
  score = score;
  phase = [];
  signal = [];
}

abbrev rows : List HealthRow
rows = row (codes "b") degraded 9 ∷ row (codes "c") critical 5 ∷ row (codes "d") critical 5 ∷ []

test_focus :
    pick_default_focus (λ (r : HealthRow). r.key) (λ r. r.status) (λ r. r.score) rows
    ≡ some (codes "c")
unfolding pick_default_focus
test_focus = refl

scope_status-derive_match_rows_example :
    (is_critical (scope_status (derived snapshot (match_to (codes "Deployment") ∷ []))).status
      ≡ any
          (λ r. is_critical r.status)
          (pool_of (derived snapshot (match_to (codes "Deployment") ∷ []))))
    × (is_healthy (scope_status (derived snapshot (match_to (codes "Deployment") ∷ []))).status ≡ (
        (scope_status (derived snapshot (match_to (codes "Deployment") ∷ []))).unhealthy_count
        == 0))
scope_status-derive_match_rows_example =
    scope_status-derive_match_rows snapshot (match_to (codes "Deployment")) []

abbrev kind : HealthRow → Str
kind r = r.kind

group_rows_by_kind-Filled_example :
    Unique (group_kinds kind (group_rows_by_kind kind rows))
    × ((k : Str) → has (group_kinds kind (group_rows_by_kind kind rows)) k ≡ is_there kind rows k)
    × Filled kind rows (group_rows_by_kind kind rows)
group_rows_by_kind-Filled_example = group_rows_by_kind-Filled kind rows

-- Known kinds come first.
test_groups :
    group_kinds
      (λ (s : Str). s)
      (group_rows_by_kind
        (λ (s : Str). s)
        (codes "Lease" ∷ codes "Pod" ∷ codes "Lease" ∷ codes "Job" ∷ []))
    ≡ codes "Job" ∷ codes "Pod" ∷ codes "Lease" ∷ []
unfolding group_rows_by_kind has str_eq lookup insert
test_groups = refl

length-smart_default_selected_keys_example :
    length (
      smart_default_selected_keys 12
        (codes "api")
        (match_to (codes "Service") ∷ match_to (codes "Pod") ∷ []))
    ≤ max 5 12
length-smart_default_selected_keys_example =
    length-smart_default_selected_keys 12 (codes "api")
      (match_to (codes "Service") ∷ match_to (codes "Pod") ∷ [])

-- Of six matches without a query the root is checked alone.
test_selected :
    smart_default_selected_keys 12 [] (
      match_to (codes "Pod")
      ∷ match_to (codes "Secret")
      ∷ match_to (codes "Job")
      ∷ match_to (codes "Role")
      ∷ match_to (codes "Ingress")
      ∷ match_to (codes "Service")
      ∷ [])
    ≡ codes "Job/api" ∷ []
unfolding smart_default_selected_keys trim has uniq str_eq
test_selected = refl
