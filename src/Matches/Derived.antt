-- ===== src/Matches/Derived.antt =====
-- The scope status of the rows that `deriveMatchRows` derives.
use klew.Base.{
  keep, ℕ, ◌==◌, ◌≡◌, refl, true, ◌&&◌, List, [], ◌∷◌, map, Option, none, some, all, any, ltb,
  length, if_both, ◌or_else◌, arith,
}
use klew.Matches.{
  status_rank, Ref, Pod, Container, Health, health_of, healthy, container_health, pod_status,
  worse_health, worst_from, worst_pod_status, pods_for_health,
}
use klew.Matches.Critical.{is_critical}
use klew.Matches.Worst.{is_healthy}
use klew.Matches.Rows.{
  Workload, Service, Counts, Snapshot, Match, MatchRow, is_silent, ready_count, workload_ready,
  workload_total, endpoints_ready, endpoints_total, restart_sum, first_counts, count_workload,
  judge_pods, or_counts, count_pods, is_short, count_service, count_single,
  reconcile_workload_health, find_workload, find_service, row_counts, derive_row, derive_match_rows,
}
use klew.Matches.Scope.{
  HealthRow, pool_of, worst_of, or_all, status_from, scope_health_rows, scope_status, shows_health,
}
use klew.Matches.Agreement.{
  is_known, status_known, status_from-critical, status_from-healthy, all-keep,
}

container_health-known : (cs : List Container) → is_known (container_health cs).status ≡ true
unfolding container_health
container_health-known [] = refl
container_health-known (c ∷ cs) = ground (arith, container_health-known cs)

pod_status-known : (p : Pod) → is_known (pod_status p).status ≡ true
unfolding pod_status
pod_status-known p = ground (arith, container_health-known p.containers)

worst_from-known :
    (worst : Health) (ps : List Pod)
    → is_known worst.status ≡ true
    → is_known (worst_from worst ps).status ≡ true
unfolding worst_from
worst_from-known worst [] e = e
worst_from-known worst (p ∷ ps) e = worst_from-known (worse_health (pod_status p) worst) ps (
    if_both (λ (h : Health). is_known h.status ≡ true) (ltb (pod_status p).rank worst.rank)
      (pod_status-known p) e)

worst_pod_status-known : (ps : List Pod) → is_known (worst_pod_status ps).status ≡ true
unfolding worst_pod_status
worst_pod_status-known ps = worst_from-known (health_of healthy none) ps refl

-- The status that the local variables hold is one of those that are known.
abbrev Known : Counts → Type 0
Known s = is_known s.status ≡ true

or_counts-Known : (ready total : ℕ) (s : Counts) → Known s → Known (or_counts ready total s)
or_counts-Known ready total s e =
    elim s.ready as (λ (r : Option ℕ). Known (or_counts ready total (record s { ready = r }))) [
      | none ↦ e
      | some n ↦ e
    ]

count_workload-Known : (w : Option Workload) → Known (count_workload w first_counts)
count_workload-Known none = refl
count_workload-Known (some w) = if_both Known (ltb (workload_ready w) (workload_total w)) refl refl

judge_pods-Known : (ps : List Pod) (s : Counts) → Known s → Known (judge_pods ps s)
judge_pods-Known ps s e =
    if_both Known (ltb (worst_pod_status ps).rank (status_rank s.status))
      (worst_pod_status-known ps)
      (if_both Known (is_silent s.signal && ltb (ready_count ps) (length ps)) refl e)

count_pods-Known : (ps : List Pod) (s : Counts) → Known s → Known (count_pods ps s)
count_pods-Known [] s e = e
count_pods-Known (p ∷ ps) s e =
    judge_pods-Known (p ∷ ps) _
      (or_counts-Known _ _ (record s { restarts = restart_sum (p ∷ ps) }) e)

count_service-Known : (v : Option Service) (s : Counts) → Known s → Known (count_service v s)
count_service-Known none s e = e
count_service-Known (some v) s e =
    or_counts-Known (endpoints_ready v) (endpoints_total v) _
      (if_both Known (is_short (some v)) refl e)

count_single-Known :
    (ref : Ref) (ps : List Pod) (s : Counts) → Known s → Known (count_single ref ps s)
count_single-Known ref [] s e = e
count_single-Known ref (p ∷ q ∷ ps) s e = e
count_single-Known ref (p ∷ []) s e = if_both Known _ (worst_pod_status-known (p ∷ [])) e

reconcile_workload_health-Known :
    (w : Option Workload) (ps : List Pod) (s : Counts)
    → Known s
    → Known (reconcile_workload_health w ps s)
unfolding reconcile_workload_health
reconcile_workload_health-Known none ps s e = e
reconcile_workload_health-Known (some w) ps s e = ground arith

row_counts-Known : (snap : Snapshot) (ref : Ref) → Known (row_counts snap ref)
unfolding row_counts
row_counts-Known snap ref =
    let related = pods_for_health ref snap.pods in
    let workload = find_workload snap ref in
    reconcile_workload_health-Known workload related _ (
      count_single-Known ref related _ (
        count_service-Known (find_service snap ref) _
          (count_pods-Known related _ (count_workload-Known workload))))

-- What the scope reads of a row that was derived, which has no phase.
abbrev pub health_row : MatchRow → HealthRow
health_row r = record {
  key = r.key;
  kind = r.ref.kind;
  status = r.counts.status;
  score = r.score;
  phase = [];
  signal = r.counts.signal or_else [];
}

abbrev pub derived : Snapshot → List Match → List HealthRow
derived snap matches = map health_row (derive_match_rows snap matches)

derived-known : (snap : Snapshot) (ms : List Match) → all status_known (derived snap ms) ≡ true
unfolding derive_match_rows derive_row
derived-known snap [] = refl
derived-known snap (m ∷ ms) = rw (row_counts-Known snap m.ref) (derived-known snap ms)

pool-healthy :
    (hs : List HealthRow) (x : HealthRow) (xs : List HealthRow)
    → all status_known hs ≡ true
    → all status_known (x ∷ xs) ≡ true
    → is_healthy (status_from (or_all hs (x ∷ xs)) (worst_of (or_all hs (x ∷ xs)))).status
      ≡ ((status_from (or_all hs (x ∷ xs)) (worst_of (or_all hs (x ∷ xs)))).unhealthy_count == 0)
pool-healthy [] x xs e f = status_from-healthy x xs f
pool-healthy (h ∷ hs) x xs e f = status_from-healthy h hs e

-- The status of rows that are derived from matches, of which there is one, is critical exactly if
-- a row that drives it is critical, and healthy exactly if it counts no such row as unhealthy.
pub scope_status-derive_match_rows :
    (snap : Snapshot) (m : Match) (ms : List Match)
    → (is_critical (scope_status (derived snap (m ∷ ms))).status
        ≡ any (λ r. is_critical r.status) (pool_of (derived snap (m ∷ ms))))
      × (is_healthy (scope_status (derived snap (m ∷ ms))).status
          ≡ ((scope_status (derived snap (m ∷ ms))).unhealthy_count == 0))
unfolding scope_status scope_health_rows derive_match_rows
scope_status-derive_match_rows snap m ms =
    let rows = derived snap (m ∷ ms) in
    let known = derived-known snap (m ∷ ms) in
    (
      status_from-critical (pool_of rows),
      pool-healthy (keep shows_health rows) (health_row (derive_row snap m)) (derived snap ms)
          (all-keep status_known shows_health rows known) known,
    )
