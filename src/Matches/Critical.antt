-- ===== src/Matches/Critical.antt =====
-- Which rows of lib/matches.js are critical.
use klew.Base.{
  ℕ, ◌==◌, ◌≡◌, refl, sym, ap, ◌∙◌, Bool, true, false, not, ◌&&◌, ◌||◌, List, [], ◌∷◌, Option, none,
  some, any, ltb, length, if◌then◌else◌, if_both, codes, str_eq, str_eq_iff, Bool-cases, inl, inr,
  arith,
}
use klew.Matches.{
  Status, critical, degraded, healthy, warning, unknown, named, status_rank, Ref, Pod, Container,
  Health, health_of, container_health, pod_status, worse_health, worst_from, worst_pod_status,
  pods_for_health,
}
use klew.Matches.Rows.{
  Workload, Service, Counts, Snapshot, is_silent, ready_count, restart_sum, workload_ready,
  workload_total, endpoints_ready, endpoints_total, first_counts, count_workload, judge_pods,
  or_counts, count_pods, is_short, count_service, count_single, reconcile_workload_health,
  is_degraded, find_workload, find_service, row_counts,
}

abbrev pub is_critical : Status → Bool
is_critical critical = true
is_critical _ = false

-- The pod's own status is critical.
abbrev pub is_down : Pod → Bool
is_down p = is_critical (pod_status p).status

pub is_critical-status_rank : (s : Status) → is_critical s ≡ (status_rank s == 0)
is_critical-status_rank critical = refl
is_critical-status_rank degraded = refl
is_critical-status_rank warning = refl
is_critical-status_rank healthy = refl
is_critical-status_rank unknown = refl
is_critical-status_rank (named s) = refl

-- The rank of a health is that of its status.
abbrev Ranked : Health → Type 0
Ranked h = h.rank ≡ status_rank h.status

container_health-Ranked : (cs : List Container) → Ranked (container_health cs)
unfolding container_health
container_health-Ranked [] = refl
container_health-Ranked (c ∷ cs) = ground (arith, container_health-Ranked cs)

pod_status-Ranked : (p : Pod) → Ranked (pod_status p)
unfolding pod_status
pod_status-Ranked p = ground (arith, container_health-Ranked p.containers)

worse_health-critical :
    (a b : Health)
    → Ranked a
    → Ranked b
    → Ranked (worse_health a b)
      × (is_critical (worse_health a b).status ≡ (is_critical b.status || is_critical a.status))
worse_health-critical a b e f = elim (Bool-cases (ltb a.rank b.rank)) [
  | inl lower ↦
      rw lower
        (e, ground (arith, is_critical-status_rank a.status, is_critical-status_rank b.status))
  | inr higher ↦
      rw higher
        (f, ground (arith, is_critical-status_rank a.status, is_critical-status_rank b.status))
]

worst_from-critical :
    (worst : Health) (ps : List Pod)
    → Ranked worst
    → Ranked (worst_from worst ps)
      × (is_critical (worst_from worst ps).status ≡ (is_critical worst.status || any is_down ps))
unfolding worst_from
worst_from-critical worst [] e = (e, ground arith)
worst_from-critical worst (p ∷ ps) e =
    let (ranked, same) = worse_health-critical (pod_status p) worst (pod_status-Ranked p) e in
    let (f, g) = worst_from-critical (worse_health (pod_status p) worst) ps ranked in
    (f, ground arith)

worst_pod_status-critical :
    (ps : List Pod)
    → Ranked (worst_pod_status ps) × (is_critical (worst_pod_status ps).status ≡ any is_down ps)
unfolding worst_pod_status
worst_pod_status-critical ps = worst_from-critical (health_of healthy none) ps refl

judge_pods-critical :
    (ps : List Pod) (s : Counts)
    → is_critical s.status ≡ false
    → is_critical (judge_pods ps s).status ≡ any is_down ps
judge_pods-critical ps s e =
    let (ranked, same) = worst_pod_status-critical ps in
    elim (Bool-cases (ltb (worst_pod_status ps).rank (status_rank s.status))) [
      | inl lower ↦ rw lower same
      | inr higher ↦
          let up : any is_down ps ≡ false = ground (
            arith,
            is_critical-status_rank (worst_pod_status ps).status,
            is_critical-status_rank s.status,
          ) in
          rw (higher, up)
            (if_both (λ (c : Counts). is_critical c.status ≡ false)
              (is_silent s.signal && ltb (ready_count ps) (length ps)) refl e)
    ]

count_workload-critical :
    (w : Option Workload) → is_critical (count_workload w first_counts).status ≡ false
count_workload-critical none = refl
count_workload-critical (some w) =
    if_both (λ (c : Counts). is_critical c.status ≡ false)
      (ltb (workload_ready w) (workload_total w)) refl refl

or_counts-critical :
    (ready total : ℕ) (s : Counts)
    → is_critical (or_counts ready total s).status ≡ is_critical s.status
or_counts-critical ready total s =
    elim s.ready
      as (λ (r : Option ℕ).
        is_critical (or_counts ready total (record s { ready = r })).status
        ≡ is_critical s.status) [ none ↦ refl | some n ↦ refl ]

count_pods-critical :
    (ps : List Pod) (s : Counts)
    → is_critical s.status ≡ false
    → is_critical (count_pods ps s).status ≡ any is_down ps
count_pods-critical [] s e = e
count_pods-critical (p ∷ ps) s e =
    judge_pods-critical (p ∷ ps) _
      (or_counts-critical _ _ (record s { restarts = restart_sum (p ∷ ps) }) ∙ e)

if-critical :
    (b : Bool) (t s : Counts)
    → is_critical t.status ≡ false
    → is_critical (if b then t else s).status ≡ (is_critical s.status && not b)
if-critical true t s e = ground arith
if-critical false t s e = ground arith

count_service-critical :
    (v : Option Service) (s : Counts)
    → is_critical (count_service v s).status ≡ (is_critical s.status && not (is_short v))
count_service-critical none s = ground arith
count_service-critical (some v) s =
    or_counts-critical (endpoints_ready v) (endpoints_total v) _
    ∙ if-critical (is_short (some v)) _ s refl

-- Only a pod has a row of its own, and then its status is the worst of the pods.
count_single-critical :
    (ref : Ref) (ps : List Pod) (s : Counts)
    → (str_eq ref.kind (codes "Pod") ≡ true → is_critical s.status ≡ any is_down ps)
    → is_critical (count_single ref ps s).status ≡ is_critical s.status
count_single-critical ref [] s h = refl
count_single-critical ref (p ∷ q ∷ ps) s h = refl
count_single-critical ref (p ∷ []) s h = elim (Bool-cases (str_eq ref.kind (codes "Pod"))) [
  | inl pod ↦ rw (count_single, pod) ((worst_pod_status-critical (p ∷ [])).1 ∙ sym (h pod))
  | inr kind ↦ rw (count_single, kind) refl
]

degraded-critical : (s : Status) → is_degraded s ≡ true → is_critical s ≡ false
degraded-critical critical e = absurd (ground arith)
degraded-critical degraded e = refl
degraded-critical warning e = refl
degraded-critical healthy e = refl
degraded-critical unknown e = refl
degraded-critical (named s) e = refl

reconcile_workload_health-critical :
    (w : Option Workload) (ps : List Pod) (s : Counts)
    → is_critical (reconcile_workload_health w ps s).status ≡ is_critical s.status
unfolding reconcile_workload_health
reconcile_workload_health-critical none ps s = refl
reconcile_workload_health-critical (some w) ps s = ground (arith, degraded-critical s.status)

find_service_pod :
    (snap : Snapshot) (ref : Ref)
    → str_eq ref.kind (codes "Pod") ≡ true
    → is_short (find_service snap ref) ≡ false
unfolding find_service
find_service_pod snap ref e =
    let pod = (str_eq_iff ref.kind (codes "Pod")).0 e in
    let kind : str_eq ref.kind (codes "Service") ≡ false = rw pod (unfold str_eq in refl) in
    rw kind refl

-- A row is critical exactly if a pod of the match is down, finished pods left out unless the match
-- is a pod, and the match is not a service of which some endpoints are not ready.
pub row_counts-critical :
    (snap : Snapshot) (ref : Ref)
    → is_critical (row_counts snap ref).status
      ≡ (any is_down (pods_for_health ref snap.pods) && not (is_short (find_service snap ref)))
unfolding row_counts
row_counts-critical snap ref =
    let related = pods_for_health ref snap.pods in
    let counted = count_pods related (count_workload (find_workload snap ref) first_counts) in
    let by_pods =
      count_pods-critical related _ (count_workload-critical (find_workload snap ref)) in
    let by_service = count_service-critical (find_service snap ref) counted in
    reconcile_workload_health-critical (find_workload snap ref) related _
    ∙ count_single-critical ref related (count_service (find_service snap ref) counted)
        (λ pod. ground (arith, find_service_pod snap ref))
    ∙ by_service
    ∙ ap (λ (b : Bool). b && not (is_short (find_service snap ref))) by_pods
