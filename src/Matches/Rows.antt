-- ===== src/Matches/Rows.antt =====
-- `deriveMatchRows` of lib/matches.js: the row of a match, from the workloads, the pods and the
-- services of the snapshot. `status`, `signal` and the counts are the local variables, which
-- each part of the code changes in turn.
use klew.Base.{
  ℕ, ◌+◌, ◌==◌, Bool, true, false, not, ◌&&◌, ◌||◌, List, [], ◌∷◌, ◌++◌, map, Option, none, some,
  ltb, leb, length, keep, find_elem?, if◌then◌else◌, Str, codes, str_eq, is_empty, includes,
  ◌or_else◌,
}
use klew.Connection.{decimal}
use klew.Matches.{
  Status, healthy, degraded, Ref, Pod, status_rank, is_terminal_pod_success, is_terminal_pod_phase,
  pods_for_health, worst_pod_status,
}

pub record Workload : Type 0 where
  pub kind : Str
  pub name : Str
  pub ready : Option ℕ
  pub replicas : Option ℕ

pub record Service : Type 0 where
  pub name : Str
  pub ready_endpoints : Option ℕ
  pub total_endpoints : Option ℕ

pub record Counts : Type 0 where
  pub ready : Option ℕ
  pub total : Option ℕ
  pub restarts : ℕ
  pub status : Status
  pub signal : Option Str

abbrev pub first_counts : Counts
first_counts = record { ready = none; total = none; restarts = 0; status = healthy; signal = none }

-- `${a}/${b}` and a word.
abbrev pub fraction : ℕ → ℕ → Str → Str
fraction a b word = decimal a ++ codes "/" ++ decimal b ++ word

-- `!signal`
abbrev pub is_silent : Option Str → Bool
is_silent none = true
is_silent (some s) = is_empty s

abbrev pub workload_ready : Workload → ℕ
workload_ready w = w.ready or_else 0

-- `wl.replicas ?? wl.ready ?? 0`
abbrev pub workload_total : Workload → ℕ
workload_total w = w.replicas or_else workload_ready w

abbrev pub count_workload : Option Workload → Counts → Counts
count_workload none s = s
count_workload (some w) s =
    let counted = record s { ready = some (workload_ready w); total = some (workload_total w) } in
    if ltb (workload_ready w) (workload_total w)
    then record counted {
      status = degraded;
      signal = some (fraction (workload_ready w) (workload_total w) (codes " ready"));
    }
    else counted

abbrev pub ready_count : List Pod → ℕ
ready_count pods = length (keep (λ (p : Pod). p.ready) pods)

abbrev pub restart_sum : List Pod → ℕ
restart_sum [] = 0
restart_sum (p ∷ ps) = p.restart_count + restart_sum ps

-- `if (ready == null) { … }`
abbrev pub or_counts : ℕ → ℕ → Counts → Counts
or_counts ready total s = pick s.ready
  where
    pick : Option ℕ → Counts
    pick none = record s { ready = some ready; total = some total }
    pick (some n) = s

abbrev pub judge_pods : List Pod → Counts → Counts
judge_pods pods s =
    let worst = worst_pod_status pods in
    if ltb worst.rank (status_rank s.status)
    then record s { status = worst.status; signal = worst.signal }
    else if is_silent s.signal && ltb (ready_count pods) (length pods)
    then record s {
      status = degraded;
      signal = some (fraction (ready_count pods) (length pods) (codes " pods ready"));
    }
    else s

abbrev pub count_pods : List Pod → Counts → Counts
count_pods [] s = s
count_pods (p ∷ ps) s = judge_pods (p ∷ ps) (
    or_counts (ready_count (p ∷ ps)) (length (p ∷ ps))
      (record s { restarts = restart_sum (p ∷ ps) }))

abbrev pub endpoints_ready : Service → ℕ
endpoints_ready s = s.ready_endpoints or_else 0

abbrev pub endpoints_total : Service → ℕ
endpoints_total s = s.total_endpoints or_else 0

abbrev pub signal_or : Str → Option Str → Option Str
signal_or text signal = if is_silent signal then some text else signal

-- Some endpoints of the service are not ready.
abbrev pub is_short : Option Service → Bool
is_short none = false
is_short (some v) = ltb 0 (endpoints_total v) && ltb (endpoints_ready v) (endpoints_total v)

abbrev pub count_service : Option Service → Counts → Counts
count_service none s = s
count_service (some v) s = or_counts (endpoints_ready v) (endpoints_total v) (
    if is_short (some v)
    then record s {
      status = degraded;
      signal =
          signal_or (fraction (endpoints_ready v) (endpoints_total v) (codes " ready")) s.signal;
    }
    else s)

-- The row of a pod that is the only one of its name.
abbrev pub count_single : Ref → List Pod → Counts → Counts
count_single ref [] s = s
count_single ref (p ∷ q ∷ ps) s = s
count_single ref (p ∷ []) s =
    if str_eq ref.kind (codes "Pod")
    then record {
      ready = some (if p.ready || is_terminal_pod_success p.phase p.signal then 1 else 0);
      total = some 1;
      restarts = p.restart_count;
      status = (worst_pod_status (p ∷ [])).status;
      signal = (worst_pod_status (p ∷ [])).signal;
    }
    else s

abbrev pub is_degraded : Status → Bool
is_degraded degraded = true
is_degraded _ = false

-- `signal?.includes('ready')`
abbrev pub tells_ready : Option Str → Bool
tells_ready none = false
tells_ready (some s) = includes s (codes "ready")

-- The pods that run are all ready, and as many as are wanted.
abbrev pub is_reconciled : Workload → List Pod → Bool
is_reconciled w operational =
    not (leb (length operational) 0)
    && ready_count operational == length operational
    && (leb (workload_total w) (ready_count operational)
        || (leb (workload_ready w) (ready_count operational)
            && leb (workload_total w) (workload_ready w)))

unfoldable pub reconcile_workload_health : Option Workload → List Pod → Counts → Counts
unfolding is_terminal_pod_phase
reconcile_workload_health none related s = s
reconcile_workload_health (some w) related s =
    if is_degraded s.status
      && tells_ready s.signal
      && is_reconciled w (keep (λ (p : Pod). not (is_terminal_pod_phase p)) related)
    then record s { status = healthy; signal = none }
    else s

pub record Match : Type 0 where
  pub ref : Ref
  pub score : ℕ
  pub match_by : Str

pub record Snapshot : Type 0 where
  pub workloads : List Workload
  pub pods : List Pod
  pub services : List Service

-- The fields of the service are copied into the row of a service.
pub record MatchRow : Type 0 where
  pub key : Str
  pub ref : Ref
  pub score : ℕ
  pub match_by : Str
  pub counts : Counts
  pub service : Option Service

unfoldable pub match_key : Ref → Str
match_key ref = ref.kind ++ 47 ∷ ref.name

unfoldable pub find_workload : Snapshot → Ref → Option Workload
find_workload snap ref =
    find_elem? (λ (w : Workload). str_eq w.kind ref.kind && str_eq w.name ref.name) snap.workloads

unfoldable pub find_service : Snapshot → Ref → Option Service
find_service snap ref =
    if str_eq ref.kind (codes "Service")
    then find_elem? (λ (v : Service). str_eq v.name ref.name) snap.services
    else none

-- The parts, one after the other.
unfoldable pub row_counts : Snapshot → Ref → Counts
unfolding find_workload find_service pods_for_health worst_pod_status is_terminal_pod_success
    reconcile_workload_health
row_counts snap ref =
    let related = pods_for_health ref snap.pods in
    let workload = find_workload snap ref in
    let counted = count_pods related (count_workload workload first_counts) in
    reconcile_workload_health workload related
      (count_single ref related (count_service (find_service snap ref) counted))

unfoldable pub derive_row : Snapshot → Match → MatchRow
unfolding row_counts find_service match_key
derive_row snap m = record {
  key = match_key m.ref;
  ref = m.ref;
  score = m.score;
  match_by = m.match_by;
  counts = row_counts snap m.ref;
  service = find_service snap m.ref;
}

unfoldable pub derive_match_rows : Snapshot → List Match → List MatchRow
unfolding derive_row
derive_match_rows snap matches = map (derive_row snap) matches
