-- ===== src/Matches/Scope.antt =====
-- `scopeHealthRows` and `scopeStatus` of lib/matches.js, over the rows that are derived.
use klew.Base.{
  ℕ, Bool, true, false, not, ◌&&◌, List, [], ◌∷◌, Option, none, some, keep, length, Str, codes,
  str_eq, has, is_empty,
}
use klew.Matches.{Status, critical, healthy, unknown, named, is_terminal_pod_success}
use klew.Matches.Worst.{pick_worst_row}

abbrev pub strip_health_kinds : List Str
strip_health_kinds =
    codes "Deployment"
    ∷ codes "StatefulSet"
    ∷ codes "DaemonSet"
    ∷ codes "Job"
    ∷ codes "CronJob"
    ∷ codes "Service"
    ∷ codes "Pod"
    ∷ []

-- What is read of a row; `signal` and `phase` are those that tell a finished pod.
pub record HealthRow : Type 0 where
  pub key : Str
  pub kind : Str
  pub status : Status
  pub score : ℕ
  pub phase : Str
  pub signal : Str

unfoldable pub shows_health : HealthRow → Bool
unfolding is_terminal_pod_success
shows_health r =
    has strip_health_kinds r.kind
    && not (str_eq r.kind (codes "Pod") && is_terminal_pod_success r.phase r.signal)

unfoldable pub scope_health_rows : List HealthRow → List HealthRow
unfolding shows_health
scope_health_rows rows = keep shows_health rows

pub record ScopeStatus : Type 0 where
  pub status : Status
  pub label : Str
  pub row : Option HealthRow
  pub unhealthy_count : ℕ
  pub match_count : ℕ

abbrev pub status_label : Status → Str
status_label healthy = codes "HEALTHY"
status_label critical = codes "CRITICAL"
status_label _ = codes "DEGRADED"

-- `r.status && r.status !== 'healthy'`
abbrev pub is_unhealthy : Status → Bool
is_unhealthy healthy = false
is_unhealthy (named s) = not (is_empty s)
is_unhealthy _ = true

abbrev pub unhealthy_in : List HealthRow → ℕ
unhealthy_in rows = length (keep (λ (r : HealthRow). is_unhealthy r.status) rows)

-- The two counts are missing where there is no row; they are 0 here.
abbrev pub status_from : List HealthRow → Option HealthRow → ScopeStatus
status_from pool none = record {
  status = unknown;
  label = codes "HEALTHY";
  row = none;
  unhealthy_count = 0;
  match_count = 0;
}
status_from pool (some worst) = record {
  status = worst.status;
  label = status_label worst.status;
  row = some worst;
  unhealthy_count = unhealthy_in pool;
  match_count = length pool;
}

abbrev pub or_all : List HealthRow → List HealthRow → List HealthRow
or_all [] rows = rows
or_all (r ∷ rs) rows = r ∷ rs

-- The rows that drive the status.
abbrev pub pool_of : List HealthRow → List HealthRow
pool_of rows = or_all (scope_health_rows rows) rows

abbrev pub worst_of : List HealthRow → Option HealthRow
worst_of = pick_worst_row (λ r. r.key) (λ r. r.status) (λ r. r.score)

unfoldable pub scope_status : List HealthRow → ScopeStatus
unfolding scope_health_rows pick_worst_row
scope_status rows = status_from (pool_of rows) (worst_of (pool_of rows))
