-- ===== src/Matches.antt =====
-- The health of pods, of lib/investigationViews.js and lib/matches.js: what a pod's phase and its
-- containers say, and the worst of several pods.
pub mod Rows
pub mod Critical
pub mod Worst
pub mod Scope
pub mod Agreement
pub mod Derived
pub mod Groups
pub mod Selected
pub mod Grouped
mod Tests
use klew.Base.{
  ℕ, Bool, true, false, not, ◌&&◌, ◌||◌, List, [], ◌∷◌, Option, none, some, any, keep, ltb,
  if◌then◌else◌, Str, codes, str_eq, is_empty, includes, to_lower_case, ◌or◌,
}

-- The statuses of STATUS_RANK, and any other text, the missing one included.
pub data Status : Type 0 where
  critical degraded warning healthy unknown : Status
  named : Str → Status

-- `STATUS_RANK[status] ?? 3`
abbrev pub status_rank : Status → ℕ
status_rank critical = 0
status_rank degraded = 1
status_rank warning = 1
status_rank healthy = 2
status_rank unknown = 3
status_rank (named s) = 3

pub record Container : Type 0 where
  pub reason : Str
  pub last_reason : Str
  pub state : Str
  pub last_state : Str

pub record OwnerRef : Type 0 where
  pub kind : Str
  pub name : Str

-- A text that is missing is empty.
pub record Pod : Type 0 where
  pub name : Str
  pub phase : Str
  pub signal : Str
  pub ready : Bool
  pub restart_count : ℕ
  pub owner_refs : List OwnerRef
  pub containers : List Container

unfoldable pub pod_phase : Str → Str → Str
pod_phase phase signal = to_lower_case (phase or signal)

unfoldable pub is_terminal_pod_success : Str → Str → Bool
unfolding pod_phase
is_terminal_pod_success phase signal =
    str_eq (pod_phase phase signal) (codes "succeeded")
    || str_eq (pod_phase phase signal) (codes "completed")

unfoldable pub is_terminal_pod_failure : Str → Str → Bool
unfolding pod_phase
is_terminal_pod_failure phase signal = str_eq (pod_phase phase signal) (codes "failed")

unfoldable pub is_terminal_pod_phase : Pod → Bool
unfolding is_terminal_pod_success is_terminal_pod_failure
is_terminal_pod_phase p =
    is_terminal_pod_success p.phase p.signal || is_terminal_pod_failure p.phase p.signal

-- What is read of a match's object.
pub record Ref : Type 0 where
  pub kind : Str
  pub name : Str

abbrev pub owned_by : Ref → OwnerRef → Bool
owned_by ref o =
    includes o.name ref.name
    || (str_eq ref.kind (codes "Deployment")
        && str_eq o.kind (codes "ReplicaSet")
        && includes o.name ref.name)

unfoldable pub pods_for_match : Ref → List Pod → List Pod
pods_for_match ref pods =
    if is_empty ref.name
    then []
    else if str_eq ref.kind (codes "Pod")
    then keep (λ (p : Pod). str_eq p.name ref.name) pods
    else keep (λ (p : Pod). includes p.name ref.name || any (owned_by ref) p.owner_refs) pods

unfoldable pub pods_for_health : Ref → List Pod → List Pod
unfolding pods_for_match is_terminal_pod_phase
pods_for_health ref pods =
    let related = pods_for_match ref pods in
    if str_eq ref.kind (codes "Pod")
    then related
    else keep (λ (p : Pod). not (is_terminal_pod_phase p)) related

-- A status with the text that tells of it and its rank.
pub record Health : Type 0 where
  pub status : Status
  pub signal : Option Str
  pub rank : ℕ

abbrev pub health_of : Status → Option Str → Health
health_of status signal = record { status = status; signal = signal; rank = status_rank status }

abbrev pub is_crash : Str → Bool
is_crash reason =
    includes reason (codes "crash")
    || includes reason (codes "backoff")
    || includes reason (codes "oom")

-- The loop over the containers of a pod that is not ready.
unfoldable pub container_health : List Container → Health
container_health [] = health_of degraded (some (codes "not ready"))
container_health (c ∷ cs) =
    let rest = container_health cs in
    if is_crash (to_lower_case (c.reason or c.last_reason))
    then health_of critical (some (c.reason or (c.last_reason or codes "not ready")))
    else if str_eq c.state (codes "waiting") || str_eq c.last_state (codes "terminated")
    then health_of degraded (some (c.reason or codes "waiting"))
    else rest

unfoldable pub pod_status : Pod → Health
unfolding is_terminal_pod_success is_terminal_pod_failure container_health
pod_status p =
    if is_terminal_pod_success p.phase p.signal
    then health_of healthy (some (codes "complete"))
    else if is_terminal_pod_failure p.phase p.signal
    then health_of critical (some (codes "failed"))
    else if not p.ready
    then container_health p.containers
    else health_of healthy none

abbrev pub worse_health : Health → Health → Health
worse_health row worst = if ltb row.rank worst.rank then row else worst

unfoldable pub worst_from : Health → List Pod → Health
unfolding pod_status
worst_from worst [] = worst
worst_from worst (p ∷ ps) = worst_from (worse_health (pod_status p) worst) ps

unfoldable pub worst_pod_status : List Pod → Health
unfolding worst_from
worst_pod_status pods = worst_from (health_of healthy none) pods
