-- ===== src/Connection.antt =====
-- lib/clusterConnection.js: what the banner says of the connection to the cluster. A missing field
-- of the cluster, and a missing cluster, are read as the empty string, as the source's `||` does.
pub mod Errors
pub mod State
pub mod Retry
pub mod Attempts
pub mod Endless
pub mod Banner
mod Tests
use klew.Base.{
  ℕ, zero, suc, Bool, true, false, not, ◌&&◌, ◌||◌, List, [], ◌∷◌, ◌++◌, Option, none, some, max,
  ltb, ◌==◌, if◌then◌else◌, Str, codes, is_empty, trim, ◌or◌, reverse,
}
use klew.Connection.Errors.{
  ErrorKind, unknown, auth, network, Classified, classify_connection_error,
}

-- a numeral's digits, the last one first
abbrev pub next_digits : Str → Str
next_digits [] = 49 ∷ []
next_digits (d ∷ ds) = let rest = next_digits ds in if d == 57 then 48 ∷ rest else suc d ∷ ds

abbrev pub digits : ℕ → Str
digits zero = 48 ∷ []
digits (suc n) = next_digits (digits n)

-- a number in a template literal
abbrev pub decimal : ℕ → Str
decimal n = reverse (digits n)

pub record Cluster : Type 0 where
  pub selected_context : Str
  pub current_context : Str
  pub sync_error : Str

pub record ClusterStatus : Type 0 where
  pub api_reachable : Bool
  pub error : Str

pub data TargetKind : Type 0 where
  context namespace other_kind : TargetKind

pub record Target : Type 0 where
  pub kind : TargetKind
  pub name : Str

abbrev pub context_of : Cluster → Str
context_of c = c.selected_context or c.current_context

-- `String(clusterStatus?.error || '').trim()`
abbrev pub api_error : Option ClusterStatus → Str
api_error none = []
api_error (some s) = trim s.error

abbrev pub unreachable : Option ClusterStatus → Bool
unreachable none = false
unreachable (some s) = not s.api_reachable && not (is_empty (trim s.error))

unfoldable pub is_cluster_disconnected : Cluster → Option ClusterStatus → Bool
is_cluster_disconnected c s =
    if is_empty (context_of c)
    then false
    else if not (is_empty (trim c.sync_error))
    then true
    else unreachable s

unfoldable pub connection_error_message : Cluster → Option ClusterStatus → Str
connection_error_message c s =
    if not (is_empty (trim c.sync_error))
    then (classify_connection_error (trim c.sync_error)).message
    else if not (is_empty (api_error s))
    then (classify_connection_error (api_error s)).message
    else (classify_connection_error []).message

abbrev pub classified : Cluster → Option ClusterStatus → Classified
classified c s = classify_connection_error (trim c.sync_error or api_error s)

abbrev pub is_auth : ErrorKind → Bool
is_auth auth = true
is_auth _ = false

unfoldable pub connection_guidance : Cluster → Option ClusterStatus → Bool → ℕ → ℕ → Str
connection_guidance c s exhausted attempt max_retries =
    if exhausted
    then (if is_auth (classified c s).kind
        then codes "Klew tried reconnecting "
          ++ decimal (max attempt max_retries)
          ++ codes
              " times and could not authenticate. Refresh AWS or EKS credentials, then click Try again."
        else codes "Klew tried reconnecting "
          ++ decimal (max attempt max_retries)
          ++ codes " times and could not reach the cluster. "
          ++ (classified c s).guidance
          ++ codes " Then click Try again.")
    else if not (is_empty (classified c s).guidance)
    then (classified c s).guidance
    else codes "Klew will retry automatically."

-- `connecting && connectingTarget?.kind === … && connectingTarget.name`
abbrev pub is_context : TargetKind → Bool
is_context context = true
is_context _ = false

abbrev pub is_namespace : TargetKind → Bool
is_namespace namespace = true
is_namespace _ = false

abbrev pub switching : (TargetKind → Bool) → Bool → Option Target → Str
switching p true (some t) = if p t.kind then t.name else []
switching p _ _ = []

unfoldable pub active_context_label : Cluster → Bool → Option Target → Str
active_context_label c connecting target =
    switching is_context connecting target or context_of c or codes "cluster"
