-- ===== src/Connection/State.antt =====
-- `deriveConnectionState` of lib/clusterConnection.js.
use klew.Base.{
  ℕ, Bool, true, false, not, ◌&&◌, ◌||◌, ◌++◌, Option, none, some, ltb, if◌then◌else◌, Str, codes,
  is_empty, trim,
}
use klew.Connection.{
  Cluster, Target, ClusterStatus, context_of, classified, is_auth, decimal, is_cluster_disconnected,
  connection_error_message, connection_guidance, active_context_label, switching, is_context,
  is_namespace,
}

pub data Phase : Type 0 where
  idle paused connecting retrying disconnected connected : Phase

pub data Tone : Type 0 where
  info warn error : Tone

-- The state for the banner; a field that the source leaves out is `none`.
pub record Connection : Type 0 where
  pub phase : Phase
  pub show_banner : Bool
  pub title : Option Str
  pub message : Option Str
  pub detail : Option Str
  pub tone : Option Tone
  pub show_retry : Option Bool
  pub retry_label : Option Str
  pub show_settings : Option Bool
  pub show_dismiss : Option Bool
  pub show_disconnect : Option Bool

abbrev pub bare : Phase → Connection
bare p = record {
  phase = p;
  show_banner = false;
  title = none;
  message = none;
  detail = none;
  tone = none;
  show_retry = none;
  retry_label = none;
  show_settings = none;
  show_dismiss = none;
  show_disconnect = none;
}

-- the argument of `deriveConnectionState`
pub record Inputs : Type 0 where
  pub cluster : Cluster
  pub syncing : Bool
  pub connecting : Bool
  pub connecting_target : Option Target
  pub cluster_status : Option ClusterStatus
  pub status_loading : Bool
  pub retry_attempt : ℕ
  pub retry_in_sec : ℕ
  pub auto_retry_exhausted : Bool
  pub max_retries : ℕ
  pub dismissed : Bool
  pub monitoring_paused : Bool
  pub auto_monitor : Bool

abbrev pub label_of : Inputs → Str
label_of i = active_context_label i.cluster i.connecting i.connecting_target

abbrev pub paused_state : Inputs → Connection
paused_state i = record {
  phase = paused;
  show_banner = not i.dismissed;
  title = some (label_of i ++ codes " — monitoring paused");
  message = some (codes "Klew is not polling this cluster.");
  detail = some (codes "Click Reconnect to sync kubeconfig and resume live updates.");
  tone = some info;
  show_retry = some true;
  retry_label = some (codes "Reconnect");
  show_settings = some true;
  show_dismiss = some true;
  show_disconnect = some false;
}

abbrev pub no_status : Option ClusterStatus → Bool
no_status none = true
no_status (some s) = false

abbrev pub is_connecting : Inputs → Bool
is_connecting i =
    i.syncing
    || i.connecting
    || i.status_loading && no_status i.cluster_status && is_empty (trim i.cluster.sync_error)

abbrev pub connecting_message : Inputs → Str
connecting_message i =
    if not (is_empty (switching is_context i.connecting i.connecting_target))
    then codes "Switching to " ++ label_of i ++ codes "…"
    else if not (is_empty (switching is_namespace i.connecting i.connecting_target))
    then codes "Switching to namespace "
      ++ switching is_namespace i.connecting i.connecting_target
      ++ codes "…"
    else if i.connecting
    then codes "Switching to " ++ label_of i ++ codes "…"
    else codes "Checking cluster connection…"

abbrev pub connecting_state : Inputs → Connection
connecting_state i =
    let quiet = record (bare connecting) {
      title = some (codes "Connecting to " ++ label_of i);
      message = some (connecting_message i);
      tone = some info;
    } in
    if i.dismissed
    then quiet
    else record quiet { show_banner = true; show_retry = some false; show_dismiss = some true }

abbrev pub failure_message : Inputs → Str
failure_message i = connection_error_message i.cluster i.cluster_status

abbrev pub is_auth_failure : Inputs → Bool
is_auth_failure i = is_auth (classified i.cluster i.cluster_status).kind

abbrev pub retrying_state : Inputs → Connection
retrying_state i = record (bare retrying) {
  show_banner = true;
  title = some (
      if is_auth_failure i
      then codes "Reconnecting to " ++ label_of i ++ codes " — credentials may have expired"
      else codes "Reconnecting to " ++ label_of i);
  message = some (failure_message i);
  detail = some (
      if ltb 0 i.retry_attempt
      then codes "Attempt "
        ++ decimal i.retry_attempt
        ++ codes " of "
        ++ decimal i.max_retries
        ++ codes " · retrying in "
        ++ decimal i.retry_in_sec
        ++ codes "s"
      else codes "Retrying in " ++ decimal i.retry_in_sec ++ codes "s");
  tone = some warn;
  show_retry = some true;
  retry_label = some (codes "Reconnect now");
  show_settings = some true;
  show_dismiss = some true;
}

abbrev pub disconnected_detail : Inputs → Str
disconnected_detail i =
    if i.auto_retry_exhausted
    then connection_guidance i.cluster i.cluster_status i.auto_retry_exhausted i.retry_attempt
        i.max_retries
    else if i.auto_monitor
    then (if is_auth_failure i
        then codes
            "Klew will retry automatically. Refresh AWS or EKS login if retries keep failing."
        else codes "Klew will retry automatically.")
    else codes "Automatic reconnect is off. Click Reconnect when ready."

abbrev pub disconnected_state : Inputs → Connection
disconnected_state i = record (bare disconnected) {
  show_banner = true;
  title = some (
      if i.auto_retry_exhausted
      then codes "Could not connect to " ++ label_of i
      else if is_auth_failure i
      then label_of i ++ codes " disconnected — check credentials"
      else label_of i ++ codes " disconnected");
  message = some (failure_message i);
  detail = some (disconnected_detail i);
  tone = some error;
  show_retry = some true;
  retry_label = some (if i.auto_retry_exhausted then codes "Try again" else codes "Reconnect now");
  show_settings = some true;
  show_dismiss = some true;
}

-- what is shown of a disconnected cluster
abbrev pub failure_state : Inputs → Connection
failure_state i =
    if i.dismissed
    then record (bare disconnected) {
      title = some (label_of i ++ codes " disconnected");
      message = some (failure_message i);
      tone = some error;
    }
    else if ltb 0 i.retry_in_sec && not i.auto_retry_exhausted && i.auto_monitor
    then retrying_state i
    else disconnected_state i

unfoldable pub derive_connection_state : Inputs → Connection
derive_connection_state i =
    if is_empty (context_of i.cluster)
    then bare idle
    else if i.monitoring_paused
    then paused_state i
    else if is_connecting i
    then connecting_state i
    else if is_cluster_disconnected i.cluster i.cluster_status
    then failure_state i
    else bare connected
