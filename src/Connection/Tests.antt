-- ===== src/Connection/Tests.antt =====
-- The banner and the retries for concrete inputs.
use klew.Base.{
  ◌≡◌, refl, true, false, [], none, some, codes, trim, includes, starts_with, to_lower_case,
}
use klew.Connection.{
  Cluster, decimal, is_cluster_disconnected, connection_error_message, connection_guidance,
  active_context_label,
}
use klew.Connection.Errors.{auth, network, unknown, classify_connection_error}
use klew.Connection.State.{disconnected, Inputs, derive_connection_state}
use klew.Connection.Banner.{message-derive}
use klew.Base.{List, ◌∷◌, Bool, str_eq}
use klew.Connection.Retry.{
  Surroundings, RetryEvent, commits, ticks, fires, finishes, start_retry, commit, finish, tick,
  fire, disconnect, dismiss, handle_reconnect, retry_step, run_retries,
}
use klew.Connection.Attempts.{IsRetryValid, run-IsRetryValid}
use klew.Connection.Endless.{parent, waiting, repeat_retries, repeat_retries_lem}

program : Unit {0}
unfolding trim includes starts_with to_lower_case is_cluster_disconnected connection_error_message
    connection_guidance active_context_label classify_connection_error derive_connection_state
    str_eq commit finish tick fire disconnect dismiss handle_reconnect retry_step run_retries
program = tt

decimal_105 : decimal 105 ≡ codes "105"
decimal_105 = refl

-- a letter's case does not matter, nor does the space around the text
kind_auth : (classify_connection_error (codes " Token has Expired ")).kind ≡ auth
unfolding program
kind_auth = refl

kind_network :
    (classify_connection_error (codes "dial tcp 10.0.0.1:443: I/O timeout")).kind ≡ network
unfolding program
kind_network = refl

kind_unknown : (classify_connection_error (codes "etcd leader changed")).kind ≡ unknown
unfolding program
kind_unknown = refl

abbrev lost_inputs : Inputs
lost_inputs = record {
  cluster = record {
    selected_context = codes "prod";
    current_context = [];
    sync_error = codes " ";
  };
  syncing = false;
  connecting = false;
  connecting_target = none;
  cluster_status = some (record { api_reachable = false; error = codes "connection refused " });
  status_loading = false;
  retry_attempt = 2;
  retry_in_sec = 10;
  auto_retry_exhausted = false;
  max_retries = 5;
  dismissed = false;
  monitoring_paused = false;
  auto_monitor = true;
}

retrying_detail :
    (derive_connection_state lost_inputs).detail ≡ some (codes "Attempt 2 of 5 · retrying in 10s")
unfolding program
retrying_detail = refl

-- the first status is awaited
loading_title :
    (derive_connection_state
      (record lost_inputs { cluster_status = none; status_loading = true })).title
    ≡ some (codes "Connecting to prod")
unfolding program
loading_title = refl

-- a status from before is shown while the next one loads
reloading :
    (derive_connection_state (record lost_inputs { status_loading = true; dismissed = true })).phase
    ≡ disconnected
unfolding program
reloading = refl

message-derive_example :
    (derive_connection_state lost_inputs).message ≡ some (codes "connection refused")
unfolding program
message-derive_example = message-derive lost_inputs refl

abbrev cluster_at : Cluster
cluster_at = lost_inputs.cluster

abbrev parent_at : Bool → Surroundings
parent_at syncing = parent cluster_at lost_inputs.cluster_status 0 syncing

-- Two retries fire, and `syncing` is never set while their commits run.
abbrev two_retries : List RetryEvent
two_retries =
    commits (parent_at false)
    ∷ ticks
    ∷ fires
    ∷ finishes
    ∷ commits (parent_at false)
    ∷ fires
    ∷ finishes
    ∷ commits (parent_at false)
    ∷ []

two_retries_attempt : (run_retries two_retries (start_retry false)).retry_attempt ≡ 2
unfolding program
two_retries_attempt = refl

run-IsRetryValid_example : IsRetryValid (run_retries two_retries (start_retry false))
run-IsRetryValid_example = run-IsRetryValid false two_retries

-- the mount arms the first retry
mounted :
    run_retries (commits (parent_at false) ∷ commits (parent_at false) ∷ []) (start_retry false)
    ≡ waiting (codes "prod") 0
unfolding program
mounted = refl

repeat_retries_lem_example :
    repeat_retries 7 cluster_at lost_inputs.cluster_status 0 (waiting (codes "prod") 0)
    ≡ waiting (codes "prod") 0
unfolding program
repeat_retries_lem_example = repeat_retries_lem cluster_at lost_inputs.cluster_status 0 7 refl
