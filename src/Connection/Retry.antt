-- ===== src/Connection/Retry.antt =====
-- hooks/useClusterConnection.js: the automatic retries. A render with its effects is the event
-- `commit`; it gets what the parent hands the hook. An effect runs when one of its dependencies has
-- changed since the last commit, and reads the values of the render.
use klew.Base.{
  ℕ, ◌+◌, ◌-◌, Bool, true, false, not, ◌&&◌, ◌||◌, List, [], ◌∷◌, Option, none, some, leb, ◌==◌,
  if◌then◌else◌, Str, str_eq, is_empty, trim,
}
use klew.Connection.{Cluster, ClusterStatus, context_of, is_cluster_disconnected}

abbrev pub max_auto_retries : ℕ
max_auto_retries = 5

abbrev pub retry_delay_sec : ℕ
retry_delay_sec = 10

-- the hook's argument, but for `monitoringPaused`, which its callbacks set
pub record Surroundings : Type 0 where
  pub cluster : Cluster
  pub cluster_status : Option ClusterStatus
  pub syncing : Bool
  pub connecting : Bool
  pub status_loading : Bool
  pub auto_monitor : Bool
  -- the identity of `reconnect`, which is that of `syncNow` and `refreshClusterStatus`
  pub callbacks : ℕ

-- the dependencies of the three effects
pub record Seen : Type 0 where
  pub context_key : Str
  pub disconnected : Bool
  pub monitoring_paused : Bool
  pub auto_monitor : Bool
  pub retry_attempt : ℕ
  pub reconnect_busy : Bool
  pub syncing : Bool
  pub connecting : Bool
  pub status_loading : Bool
  pub callbacks : ℕ
  pub dismissed : Bool

pub record Retry : Type 0 where
  pub retry_attempt : ℕ
  pub retry_in_sec : ℕ
  pub auto_retry_exhausted : Bool
  pub reconnect_busy : Bool
  pub dismissed : Bool
  pub monitoring_paused : Bool
  -- whether the timeout and the interval are armed
  pub timer : Bool
  pub countdown : Bool
  pub reconnecting : Bool
  -- the dependencies at the last commit
  pub seen : Option Seen

abbrev pub start_retry : Bool → Retry
start_retry paused = record {
  retry_attempt = 0;
  retry_in_sec = 0;
  auto_retry_exhausted = false;
  reconnect_busy = false;
  dismissed = false;
  monitoring_paused = paused;
  timer = false;
  countdown = false;
  reconnecting = false;
  seen = none;
}

abbrev pub is_disconnected : Surroundings → Bool → Bool
is_disconnected e paused =
    if paused
    then false
    else if e.syncing || e.connecting
    then false
    else if not (is_empty (trim e.cluster.sync_error))
    then true
    else if e.status_loading
    then false
    else is_cluster_disconnected e.cluster e.cluster_status

abbrev pub see : Surroundings → Retry → Seen
see e s = record {
  context_key = context_of e.cluster;
  disconnected = is_disconnected e s.monitoring_paused;
  monitoring_paused = s.monitoring_paused;
  auto_monitor = e.auto_monitor;
  retry_attempt = s.retry_attempt;
  reconnect_busy = s.reconnect_busy;
  syncing = e.syncing;
  connecting = e.connecting;
  status_loading = e.status_loading;
  callbacks = e.callbacks;
  dismissed = s.dismissed;
}

abbrev pub same : Bool → Bool → Bool
same true b = b
same false b = not b

abbrev pub clear_retry_timers : Retry → Retry
clear_retry_timers s = record s { timer = false; countdown = false }

-- the effect on `contextKey`
abbrev pub reset_effect : Retry → Retry
reset_effect s = record (clear_retry_timers s) {
  monitoring_paused = false;
  retry_attempt = 0;
  retry_in_sec = 0;
  auto_retry_exhausted = false;
  dismissed = false;
}

-- the effect on `disconnected` and `monitoringPaused`
abbrev pub recovered_effect : Seen → Retry → Retry
recovered_effect now s = if now.disconnected then s else record (clear_retry_timers s) {
  retry_attempt = 0;
  retry_in_sec = 0;
  auto_retry_exhausted = false;
  dismissed = now.monitoring_paused && s.dismissed;
}

abbrev pub is_idle : Seen → Bool
is_idle now =
    now.monitoring_paused
    || not now.auto_monitor
    || now.dismissed
    || not now.disconnected
    || now.reconnect_busy
    || now.syncing
    || now.connecting
    || now.status_loading

-- the effect that arms the timers; its cleanup, too, is `clearRetryTimers`
abbrev pub schedule_effect : Seen → Retry → Retry
schedule_effect now s =
    if is_idle now
    then clear_retry_timers s
    else if leb max_auto_retries now.retry_attempt
    then record (clear_retry_timers s) { auto_retry_exhausted = true; retry_in_sec = 0 }
    else record s { retry_in_sec = retry_delay_sec; timer = true; countdown = true }

abbrev pub same_schedule : Seen → Seen → Bool
same_schedule a b =
    same a.monitoring_paused b.monitoring_paused
    && same a.auto_monitor b.auto_monitor
    && same a.disconnected b.disconnected
    && a.retry_attempt == b.retry_attempt
    && same a.reconnect_busy b.reconnect_busy
    && same a.syncing b.syncing
    && same a.connecting b.connecting
    && same a.status_loading b.status_loading
    && a.callbacks == b.callbacks
    && same a.dismissed b.dismissed

abbrev pub effects : Option Seen → Seen → Retry → Retry
effects none now s = schedule_effect now (recovered_effect now (reset_effect s))
effects (some old) now s =
    let s1 = if str_eq old.context_key now.context_key then s else reset_effect s in
    let s2 =
      if same old.disconnected now.disconnected && same old.monitoring_paused now.monitoring_paused
      then s1
      else recovered_effect now s1 in
    if same_schedule old now then s2 else schedule_effect now s2

unfoldable pub commit : Surroundings → Retry → Retry
commit e s = record (effects s.seen (see e s) s) { seen = some (see e s) }

-- `reconnect` up to its first `await`
abbrev pub reconnect : Retry → Retry
reconnect s = if s.reconnecting then s else record (clear_retry_timers s) {
  reconnecting = true;
  reconnect_busy = true;
  retry_in_sec = 0;
}

-- the `finally` of `reconnect`
unfoldable pub finish : Retry → Retry
finish s = record s { reconnecting = false; reconnect_busy = false }

unfoldable pub disconnect : Retry → Retry
disconnect s = record (clear_retry_timers s) {
  monitoring_paused = true;
  dismissed = false;
  retry_attempt = 0;
  auto_retry_exhausted = false;
  retry_in_sec = 0;
}

unfoldable pub dismiss : Retry → Retry
dismiss s = record (clear_retry_timers s) { dismissed = true; retry_in_sec = 0 }

unfoldable pub handle_reconnect : Retry → Retry
handle_reconnect s = reconnect (record s {
  monitoring_paused = false;
  dismissed = false;
  retry_attempt = 0;
  auto_retry_exhausted = false;
})

-- the interval's callback
unfoldable pub tick : Retry → Retry
tick s = if s.countdown then record s { retry_in_sec = s.retry_in_sec - 1 } else s

-- the timeout's callback
unfoldable pub fire : Retry → Retry
fire s =
    if s.timer
    then reconnect (record s { timer = false; retry_attempt = s.retry_attempt + 1 })
    else s

pub data RetryEvent : Type 0 where
  commits : Surroundings → RetryEvent
  ticks fires finishes disconnects dismisses reconnects : RetryEvent

unfoldable pub retry_step : RetryEvent → Retry → Retry
unfolding commit tick fire finish disconnect dismiss handle_reconnect
retry_step (commits e) s = commit e s
retry_step ticks s = tick s
retry_step fires s = fire s
retry_step finishes s = finish s
retry_step disconnects s = disconnect s
retry_step dismisses s = dismiss s
retry_step reconnects s = handle_reconnect s

unfoldable pub run_retries : List RetryEvent → Retry → Retry
unfolding retry_step
run_retries [] s = s
run_retries (e ∷ es) s = run_retries es (retry_step e s)
