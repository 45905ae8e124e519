-- ===== src/Connection/Endless.antt =====
-- What becomes of the count of retries when each of them fails.
use klew.Base.{
  ℕ, zero, suc, ◌≡◌, refl, ap, ◌∙◌, Bool, true, false, List, [], ◌∷◌, Option, some, Str,
  str_eq_self,
}
use klew.Connection.{Cluster, ClusterStatus, context_of}
use klew.Connection.Retry.{
  Surroundings, Seen, Retry, RetryEvent, commits, fires, finishes, start_retry, see, effects,
  commit, finish, fire, retry_step, run_retries, retry_delay_sec, is_disconnected,
}

abbrev seen_at : Str → Bool → ℕ → Bool → Bool → ℕ → Seen
seen_at x d n busy syncing k = record {
  context_key = x;
  disconnected = d;
  monitoring_paused = false;
  auto_monitor = true;
  retry_attempt = n;
  reconnect_busy = busy;
  syncing = syncing;
  connecting = false;
  status_loading = false;
  callbacks = k;
  dismissed = false;
}

-- a parent that has nothing under way but, perhaps, a sync
abbrev pub parent : Cluster → Option ClusterStatus → ℕ → Bool → Surroundings
parent c s k syncing = record {
  cluster = c;
  cluster_status = s;
  syncing = syncing;
  connecting = false;
  status_loading = false;
  auto_monitor = true;
  callbacks = k;
}

-- the hook with the first retry of a count armed
abbrev pub waiting : Str → ℕ → Retry
waiting x k = record (start_retry false) {
  retry_in_sec = retry_delay_sec;
  timer = true;
  countdown = true;
  seen = some (seen_at x true 0 false false k);
}

-- the hook while the sync of a retry runs, once the attempt and the sync are rendered
abbrev syncing_after : Str → ℕ → ℕ → Retry
syncing_after x n k = record (start_retry false) {
  reconnect_busy = true;
  reconnecting = true;
  seen = some (seen_at x false n true true k);
}

commit_at :
    (e : Surroundings) (s : Retry) (now : Seen)
    → see e s ≡ now
    → commit e s ≡ record (effects s.seen now s) { seen = some now }
unfolding commit
commit_at e s now p = ap (λ n. record (effects s.seen n s) { seen = some n }) p

-- A retry that fails: the timer fires, `syncNow` sets `syncing` until the sync has failed, and the
-- parent is again what it was.
abbrev pub failed_retry : Cluster → Option ClusterStatus → ℕ → List RetryEvent
failed_retry c s k =
    fires
    ∷ commits (parent c s k true)
    ∷ commits (parent c s k true)
    ∷ finishes
    ∷ commits (parent c s k false)
    ∷ []

-- the same, any number of times
abbrev pub repeat_retries : ℕ → Cluster → Option ClusterStatus → ℕ → Retry → Retry
repeat_retries zero c s k r = r
repeat_retries (suc n) c s k r = run_retries (failed_retry c s k) (repeat_retries n c s k r)

module _ (c : Cluster) (s : Option ClusterStatus) (k : ℕ) where
  abbrev x : Str
  x = context_of c

  -- the render in which `syncing` is set
  commit_first : commit (parent c s k true) (fire (waiting x k)) ≡ syncing_after x 1 k
  unfolding fire
  commit_first = commit_at _ _ (seen_at x false 1 true true k) refl ∙ rw (str_eq_self x) refl

  commit_second : commit (parent c s k true) (syncing_after x 1 k) ≡ syncing_after x 0 k
  commit_second = commit_at _ _ (seen_at x false 0 true true k) refl ∙ rw (str_eq_self x) refl

  commit_third :
      is_disconnected (parent c s k false) false ≡ true
      → commit (parent c s k false) (finish (syncing_after x 0 k)) ≡ waiting x k
  unfolding finish
  commit_third d =
      commit_at _ _ (seen_at x true 0 false false k) (ap (λ b. seen_at x b 0 false false k) d)
      ∙ rw (str_eq_self x) refl

  failed_retry_lem :
      is_disconnected (parent c s k false) false ≡ true
      → run_retries (failed_retry c s k) (waiting x k) ≡ waiting x k
  unfolding run_retries retry_step
  failed_retry_lem d =
      ap (λ r. commit (parent c s k false) (finish (commit (parent c s k true) r))) commit_first
      ∙ ap (λ r. commit (parent c s k false) (finish r)) commit_second
      ∙ commit_third d

  -- While the cluster stays lost and each retry reports its sync as `syncing`, any number of failed
  -- retries leaves the hook as it was with the first retry of a count armed: the count is back at 0 and
  -- the retries are never exhausted.
  pub repeat_retries_lem :
      (n : ℕ)
      → is_disconnected (parent c s k false) false ≡ true
      → repeat_retries n c s k (waiting x k) ≡ waiting x k
  repeat_retries_lem zero d = refl
  repeat_retries_lem (suc n) d =
      ap (run_retries (failed_retry c s k)) (repeat_retries_lem n d) ∙ failed_retry_lem d
