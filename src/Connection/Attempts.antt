-- ===== src/Connection/Attempts.antt =====
-- How many retries useClusterConnection makes.
use klew.Base.{
  ℕ, ◌+◌, ◌≤◌, ◌≡◌, refl, Bool, true, false, ◌&&◌, List, [], ◌∷◌, Option, none, some, leb,
  if◌then◌else◌, arith, str_eq, if_both, Bool-cases, inl, inr,
}
use klew.Connection.Retry.{
  Surroundings, Seen, Retry, RetryEvent, commits, ticks, fires, finishes, disconnects, dismisses,
  reconnects, start_retry, see, effects, reset_effect, recovered_effect, schedule_effect, is_idle,
  same_schedule, commit, reconnect, finish, disconnect, dismiss, handle_reconnect, tick, fire,
  retry_step, run_retries, max_auto_retries, retry_delay_sec, clear_retry_timers, same,
}

abbrev pub armed : Bool → ℕ
armed true = 1
armed false = 0

-- The retries made and the one that is armed are at most MAX_AUTO_RETRIES, the countdown is at most
-- RETRY_DELAY_SEC, and the hook is busy exactly while a reconnect runs.
pub record IsRetryValid (s : Retry) : Type 0 where
  pub attempts : s.retry_attempt + armed s.timer ≤ max_auto_retries
  pub delay : s.retry_in_sec ≤ retry_delay_sec
  pub busy : s.reconnect_busy ≡ s.reconnecting

clear-attempts : (n : ℕ) (b : Bool) → n + armed b ≤ max_auto_retries → n + 0 ≤ max_auto_retries
clear-attempts n b l = omega arith

clear-IsRetryValid : (s : Retry) → IsRetryValid s → IsRetryValid (clear_retry_timers s)
clear-IsRetryValid s v = record {
  attempts = clear-attempts s.retry_attempt s.timer v.attempts;
  delay = v.delay;
  busy = v.busy;
}

-- What the first two effects of a commit leave for the third, given the attempts at the render.
record IsBelow (n : ℕ) (s : Retry) : Type 0 where
  valid : IsRetryValid s
  below : s.retry_attempt ≤ n

reset_effect-IsBelow : (n : ℕ) (s : Retry) → IsBelow n s → IsBelow n (reset_effect s)
reset_effect-IsBelow n s v = record {
  valid = record { attempts = omega arith; delay = omega arith; busy = v.valid.busy };
  below = omega arith;
}

recovered_effect-IsBelow :
    (n : ℕ) (now : Seen) (s : Retry) → IsBelow n s → IsBelow n (recovered_effect now s)
recovered_effect-IsBelow n now s v = if_both (IsBelow n) now.disconnected v (record {
  valid = record { attempts = omega arith; delay = omega arith; busy = v.valid.busy };
  below = omega arith;
})

schedule-attempts : (n m : ℕ) → leb max_auto_retries n ≡ false → m ≤ n → m + 1 ≤ max_auto_retries
schedule-attempts n m e l = grind arith

schedule_effect-IsRetryValid :
    (now : Seen) (s : Retry) → IsBelow now.retry_attempt s → IsRetryValid (schedule_effect now s)
schedule_effect-IsRetryValid now s v =
    if_both IsRetryValid (is_idle now) (clear-IsRetryValid s v.valid)
      (elim (Bool-cases (leb max_auto_retries now.retry_attempt)) [
        | inl e ↦ rw e (record {
          attempts = clear-attempts s.retry_attempt s.timer v.valid.attempts;
          delay = omega arith;
          busy = v.valid.busy;
        })
        | inr e ↦ rw e (record {
          attempts = schedule-attempts now.retry_attempt s.retry_attempt e v.below;
          delay = omega arith;
          busy = v.valid.busy;
        })
      ])

effects-IsRetryValid :
    (old : Option Seen) (now : Seen) (s : Retry)
    → IsBelow now.retry_attempt s
    → IsRetryValid (effects old now s)
effects-IsRetryValid none now s v =
    schedule_effect-IsRetryValid now _
      (recovered_effect-IsBelow _ now _ (reset_effect-IsBelow _ s v))
effects-IsRetryValid (some old) now s v =
    let first =
      if_both (IsBelow now.retry_attempt) (str_eq old.context_key now.context_key) v
        (reset_effect-IsBelow _ s v) in
    let both =
      if_both (IsBelow now.retry_attempt)
        (same old.disconnected now.disconnected && same old.monitoring_paused now.monitoring_paused)
        first (recovered_effect-IsBelow _ now _ first) in
    if_both IsRetryValid (same_schedule old now) both.valid
      (schedule_effect-IsRetryValid now _ both)

commit-IsRetryValid : (e : Surroundings) (s : Retry) → IsRetryValid s → IsRetryValid (commit e s)
unfolding commit
commit-IsRetryValid e s v =
    let w = effects-IsRetryValid s.seen (see e s) s (record { valid = v; below = omega arith }) in
    record { attempts = w.attempts; delay = w.delay; busy = w.busy }

reconnect-IsRetryValid : (s : Retry) → IsRetryValid s → IsRetryValid (reconnect s)
reconnect-IsRetryValid s v = if_both IsRetryValid s.reconnecting v (record {
  attempts = clear-attempts s.retry_attempt s.timer v.attempts;
  delay = omega arith;
  busy = refl;
})

fire-attempts :
    (n : ℕ) (b : Bool) → b ≡ true → n + armed b ≤ max_auto_retries → n + 1 + 0 ≤ max_auto_retries
fire-attempts n b e l = ground arith

armed_le : (b : Bool) → 0 + armed b ≤ max_auto_retries
armed_le true = omega arith
armed_le false = omega arith

fire_if-IsRetryValid :
    (b : Bool) (s : Retry)
    → s.timer ≡ b
    → IsRetryValid s
    → IsRetryValid (
        if b
        then reconnect (record s { timer = false; retry_attempt = s.retry_attempt + 1 })
        else s)
fire_if-IsRetryValid true s e v = reconnect-IsRetryValid _ (record {
  attempts = fire-attempts s.retry_attempt s.timer e v.attempts;
  delay = v.delay;
  busy = v.busy;
})
fire_if-IsRetryValid false s e v = v

retry_step-IsRetryValid :
    (e : RetryEvent) (s : Retry) → IsRetryValid s → IsRetryValid (retry_step e s)
unfolding retry_step tick fire finish disconnect dismiss handle_reconnect
retry_step-IsRetryValid (commits e) s v = commit-IsRetryValid e s v
retry_step-IsRetryValid ticks s v =
    if_both IsRetryValid s.countdown
      (record { attempts = v.attempts; delay = grind (arith, v.delay); busy = v.busy }) v
retry_step-IsRetryValid fires s v = fire_if-IsRetryValid s.timer s refl v
retry_step-IsRetryValid finishes s v = record {
  attempts = v.attempts;
  delay = v.delay;
  busy = refl;
}
retry_step-IsRetryValid disconnects s v = record {
  attempts = omega arith;
  delay = omega arith;
  busy = v.busy;
}
retry_step-IsRetryValid dismisses s v = record {
  attempts = clear-attempts s.retry_attempt s.timer v.attempts;
  delay = omega arith;
  busy = v.busy;
}
retry_step-IsRetryValid reconnects s v =
    reconnect-IsRetryValid _
      (record { attempts = armed_le s.timer; delay = v.delay; busy = v.busy })

run_keeps : (es : List RetryEvent) (s : Retry) → IsRetryValid s → IsRetryValid (run_retries es s)
unfolding run_retries
run_keeps [] s v = v
run_keeps (e ∷ es) s v = run_keeps es (retry_step e s) (retry_step-IsRetryValid e s v)

-- Whatever the parent hands over at each commit, and in whatever order the commits, the callbacks and the
-- timers run, the retries made since the count was last reset and the one that is armed are at most
-- MAX_AUTO_RETRIES, the countdown is at most RETRY_DELAY_SEC, and the hook is busy exactly while a
-- reconnect runs.
pub run-IsRetryValid :
    (paused : Bool) (es : List RetryEvent) → IsRetryValid (run_retries es (start_retry paused))
run-IsRetryValid paused es =
    run_keeps es (start_retry paused)
      (record { attempts = omega arith; delay = omega arith; busy = refl })
