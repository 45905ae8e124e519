-- ===== src/Idle.antt =====
-- hooks/useIdleAutoStop.js: an investigation stops when the user has been idle for long enough.
pub mod Waits
mod Tests
use klew.Base.{
  ℕ, ◌+◌, ◌*◌, ltb, ◌==◌, Bool, true, false, not, ◌&&◌, ◌||◌, List, [], ◌∷◌, if◌then◌else◌,
}

abbrev pub bump_throttle_ms : ℕ
bump_throttle_ms = 30000

pub record IdleProps : Type 0 where
  pub enabled : Bool
  pub active : Bool
  pub idle_minutes : ℕ

-- The ref, with the second effect's state where it is watching.
pub record Idle : Type 0 where
  pub props : IdleProps
  pub last_activity : ℕ
  pub watching : Bool
  pub last_bump : ℕ
  -- how many times `onIdle` was called
  pub stops : ℕ

-- The hook after its first render, where it has nothing to watch.
abbrev pub first_idle : ℕ → Idle
first_idle now = record {
  props = record { enabled = false; active = false; idle_minutes = 0 };
  last_activity = now;
  watching = false;
  last_bump = 0;
  stops = 0;
}

abbrev pub idle_ms : IdleProps → ℕ
idle_ms p = p.idle_minutes * 60 * 1000

abbrev pub same_bool : Bool → Bool → Bool
same_bool true b = b
same_bool false b = not b

-- the first effect
abbrev pub active_effect : ℕ → IdleProps → Idle → Idle
active_effect now p s =
    if not (same_bool p.active s.props.active) && not p.active
    then record s { last_activity = now }
    else s

-- the second effect, after its cleanup
abbrev pub watch_effect : ℕ → IdleProps → Idle → Idle
watch_effect now p s =
    if not p.enabled || not p.active || p.idle_minutes == 0
    then record s { watching = false }
    else record s { last_activity = now; watching = true; last_bump = 0 }

-- A render in which one of the dependencies has changed.
unfoldable pub commit_idle : ℕ → IdleProps → Idle → Idle
commit_idle now p s = record (watch_effect now p (active_effect now p s)) { props = p }

-- `mark`, on an input of the user
unfoldable pub mark : ℕ → Idle → Idle
mark now s =
    if s.watching && not (ltb now (s.last_bump + bump_throttle_ms))
    then record s { last_bump = now; last_activity = now }
    else s

-- The interval's callback stops the investigation.
unfoldable pub is_due : ℕ → Idle → Bool
is_due now s = s.watching && not (ltb now (s.last_activity + idle_ms s.props))

unfoldable pub check_idle : ℕ → Idle → Idle
unfolding is_due
check_idle now s = record s {
  last_activity = if is_due now s then now else s.last_activity;
  stops = if is_due now s then s.stops + 1 else s.stops;
}

unfoldable pub bump_activity : ℕ → Idle → Idle
bump_activity now s = record s { last_activity = now }

pub data IdleEvent : Type 0 where
  commits : (now : ℕ) → IdleProps → IdleEvent
  inputs : (now : ℕ) → IdleEvent
  checks : (now : ℕ) → IdleEvent
  bumps : (now : ℕ) → IdleEvent

unfoldable pub idle_step : IdleEvent → Idle → Idle
unfolding commit_idle mark check_idle bump_activity
idle_step (commits now p) s = commit_idle now p s
idle_step (inputs now) s = mark now s
idle_step (checks now) s = check_idle now s
idle_step (bumps now) s = bump_activity now s

unfoldable pub run_idle : List IdleEvent → Idle → Idle
unfolding idle_step
run_idle [] s = s
run_idle (e ∷ es) s = run_idle es (idle_step e s)
