-- ===== src/Idle/Waits.antt =====
-- How long hooks/useIdleAutoStop.js waits after an input.
use klew.Base.{ℕ, ◌+◌, ◌≤◌, ◌<◌, ◌≡◌, true, List, [], ◌∷◌, ◌++◌, arith}
use klew.Idle.{
  Idle, IdleEvent, commits, inputs, checks, bumps, bump_throttle_ms, idle_ms, first_idle, mark,
  is_due, check_idle, commit_idle, bump_activity, idle_step, run_idle,
}

abbrev pub time_of : IdleEvent → ℕ
time_of (commits now p) = now
time_of (inputs now) = now
time_of (checks now) = now
time_of (bumps now) = now

-- The clock is not set back.
abbrev pub Ordered : ℕ → List IdleEvent → Type 0
Ordered now [] = Unit
Ordered now (e ∷ es) = (now ≤ time_of e) × Ordered (time_of e) es

record IsTimed (now : ℕ) (s : Idle) : Type 0 where
  past : s.last_activity ≤ now
  bumped : s.last_bump ≤ s.last_activity

-- A step keeps the times in order, and the time of the last activity never goes back.
record IsLater (s : Idle) (now : ℕ) (t : Idle) : Type 0 where
  timed : IsTimed now t
  later : s.last_activity ≤ t.last_activity

in_order :
    (now : ℕ) (s t : Idle)
    → t.last_activity ≤ now
    → t.last_bump ≤ t.last_activity
    → s.last_activity ≤ t.last_activity
    → IsLater s now t
in_order now s t past bumped later = record {
  timed = record { past = past; bumped = bumped };
  later = later;
}

idle_step-IsLater :
    (now : ℕ) (e : IdleEvent) (s : Idle)
    → now ≤ time_of e
    → IsTimed now s
    → IsLater s (time_of e) (idle_step e s)
unfolding idle_step commit_idle mark check_idle is_due bump_activity
idle_step-IsLater now (commits t p) s h v =
    in_order t s _ (ground arith) (ground arith) (ground arith)
idle_step-IsLater now (inputs t) s h v = in_order t s _ (ground arith) (ground arith) (ground arith)
idle_step-IsLater now (checks t) s h v = in_order t s _ (ground arith) (ground arith) (ground arith)
idle_step-IsLater now (bumps t) s h v = in_order t s _ (ground arith) (ground arith) (ground arith)

run_idle-later :
    (now : ℕ) (es : List IdleEvent) (s : Idle)
    → Ordered now es
    → IsTimed now s
    → s.last_activity ≤ (run_idle es s).last_activity
unfolding run_idle
run_idle-later now [] s o v = omega arith
run_idle-later now (e ∷ es) s (h, o) v =
    let step = idle_step-IsLater now e s h v in
    let one = step.later in
    omega (arith, one, run_idle-later (time_of e) es (idle_step e s) o step.timed)

mark-recent :
    (u : ℕ) (s : Idle)
    → s.watching ≡ true
    → s.last_bump ≤ s.last_activity
    → u < (mark u s).last_activity + bump_throttle_ms
unfolding mark
mark-recent u s w h = ground (arith, w, h)

wait_from :
    (now u t : ℕ) (before after : List IdleEvent) (s : Idle)
    → Ordered now (before ++ inputs u ∷ after)
    → IsTimed now s
    → (run_idle before s).watching ≡ true
    → is_due t (run_idle (before ++ inputs u ∷ after) s) ≡ true
    → u + idle_ms (run_idle (before ++ inputs u ∷ after) s).props < t + bump_throttle_ms
unfolding run_idle is_due idle_step
wait_from now u t [] after s (h, o) v w d =
    let step = idle_step-IsLater now (inputs u) s h v in
    let recent = mark-recent u s w v.bumped in
    let later = run_idle-later u after (mark u s) o step.timed in ground (arith, recent, later, d)
wait_from now u t (e ∷ before) after s (h, o) v w d =
    let step = idle_step-IsLater now e s h v in
    wait_from (time_of e) u t before after (idle_step e s) o step.timed w d

-- An investigation is not stopped before the idle time has gone by since any input that was made
-- while the hook watched, but for less than the throttle of 30 seconds, if the clock is not set back.
pub is_due-after_input :
    (start u t : ℕ) (before after : List IdleEvent)
    → Ordered start (before ++ inputs u ∷ after)
    → (run_idle before (first_idle start)).watching ≡ true
    → is_due t (run_idle (before ++ inputs u ∷ after) (first_idle start)) ≡ true
    → u + idle_ms (run_idle (before ++ inputs u ∷ after) (first_idle start)).props
      < t + bump_throttle_ms
is_due-after_input start u t before after o w d =
    wait_from start u t before after (first_idle start) o
      (record { past = omega arith; bumped = omega arith }) w d
