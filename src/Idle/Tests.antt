-- ===== src/Idle/Tests.antt =====
-- The idle stop on concrete times.
use klew.Base.{◌+◌, ◌<◌, ◌≡◌, refl, true, List, [], ◌∷◌, ◌++◌, arith}
use klew.Idle.{
  IdleProps, IdleEvent, commits, inputs, checks, first_idle, idle_ms, is_due, commit_idle, mark,
  check_idle, bump_activity, idle_step, run_idle, bump_throttle_ms,
}
use klew.Idle.Waits.{is_due-after_input}

program : Unit {0}
unfolding is_due commit_idle mark check_idle bump_activity idle_step run_idle
program = tt

abbrev one_minute : IdleProps
one_minute = record { enabled = true; active = true; idle_minutes = 1 }

abbrev before : List IdleEvent
before = commits 1000 one_minute ∷ inputs 40000 ∷ []

abbrev events : List IdleEvent
events = before ++ inputs 50000 ∷ []

-- The input at 50 seconds is not counted, as one at 40 seconds was, and the stop is 10 seconds early.
early : (run_idle (events ++ checks 100000 ∷ []) (first_idle 0)).stops ≡ 1
unfolding program
early = refl

watches : (run_idle before (first_idle 0)).watching ≡ true
unfolding program
watches = refl

due : is_due 100000 (run_idle events (first_idle 0)) ≡ true
unfolding program
due = refl

is_due-after_input_example :
    50000 + idle_ms (run_idle events (first_idle 0)).props < 100000 + bump_throttle_ms
is_due-after_input_example =
    is_due-after_input 0 50000 100000 before [] (omega arith, (omega arith, (omega arith, tt)))
      watches due
