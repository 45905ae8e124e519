-- ===== src/History/Tests.antt =====
-- The hook's history on concrete visits.
use klew.Base.{◌≡◌, refl, true, false, List, [], ◌∷◌, none, some, codes, join, str_eq, arith, Str}
use klew.History.{
  Entry, Partial, Nav, home_nav, to_partial, normalize_nav_entry, start_nav, current, push_entry,
  push, back, forward, go, nav_entry_key, can_go_back, can_go_forward,
}
use klew.History.Trips.{back-push}
use klew.History.Zipper.{
  Call, push_call, back_call, forward_call, run, spec_run, step, Represents, start-Represents,
  run-Represents, zipper,
}

program : Unit {0}
unfolding normalize_nav_entry start_nav push_entry push go back forward nav_entry_key join str_eq
    can_go_back can_go_forward run step
program = tt

abbrev nothing : Partial
nothing = record { tab = none; nodes_mode = none; nodes_focus = none; settings_section = none }

abbrev to_tab : Str → Partial
to_tab t = record nothing { tab = some t }

abbrev opened : Nav
opened = start_nav nothing

abbrev resources : Entry
resources = record home_nav { tab = codes "resources" }

abbrev two : Nav
two = record { stack = home_nav ∷ resources ∷ []; index = 1; skip_push = false; revision = 1 }

opens_home : current opened ≡ some home_nav
unfolding program
opens_home = refl

visits_resources : push opened (to_tab (codes "resources")) ≡ two
unfolding program
visits_resources = refl

renames_commands : (normalize_nav_entry (to_tab (codes "commands")) nothing).tab ≡ codes "evidence"
unfolding program
renames_commands = refl

key_of_home : nav_entry_key (some home_nav) ≡ codes "home|cluster|general"
unfolding program
key_of_home = refl

can_move : can_go_back two ≡ true
unfolding program
can_move = refl

cannot_move : can_go_forward two ≡ false
unfolding program
cannot_move = refl

-- A place whose parts hold the separator can share its key with another place.
keys_collide :
    nav_entry_key (some (record home_nav { tab = codes "a|b"; nodes_focus = codes "c" }))
    ≡ nav_entry_key (some (record home_nav { tab = codes "a"; nodes_focus = codes "b|c" }))
unfolding program
keys_collide = refl

abbrev calls : List Call
calls = push_call (to_tab (codes "resources")) ∷ back_call ∷ forward_call ∷ []

moves : (run opened calls).1 ≡ none ∷ some home_nav ∷ some resources ∷ []
unfolding program
moves = refl

start-Represents_example :
    Represents
      (start_nav nothing)
      (zipper [] (normalize_nav_entry nothing (to_partial home_nav)) [] false)
start-Represents_example = start-Represents nothing

run-Represents_example :
    Represents
      (run opened calls).0
      (spec_run (zipper [] (normalize_nav_entry nothing (to_partial home_nav)) [] false) calls).0
    × ((run opened calls).1
        ≡ (spec_run
            (zipper [] (normalize_nav_entry nothing (to_partial home_nav)) [] false)
            calls).1)
run-Represents_example = run-Represents calls start-Represents_example

back-push_example :
    ((back (push two (to_tab (codes "graph")))).1 ≡ current two)
    × ((back (push two (to_tab (codes "graph")))).0.index ≡ two.index)
unfolding program
back-push_example = back-push two (to_tab (codes "graph")) (omega arith) refl refl
