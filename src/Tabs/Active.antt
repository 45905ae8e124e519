-- ===== src/Tabs/Active.antt =====
-- The active tab is one of the tabs, whichever are opened and closed.
use klew.Base.{ℕ, Bool, true, not, List, [], ◌∷◌, Option, none, some, Str, has, get_elem?}
use klew.Tabs.{
  Tab, Tabs, switch_group, Overrides, ids, none_left, close_tab, add_tab, select_tab,
  restart_all_tabs,
}

-- Whether an active tab is one of the tabs; without tabs there is none.
abbrev pub is_among : Option Str → List Tab → Bool
is_among none ts = none_left ts
is_among (some a) ts = has (ids ts) a

-- What the hook does to its tabs: `adds` says whether an update of the tabs is queued, and `picks i`
-- selects the tab shown at place `i`.
pub data TabEvent : Type 0 where
  adds : (queued : Bool) → Overrides → TabEvent
  closes : Str → TabEvent
  picks : ℕ → TabEvent
  restarts : (token : ℕ) → TabEvent
  switches : (token : ℕ) → Str → TabEvent

abbrev pub pick : Option Tab → Tabs → Tabs
pick none s = s
pick (some t) s = select_tab t.id s

unfoldable pub tab_step : TabEvent → Tabs → Tabs
unfolding add_tab close_tab select_tab restart_all_tabs switch_group
tab_step (adds queued o) s = add_tab queued o s
tab_step (closes id) s = close_tab id s
tab_step (picks i) s = pick (get_elem? s.tabs i) s
tab_step (restarts token) s = restart_all_tabs token s
tab_step (switches token key) s = switch_group token key s

unfoldable pub run_tabs : List TabEvent → Tabs → Tabs
unfolding tab_step
run_tabs [] s = s
run_tabs (e ∷ es) s = run_tabs es (tab_step e s)

-- Whether the active tab is one of the tabs, in a state of the hook.
abbrev pub is_valid : Tabs → Bool
is_valid s = is_among s.active_id s.tabs

-- No tab is added while an update of the tabs is queued.
abbrev pub is_prompt : TabEvent → Bool
is_prompt (adds queued o) = not queued
is_prompt _ = true
