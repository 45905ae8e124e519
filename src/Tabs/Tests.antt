-- ===== src/Tabs/Tests.antt =====
-- Terminal tabs on concrete events.
use klew.Base.{
  ◌≡◌, refl, true, false, List, [], ◌∷◌, none, some, Str, codes, str_eq, has, lookup, insert,
}
use klew.Tabs.{
  Tabs, Overrides, create_terminal_tab, tabs_for_cache, write_cache, load_from_cache, switch_group,
  add_tab, close_tab, select_tab, restart_all_tabs, terminal_context_key,
}
use klew.Tabs.Active.{TabEvent, adds, closes, picks, switches, tab_step, run_tabs, is_valid}
use klew.Tabs.Split.{
  horizontal, resolve_split_partner, create_split_view, is_terminal_pane_visible,
  split_includes_tab, visible-split,
}

program : Unit {0}
unfolding str_eq has lookup insert create_terminal_tab tabs_for_cache write_cache load_from_cache
    switch_group add_tab close_tab select_tab restart_all_tabs terminal_context_key tab_step
    run_tabs resolve_split_partner create_split_view is_terminal_pane_visible split_includes_tab
program = tt

abbrev plain : Overrides
plain = record { title = []; shell = []; context_name = []; namespace = []; initial_input = [] }

abbrev dev : Str
dev = terminal_context_key (codes "/kube") (codes "dev")

abbrev empty : Tabs
empty = record {
  cache = [];
  context_key = dev;
  tabs = [];
  active_id = none;
  seeded = false;
  next_tab_seq = 1;
}

abbrev three : List TabEvent
three = adds false plain ∷ adds false plain ∷ adds false plain ∷ picks 1 ∷ []

-- closing the active tab makes the one that takes its place active
close_active :
    (run_tabs (closes (codes "term-tab-2") ∷ []) (run_tabs three empty)).active_id
    ≡ some (codes "term-tab-3")
unfolding program
close_active = refl

-- a switch to another context and back restores the group
switch_back :
    (run_tabs (switches 5 (codes "other") ∷ switches 6 dev ∷ []) (run_tabs three empty)).active_id
    ≡ some (codes "term-tab-2")
unfolding program
switch_back = refl

-- A tab that is opened while an update of the tabs is queued is not the active one: none is.
test_queued : is_valid (run_tabs (adds true plain ∷ []) empty) ≡ false
unfolding program
test_queued = refl

visible-split_example :
    is_terminal_pane_visible
      (create_split_view horizontal (codes "term-tab-2") (codes "term-tab-1"))
      (codes "term-tab-1")
      (codes "term-tab-2")
    ≡ true
unfolding program
visible-split_example =
    visible-split horizontal (run_tabs three empty).tabs (codes "term-tab-2") (codes "term-tab-2")
      (codes "term-tab-1") (codes "term-tab-1") refl refl
