-- ===== src/Panels/Stream.antt =====
-- hooks/useStreamPanel.js, the live log panel.
use klew.Base.{
  ℕ, Bool, true, false, not, ◌&&◌, List, [], ◌∷◌, ◌++◌, Option, none, some, Str, str_eq, is_empty,
  trim, has, keep, map, all, length, ltb, ◌==◌, if◌then◌else◌,
}
use klew.Panels.Resize.{Window, Drag, on_move, on_resize}
use klew.Panels.Terminal.{PanelState, closed, minimized, normal, maximized}

abbrev pub stream_min_height : ℕ
stream_min_height = 120

pub record Stream : Type 0 where
  pub panel_state : PanelState
  pub height : ℕ
  pub mode : Str
  pub search : Str
  pub selected_pods : List Str
  pub pod_filter_pinned : Bool
  pub follow : Bool
  pub paused : Bool
  pub drag : Option ℕ

unfoldable pub start_stream : Str → Stream
start_stream logs = record {
  panel_state = minimized;
  height = 240;
  mode = logs;
  search = [];
  selected_pods = [];
  pod_filter_pinned = false;
  follow = true;
  paused = false;
  drag = none;
}

abbrev pub listed : List Str → List Str
listed all_pods = keep (λ p. not (is_empty p)) (map trim all_pods)

-- `next.length === all.length && all.every((p) => next.includes(p))`, where there are pods
abbrev pub collapse_full : List Str → List Str → List Str
collapse_full pods next =
    if ltb 0 (length pods) && (length next == length pods && all (has next) pods) then [] else next

abbrev pub without : Str → List Str → List Str
without name = keep (λ p. not (str_eq p name))

-- the new selection of `togglePod`; `pods` are the listed ones
unfoldable pub toggle_selection : Str → List Str → List Str → List Str
toggle_selection name [] [] = name ∷ []
toggle_selection name (p ∷ pods) [] = without name (p ∷ pods)
toggle_selection name pods (s ∷ selected) =
    if has (s ∷ selected) name
    then without name (s ∷ selected)
    else collapse_full pods ((s ∷ selected) ++ name ∷ [])

unfoldable pub toggle_pod : Str → List Str → Stream → Stream
unfolding toggle_selection
toggle_pod name all_pods s = record s {
  pod_filter_pinned = true;
  selected_pods = toggle_selection name (listed all_pods) s.selected_pods;
}

unfoldable pub select_pods : List Str → Bool → Stream → Stream
select_pods names pinned s = record s { selected_pods = names; pod_filter_pinned = pinned }

unfoldable pub select_matched_pods : List Str → Stream → Stream
select_matched_pods matched s = record s {
  selected_pods = matched;
  pod_filter_pinned = ltb 0 (length matched);
}

unfoldable pub select_all_pods : Stream → Stream
select_all_pods s = record s { selected_pods = []; pod_filter_pinned = false }

unfoldable pub reset_filters : Str → Stream → Stream
reset_filters logs s = record s {
  mode = logs;
  selected_pods = [];
  pod_filter_pinned = false;
  search = [];
  paused = false;
}

unfoldable pub toggle_paused : Stream → Stream
toggle_paused s = record s { paused = not s.paused; follow = s.paused }

abbrev pub set_stream_state : PanelState → Stream → Stream
set_stream_state p s = record s { panel_state = p }

abbrev pub toggle_maximize : PanelState → PanelState
toggle_maximize maximized = normal
toggle_maximize _ = maximized

abbrev pub start_stream_drag : PanelState → Stream → Stream
start_stream_drag normal s = record s { drag = some s.height }
start_stream_drag _ s = s

abbrev pub drag_stream : Option ℕ → Window → Drag → Stream → Stream
drag_stream none w d s = s
drag_stream (some h) w d s = record s { height = on_move stream_min_height w h d }

pub data StreamEvent : Type 0 where
  open_panel : PanelState → StreamEvent
  minimize maximize restore close toggle_max start_resize release : StreamEvent
  pod_toggle : Str → List Str → StreamEvent
  pods_selected : List Str → Bool → StreamEvent
  pods_matched : List Str → StreamEvent
  all_selected pause_toggle window_resize : StreamEvent
  filters_reset : Str → StreamEvent
  move : Drag → StreamEvent

unfoldable pub stream_step : Window → StreamEvent → Stream → Stream
unfolding toggle_pod select_pods select_matched_pods select_all_pods reset_filters toggle_paused
stream_step w (open_panel p) s = set_stream_state p s
stream_step w minimize s = set_stream_state minimized s
stream_step w maximize s = set_stream_state maximized s
stream_step w restore s = set_stream_state normal s
stream_step w close s = set_stream_state closed s
stream_step w toggle_max s = set_stream_state (toggle_maximize s.panel_state) s
stream_step w start_resize s = start_stream_drag s.panel_state s
stream_step w release s = record s { drag = none }
stream_step w (pod_toggle name pods) s = toggle_pod name pods s
stream_step w (pods_selected names pinned) s = select_pods names pinned s
stream_step w (pods_matched names) s = select_matched_pods names s
stream_step w all_selected s = select_all_pods s
stream_step w pause_toggle s = toggle_paused s
stream_step w window_resize s = record s { height = on_resize stream_min_height w s.height }
stream_step w (filters_reset logs) s = reset_filters logs s
stream_step w (move d) s = drag_stream s.drag w d s
