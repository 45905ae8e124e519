-- ===== src/Panels/Terminal.antt =====
-- hooks/useTerminalPanel.js. A drag goes on from the height at which it began.
use klew.Base.{ℕ, Bool, true, false, not, Option, none, some, ltb, if◌then◌else◌}
use klew.Panels.Resize.{Window, Drag, default_height, on_move, on_resize}

pub data PanelState : Type 0 where
  closed minimized normal maximized : PanelState

abbrev pub terminal_min_height : ℕ
terminal_min_height = 140

pub record Terminal : Type 0 where
  pub open_flag : Bool
  pub panel_state : PanelState
  pub height : ℕ
  -- `startH` of the drag under way
  pub drag : Option ℕ

unfoldable pub start_terminal : Bool → Window → Terminal
start_terminal default_open w = record {
  open_flag = default_open;
  panel_state = if default_open then normal else closed;
  height = default_height terminal_min_height w;
  drag = none;
}

abbrev pub positive_height : Window → ℕ → ℕ
positive_height w h = if ltb 0 h then h else default_height terminal_min_height w

unfoldable pub open_terminal_panel : Window → Terminal → Terminal
open_terminal_panel w t = record t {
  open_flag = true;
  panel_state = normal;
  height = positive_height w t.height;
}

unfoldable pub close_terminal : Terminal → Terminal
close_terminal t = record t { open_flag = false; panel_state = closed }

unfoldable pub toggle_terminal : Window → Terminal → Terminal
toggle_terminal w t =
    if not t.open_flag
    then record t { open_flag = true; panel_state = normal; height = positive_height w t.height }
    else record t { open_flag = false; panel_state = closed }

abbrev pub set_terminal_state : PanelState → Terminal → Terminal
set_terminal_state s t = record t { panel_state = s }

abbrev pub start_drag : PanelState → Terminal → Terminal
start_drag normal t = record t { drag = some t.height }
start_drag _ t = t

abbrev pub drag_terminal : Option ℕ → Window → Drag → Terminal → Terminal
drag_terminal none w d t = t
drag_terminal (some h) w d t = record t { height = on_move terminal_min_height w h d }

-- The callbacks of the hook, and what the window's listeners do.
pub data TerminalEvent : Type 0 where
  open_panel close toggle minimize maximize restore start_resize release : TerminalEvent
  move : Drag → TerminalEvent
  window_resize : TerminalEvent

unfoldable pub terminal_step : Window → TerminalEvent → Terminal → Terminal
unfolding open_terminal_panel close_terminal toggle_terminal
terminal_step w open_panel t = open_terminal_panel w t
terminal_step w close t = close_terminal t
terminal_step w toggle t = toggle_terminal w t
terminal_step w minimize t = set_terminal_state minimized t
terminal_step w maximize t = set_terminal_state maximized t
terminal_step w restore t = set_terminal_state normal t
terminal_step w start_resize t = start_drag t.panel_state t
terminal_step w release t = record t { drag = none }
terminal_step w (move d) t = drag_terminal t.drag w d t
terminal_step w window_resize t = record t { height = on_resize terminal_min_height w t.height }
