-- ===== src/Panels/Dock.antt =====
-- hooks/useConsoleDock.js: the dock that shows the terminal, the stream, or both.
use klew.Base.{ℕ, Bool, true, false, not, ◌&&◌, Option, none, some, if◌then◌else◌, List, [], ◌∷◌}
use klew.Panels.Resize.{Window, Drag, default_height, on_move, on_resize}
use klew.Panels.Terminal.{
  closed, normal, Terminal, open_terminal_panel, close_terminal, TerminalEvent, terminal_step,
}
use klew.Panels.Stream.{Stream, set_stream_state, StreamEvent, stream_step}

pub data View : Type 0 where
  view_terminal view_stream view_split : View

abbrev pub dock_min_height : ℕ
dock_min_height = 120

pub record Dock : Type 0 where
  pub active_view : View
  pub expanded : Bool
  pub height : ℕ
  pub is_maximized : Bool
  pub drag : Option ℕ
  -- the two panels that the hook is handed
  pub terminal : Terminal
  pub stream : Stream

unfoldable pub start_dock : Window → Terminal → Stream → Dock
start_dock w t s = record {
  active_view = view_stream;
  expanded = false;
  height = default_height dock_min_height w;
  is_maximized = false;
  drag = none;
  terminal = t;
  stream = s;
}

abbrev pub show : View → Dock → Dock
show v d = record d { active_view = v; expanded = true; is_maximized = false }

unfoldable pub open_terminal : Window → Dock → Dock
open_terminal w d = show view_terminal (record d { terminal = open_terminal_panel w d.terminal })

unfoldable pub open_stream : Dock → Dock
open_stream d = show view_stream (record d { stream = set_stream_state normal d.stream })

unfoldable pub open_split : Window → Dock → Dock
open_split w d = show view_split (record d {
  terminal = open_terminal_panel w d.terminal;
  stream = set_stream_state normal d.stream;
})

unfoldable pub select_view : Window → View → Dock → Dock
unfolding open_terminal open_stream open_split
select_view w view_terminal d = open_terminal w d
select_view w view_stream d = open_stream d
select_view w view_split d = open_split w d

unfoldable pub collapse : Dock → Dock
collapse d = record d { expanded = false; is_maximized = false }

unfoldable pub close_all : Dock → Dock
close_all d = record d {
  expanded = false;
  is_maximized = false;
  terminal = close_terminal d.terminal;
  stream = set_stream_state closed d.stream;
}

abbrev pub drag_dock : Option ℕ → Window → Drag → Dock → Dock
drag_dock none w m d = d
drag_dock (some h) w m d = record d { height = on_move dock_min_height w h m }

pub data DockEvent : Type 0 where
  select : View → DockEvent
  collapse_dock close_both maximize restore start_resize release window_resize : DockEvent
  move : Drag → DockEvent

unfoldable pub dock_step : Window → DockEvent → Dock → Dock
unfolding select_view collapse close_all
dock_step w (select v) d = select_view w v d
dock_step w collapse_dock d = collapse d
dock_step w close_both d = close_all d
dock_step w maximize d = record d { is_maximized = true }
dock_step w restore d = record d { is_maximized = false }
dock_step w start_resize d =
    if d.expanded && not d.is_maximized then record d { drag = some d.height } else d
dock_step w release d = record d { drag = none }
dock_step w window_resize d = record d { height = on_resize dock_min_height w d.height }
dock_step w (move m) d = drag_dock d.drag w m d

-- The dock and its two panels, each with its own callbacks and listeners.
pub data PanelEvent : Type 0 where
  at_dock : DockEvent → PanelEvent
  at_terminal : TerminalEvent → PanelEvent
  at_stream : StreamEvent → PanelEvent

unfoldable pub panel_step : Window → PanelEvent → Dock → Dock
unfolding dock_step terminal_step stream_step
panel_step w (at_dock e) d = dock_step w e d
panel_step w (at_terminal e) d = record d { terminal = terminal_step w e d.terminal }
panel_step w (at_stream e) d = record d { stream = stream_step w e d.stream }

-- each event comes with the window it finds
unfoldable pub run : List (Window × PanelEvent) → Dock → Dock
unfolding panel_step
run [] d = d
run ((w, e) ∷ es) d = run es (panel_step w e d)
