-- ===== src/Panels/Laws.antt =====
-- The console dock with its two panels: what every run keeps, and what choosing a view brings up.
use klew.Base.{
  ◌||◌, if◌then◌else◌, ℕ, ◌≤◌, ◌≡◌, refl, Bool, true, false, not, ◌&&◌, List, [], ◌∷◌, Option, none,
  some, if_both, arith,
}
use klew.Panels.Bounds.{
  on_move_bounds, on_resize_bounds, default_height_bound, IsTerminalValid,
  open_terminal_panel-IsTerminalValid, close_terminal-IsTerminalValid,
  start_terminal-IsTerminalValid, terminal_step-IsTerminalValid, stream_step_bound,
}
use klew.Panels.Dock.{
  View, view_terminal, view_stream, view_split, Dock, DockEvent, dock_step, PanelEvent, panel_step,
  dock_min_height, drag_dock, start_dock, run, open_terminal, open_stream, open_split, select_view,
  collapse, close_all,
}
use klew.Panels.Resize.{Window, Drag}
use klew.Panels.Stream.{stream_min_height, start_stream}
use klew.Panels.Terminal.{open_terminal_panel, normal, start_terminal}

-- The dock and the stream are at least as tall as their minimum, and the terminal is valid.
pub record IsDockValid (d : Dock) : Type 0 where
  pub tall : dock_min_height ≤ d.height
  pub terminal_valid : IsTerminalValid d.terminal
  pub stream_tall : stream_min_height ≤ d.stream.height

drag_dock-IsDockValid :
    (w : Window) (o : Option ℕ) (m : Drag) (d : Dock)
    → IsDockValid d
    → IsDockValid (drag_dock o w m d)
drag_dock-IsDockValid w none m d v = v
drag_dock-IsDockValid w (some h) m d v = record {
  tall = (on_move_bounds dock_min_height w h m).0;
  terminal_valid = v.terminal_valid;
  stream_tall = v.stream_tall;
}

select_view-IsDockValid :
    (w : Window) (i : View) (d : Dock) → IsDockValid d → IsDockValid (select_view w i d)
unfolding select_view open_terminal open_stream open_split
select_view-IsDockValid w view_terminal d v = record {
  tall = v.tall;
  terminal_valid = open_terminal_panel-IsTerminalValid w d.terminal v.terminal_valid;
  stream_tall = v.stream_tall;
}
select_view-IsDockValid w view_stream d v = record {
  tall = v.tall;
  terminal_valid = v.terminal_valid;
  stream_tall = v.stream_tall;
}
select_view-IsDockValid w view_split d v = record {
  tall = v.tall;
  terminal_valid = open_terminal_panel-IsTerminalValid w d.terminal v.terminal_valid;
  stream_tall = v.stream_tall;
}

dock_step-IsDockValid :
    (w : Window) (e : DockEvent) (d : Dock) → IsDockValid d → IsDockValid (dock_step w e d)
unfolding dock_step collapse close_all
dock_step-IsDockValid w (DockEvent.select i) d v = select_view-IsDockValid w i d v
dock_step-IsDockValid w DockEvent.collapse_dock d v = record {
  tall = v.tall;
  terminal_valid = v.terminal_valid;
  stream_tall = v.stream_tall;
}
dock_step-IsDockValid w DockEvent.close_both d v = record {
  tall = v.tall;
  terminal_valid = close_terminal-IsTerminalValid d.terminal v.terminal_valid;
  stream_tall = v.stream_tall;
}
dock_step-IsDockValid w DockEvent.maximize d v = record {
  tall = v.tall;
  terminal_valid = v.terminal_valid;
  stream_tall = v.stream_tall;
}
dock_step-IsDockValid w DockEvent.restore d v = record {
  tall = v.tall;
  terminal_valid = v.terminal_valid;
  stream_tall = v.stream_tall;
}
dock_step-IsDockValid w DockEvent.start_resize d v =
    if_both IsDockValid (d.expanded && not d.is_maximized)
      (record { tall = v.tall; terminal_valid = v.terminal_valid; stream_tall = v.stream_tall }) v
dock_step-IsDockValid w DockEvent.release d v = record {
  tall = v.tall;
  terminal_valid = v.terminal_valid;
  stream_tall = v.stream_tall;
}
dock_step-IsDockValid w DockEvent.window_resize d v = record {
  tall = (on_resize_bounds dock_min_height w d.height v.tall).0;
  terminal_valid = v.terminal_valid;
  stream_tall = v.stream_tall;
}
dock_step-IsDockValid w (DockEvent.move m) d v = drag_dock-IsDockValid w d.drag m d v

panel_step-IsDockValid :
    (w : Window) (e : PanelEvent) (d : Dock) → IsDockValid d → IsDockValid (panel_step w e d)
unfolding panel_step
panel_step-IsDockValid w (PanelEvent.at_dock e) d v = dock_step-IsDockValid w e d v
panel_step-IsDockValid w (PanelEvent.at_terminal e) d v = record {
  tall = v.tall;
  terminal_valid = terminal_step-IsTerminalValid w e d.terminal v.terminal_valid;
  stream_tall = v.stream_tall;
}
panel_step-IsDockValid w (PanelEvent.at_stream e) d v = record {
  tall = v.tall;
  terminal_valid = v.terminal_valid;
  stream_tall = stream_step_bound w e d.stream v.stream_tall;
}

start_dock-IsDockValid :
    (w : Window) (o : Bool) (logs : List ℕ)
    → IsDockValid (start_dock w (start_terminal o w) (start_stream logs))
unfolding start_dock start_stream
start_dock-IsDockValid w o logs = record {
  tall = default_height_bound dock_min_height w;
  terminal_valid = start_terminal-IsTerminalValid o w;
  stream_tall = omega arith;
}

run_keeps : (es : List (Window × PanelEvent)) (d : Dock) → IsDockValid d → IsDockValid (run es d)
unfolding run
run_keeps [] d v = v
run_keeps ((w, e) ∷ es) d v = run_keeps es (panel_step w e d) (panel_step-IsDockValid w e d v)

-- Whatever the callbacks and listeners of the dock, the terminal panel and the stream panel do, in any
-- order and with a window that may change between any two, the dock's and the stream's heights are
-- at least their minimum, and so is the terminal's, whose panel is not in the closed state while its flag
-- says that it is open.
pub run-IsDockValid :
    (w : Window) (o : Bool) (logs : List ℕ) (es : List (Window × PanelEvent))
    → IsDockValid (run es (start_dock w (start_terminal o w) (start_stream logs)))
run-IsDockValid w o logs es =
    run_keeps es (start_dock w (start_terminal o w) (start_stream logs))
      (start_dock-IsDockValid w o logs)

-- whether a view has the terminal in it
abbrev shows_terminal : View → Bool
shows_terminal view_stream = false
shows_terminal _ = true

-- whether a view has the stream in it
abbrev shows_stream : View → Bool
shows_stream view_terminal = false
shows_stream _ = true

-- Choosing a view makes it the active one and brings the dock up at its own height, not maximized; the
-- terminal panel is opened in its normal state if the view has it and is left as it was otherwise, and
-- so is the stream panel's state.
pub select_view_lem :
    (w : Window) (i : View) (d : Dock)
    → ((select_view w i d).active_view ≡ i)
      × ((select_view w i d).expanded ≡ true)
      × ((select_view w i d).is_maximized ≡ false)
      × ((select_view w i d).height ≡ d.height)
      × ((select_view w i d).terminal.open_flag ≡ (shows_terminal i || d.terminal.open_flag))
      × ((select_view w i d).terminal.panel_state
          ≡ (if shows_terminal i then normal else d.terminal.panel_state))
      × ((select_view w i d).stream.panel_state
          ≡ (if shows_stream i then normal else d.stream.panel_state))
unfolding select_view open_terminal open_stream open_split open_terminal_panel
select_view_lem w view_terminal d = (refl, refl, refl, refl, refl, refl, refl)
select_view_lem w view_stream d = (refl, refl, refl, refl, refl, refl, refl)
select_view_lem w view_split d = (refl, refl, refl, refl, refl, refl, refl)
