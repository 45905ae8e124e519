-- ===== src/Panels/Bounds.antt =====
-- What the panels' callbacks keep true, whatever the order in which they come.
use klew.Base.{ℕ, ◌≤◌, ◌≡◌, refl, Bool, true, false, not, ◌&&◌, Option, none, some, arith, if_both}
use klew.Panels.Resize.{Window, Drag, up, down, default_height, max_height, on_move, on_resize}
use klew.Panels.Stream.{
  Stream, StreamEvent, stream_step, stream_min_height, start_stream_drag, drag_stream, toggle_pod,
  select_pods, select_matched_pods, select_all_pods, reset_filters, toggle_paused,
}
use klew.Panels.Terminal.{
  PanelState, closed, minimized, normal, maximized, Terminal, TerminalEvent, terminal_step,
  terminal_min_height, start_terminal, positive_height, open_terminal_panel, close_terminal,
  toggle_terminal, start_drag, drag_terminal,
}

pub on_move_bounds :
    (m : ℕ) (w : Window) (h : ℕ) (d : Drag)
    → (m ≤ on_move m w h d) × (on_move m w h d ≤ max_height m w)
unfolding on_move max_height
on_move_bounds m w h (up d) = omega arith
on_move_bounds m w h (down d) = omega arith

pub on_resize_bounds :
    (m : ℕ) (w : Window) (h : ℕ)
    → m ≤ h
    → (m ≤ on_resize m w h) × (on_resize m w h ≤ max_height m w)
unfolding on_resize max_height
on_resize_bounds m w h l = omega arith

pub default_height_bound : (m : ℕ) (w : Window) → m ≤ default_height m w
unfolding default_height
default_height_bound m w = omega arith

abbrev is_closed : PanelState → Bool
is_closed closed = true
is_closed _ = false

-- A panel that is open is not in the closed state, and its height is never below the minimum.
pub record IsTerminalValid (t : Terminal) : Type 0 where
  pub shown : (t.open_flag && is_closed t.panel_state) ≡ false
  pub tall : terminal_min_height ≤ t.height

pub start_terminal-IsTerminalValid : (o : Bool) (w : Window) → IsTerminalValid (start_terminal o w)
unfolding start_terminal
start_terminal-IsTerminalValid true w = record {
  shown = refl;
  tall = default_height_bound terminal_min_height w;
}
start_terminal-IsTerminalValid false w = record {
  shown = refl;
  tall = default_height_bound terminal_min_height w;
}

positive_height_bound :
    (w : Window) (h : ℕ) → terminal_min_height ≤ h → terminal_min_height ≤ positive_height w h
positive_height_bound w h l = ground (arith, default_height_bound terminal_min_height w)

start_drag-IsTerminalValid :
    (p : PanelState) (t : Terminal) → IsTerminalValid t → IsTerminalValid (start_drag p t)
start_drag-IsTerminalValid closed t v = v
start_drag-IsTerminalValid minimized t v = v
start_drag-IsTerminalValid normal t v = record { shown = v.shown; tall = v.tall }
start_drag-IsTerminalValid maximized t v = v

drag_terminal-IsTerminalValid :
    (w : Window) (o : Option ℕ) (d : Drag) (t : Terminal)
    → IsTerminalValid t
    → IsTerminalValid (drag_terminal o w d t)
drag_terminal-IsTerminalValid w none d t v = v
drag_terminal-IsTerminalValid w (some h) d t v = record {
  shown = v.shown;
  tall = (on_move_bounds terminal_min_height w h d).0;
}

pub open_terminal_panel-IsTerminalValid :
    (w : Window) (t : Terminal) → IsTerminalValid t → IsTerminalValid (open_terminal_panel w t)
unfolding open_terminal_panel
open_terminal_panel-IsTerminalValid w t v = record {
  shown = ground arith;
  tall = positive_height_bound w t.height v.tall;
}

pub close_terminal-IsTerminalValid :
    (t : Terminal) → IsTerminalValid t → IsTerminalValid (close_terminal t)
unfolding close_terminal
close_terminal-IsTerminalValid t v = record { shown = refl; tall = v.tall }

toggle_terminal-IsTerminalValid :
    (w : Window) (t : Terminal) → IsTerminalValid t → IsTerminalValid (toggle_terminal w t)
unfolding toggle_terminal open_terminal_panel close_terminal
toggle_terminal-IsTerminalValid w t v =
    if_both IsTerminalValid (not t.open_flag) (open_terminal_panel-IsTerminalValid w t v)
      (close_terminal-IsTerminalValid t v)

pub terminal_step-IsTerminalValid :
    (w : Window) (e : TerminalEvent) (t : Terminal)
    → IsTerminalValid t
    → IsTerminalValid (terminal_step w e t)
unfolding terminal_step
terminal_step-IsTerminalValid w TerminalEvent.open_panel t v =
    open_terminal_panel-IsTerminalValid w t v
terminal_step-IsTerminalValid w TerminalEvent.close t v = close_terminal-IsTerminalValid t v
terminal_step-IsTerminalValid w TerminalEvent.toggle t v = toggle_terminal-IsTerminalValid w t v
terminal_step-IsTerminalValid w TerminalEvent.minimize t v = record {
  shown = ground arith;
  tall = v.tall;
}
terminal_step-IsTerminalValid w TerminalEvent.maximize t v = record {
  shown = ground arith;
  tall = v.tall;
}
terminal_step-IsTerminalValid w TerminalEvent.restore t v = record {
  shown = ground arith;
  tall = v.tall;
}
terminal_step-IsTerminalValid w TerminalEvent.start_resize t v =
    start_drag-IsTerminalValid t.panel_state t v
terminal_step-IsTerminalValid w TerminalEvent.release t v = record {
  shown = v.shown;
  tall = v.tall;
}
terminal_step-IsTerminalValid w (TerminalEvent.move d) t v =
    drag_terminal-IsTerminalValid w t.drag d t v
terminal_step-IsTerminalValid w TerminalEvent.window_resize t v = record {
  shown = v.shown;
  tall = (on_resize_bounds terminal_min_height w t.height v.tall).0;
}

start_stream_drag-height : (p : PanelState) (s : Stream) → (start_stream_drag p s).height ≡ s.height
start_stream_drag-height closed s = refl
start_stream_drag-height minimized s = refl
start_stream_drag-height normal s = refl
start_stream_drag-height maximized s = refl

drag_stream_bound :
    (w : Window) (o : Option ℕ) (d : Drag) (s : Stream)
    → stream_min_height ≤ s.height
    → stream_min_height ≤ (drag_stream o w d s).height
drag_stream_bound w none d s l = l
drag_stream_bound w (some h) d s l = (on_move_bounds stream_min_height w h d).0

pub stream_step_bound :
    (w : Window) (e : StreamEvent) (s : Stream)
    → stream_min_height ≤ s.height
    → stream_min_height ≤ (stream_step w e s).height
unfolding stream_step toggle_pod select_pods select_matched_pods select_all_pods reset_filters
    toggle_paused
stream_step_bound w (StreamEvent.open_panel p) s l = l
stream_step_bound w StreamEvent.minimize s l = l
stream_step_bound w StreamEvent.maximize s l = l
stream_step_bound w StreamEvent.restore s l = l
stream_step_bound w StreamEvent.close s l = l
stream_step_bound w StreamEvent.toggle_max s l = l
stream_step_bound w StreamEvent.start_resize s l =
    grind (arith, start_stream_drag-height s.panel_state s)
stream_step_bound w StreamEvent.release s l = l
stream_step_bound w (StreamEvent.pod_toggle name pods) s l = l
stream_step_bound w (StreamEvent.pods_selected names pinned) s l = l
stream_step_bound w (StreamEvent.pods_matched names) s l = l
stream_step_bound w StreamEvent.all_selected s l = l
stream_step_bound w StreamEvent.pause_toggle s l = l
stream_step_bound w StreamEvent.window_resize s l =
    (on_resize_bounds stream_min_height w s.height l).0
stream_step_bound w (StreamEvent.filters_reset logs) s l = l
stream_step_bound w (StreamEvent.move d) s l = drag_stream_bound w s.drag d s l
