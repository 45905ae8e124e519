-- ===== src/Panels/Tests.antt =====
-- The panels on concrete events.
use klew.Base.{◌≡◌, refl, false, List, [], ◌∷◌, Str, codes, str_eq, has}
use klew.Panels.Resize.{Window, up, down, default_height, max_height, on_move, on_resize}
use klew.Panels.Terminal.{
  TerminalEvent, start_terminal, terminal_step, open_terminal_panel, close_terminal,
  toggle_terminal,
}
use klew.Panels.Stream.{
  StreamEvent, start_stream, stream_step, toggle_selection, toggle_pod, select_pods,
  select_matched_pods, select_all_pods, reset_filters, toggle_paused,
}
use klew.Panels.Dock.{
  view_split, Dock, DockEvent, PanelEvent, at_dock, at_terminal, at_stream, start_dock, dock_step,
  panel_step, run, select_view, open_terminal, open_stream, open_split, collapse, close_all,
}
use klew.Panels.Laws.{IsDockValid, run-IsDockValid}

program : Unit {0}
unfolding default_height max_height on_move on_resize start_terminal terminal_step
    open_terminal_panel close_terminal toggle_terminal start_stream stream_step toggle_selection
    toggle_pod select_pods select_matched_pods select_all_pods reset_filters toggle_paused
    start_dock dock_step panel_step run select_view open_terminal open_stream open_split collapse
    close_all str_eq has
program = tt

abbrev window : Window
window = record { default_share = 400; max_share = 700 }

abbrev logs : Str
logs = codes "logs"

abbrev dock : Dock
dock = start_dock window (start_terminal false window) (start_stream logs)

abbrev drags : List (Window × PanelEvent)
drags =
    (window, at_dock (DockEvent.select view_split))
    ∷ (window, at_terminal TerminalEvent.start_resize)
    ∷ (window, at_terminal (TerminalEvent.move (up 900)))
    ∷ (window, at_terminal TerminalEvent.release)
    ∷ (window, at_stream StreamEvent.start_resize)
    ∷ (window, at_stream (StreamEvent.move (down 500)))
    ∷ []

drags_terminal : (run drags dock).terminal.height ≡ 700
unfolding program
drags_terminal = refl

drags_stream : (run drags dock).stream.height ≡ 120
unfolding program
drags_stream = refl

run-IsDockValid_example : IsDockValid (run drags dock)
run-IsDockValid_example = run-IsDockValid window false logs drags

abbrev pods : List Str
pods = codes "a" ∷ codes "b" ∷ codes "c" ∷ []

-- the selection becomes empty again, which shows all pods
toggle_back : toggle_selection (codes "b") pods (toggle_selection (codes "b") pods []) ≡ []
unfolding program
toggle_back = refl
