-- ===== src/Panels.antt =====
-- The docked panels: hooks/useTerminalPanel.js, hooks/useStreamPanel.js and the console dock of
-- hooks/useConsoleDock.js, which opens and closes the two.
pub mod Resize
pub mod Terminal
pub mod Stream
pub mod Dock
pub mod Bounds
pub mod Laws
pub mod Pods
mod Tests
