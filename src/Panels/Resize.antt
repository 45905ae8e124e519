-- ===== src/Panels/Resize.antt =====
-- The height of a panel, as useTerminalPanel.js, useStreamPanel.js and useConsoleDock.js compute it.
-- `Math.floor(window.innerHeight * RATIO)` is floating-point arithmetic, so the window is taken as
-- its results.
use klew.Base.{ℕ, ◌+◌, ◌-◌, min, max}

-- What the window gives a panel: the floor of its height times the panel's two ratios.
pub record Window : Type 0 where
  pub default_share : ℕ
  pub max_share : ℕ

-- how far the pointer has gone since the drag began
pub data Drag : Type 0 where
  up down : ℕ → Drag

-- `Math.max(MIN_HEIGHT, Math.floor(window.innerHeight * DEFAULT_HEIGHT_RATIO))`
unfoldable pub default_height : ℕ → Window → ℕ
default_height min_height w = max min_height w.default_share

-- `Math.max(MIN_HEIGHT, Math.floor(window.innerHeight * MAX_HEIGHT_RATIO))`
unfoldable pub max_height : ℕ → Window → ℕ
max_height min_height w = max min_height w.max_share

-- `dragRef.current.startH + delta`; below 0 it is cut to 0, and MIN_HEIGHT is put in anyway
abbrev pub dragged : ℕ → Drag → ℕ
dragged h (up d) = h + d
dragged h (down d) = h - d

-- the height that `onMove` sets
unfoldable pub on_move : ℕ → Window → ℕ → Drag → ℕ
unfolding max_height
on_move min_height w start_height d =
    min (max_height min_height w) (max min_height (dragged start_height d))

-- the height that `onResize` sets
unfoldable pub on_resize : ℕ → Window → ℕ → ℕ
unfolding max_height
on_resize min_height w h = min h (max_height min_height w)
