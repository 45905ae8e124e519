-- ===== src/Shell.antt =====
-- lib/shellLayout.js: the modes of the activity rail, and when the explorer gives way. Storage and the
-- defaults of the layout are not modelled. Sizes are numbers of pixels.
mod Tests
use klew.Base.{
  ℕ, ◌+◌, ◌-◌, ◌≤◌, ◌<◌, ◌≡◌, refl, Bool, true, false, not, Option, none, some, if◌then◌else◌, ltb,
  arith,
}

pub data RailMode : Type 0 where
  auto expanded collapsed : RailMode

-- `none` is a value that is no mode; the flag is `legacyRailCollapsed === true`
unfoldable pub normalize_rail_mode : Option RailMode → Bool → RailMode
normalize_rail_mode (some m) legacy = m
normalize_rail_mode none legacy = if legacy then collapsed else auto

unfoldable pub resolve_rail_collapsed : RailMode → Bool → Bool
resolve_rail_collapsed collapsed has_explorer = true
resolve_rail_collapsed expanded has_explorer = false
resolve_rail_collapsed auto has_explorer = has_explorer

abbrev pub flipped_mode : Bool → Bool → RailMode
flipped_mode true true = auto
flipped_mode false false = auto
flipped_mode true false = collapsed
flipped_mode false true = expanded

unfoldable pub next_rail_mode : RailMode → Bool → RailMode
unfolding resolve_rail_collapsed
next_rail_mode m has_explorer =
    flipped_mode (not (resolve_rail_collapsed m has_explorer)) has_explorer

-- The toggle flips what is seen, and a second toggle shows again what was seen before, in whichever
-- mode the rail was and whether or not an explorer stands beside it.
pub resolve-next :
    (m : RailMode) (has_explorer : Bool)
    → (resolve_rail_collapsed (next_rail_mode m has_explorer) has_explorer
        ≡ not (resolve_rail_collapsed m has_explorer))
      × (resolve_rail_collapsed
            (next_rail_mode (next_rail_mode m has_explorer) has_explorer)
            has_explorer
          ≡ resolve_rail_collapsed m has_explorer)
unfolding next_rail_mode
resolve-next auto true = (refl, refl)
resolve-next auto false = (refl, refl)
resolve-next expanded true = (refl, refl)
resolve-next expanded false = (refl, refl)
resolve-next collapsed true = (refl, refl)
resolve-next collapsed false = (refl, refl)
