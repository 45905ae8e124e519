-- ===== src/Shell/Tests.antt =====
-- The rail on concrete modes.
use klew.Base.{◌≡◌, refl, true, none}
use klew.Shell.{
  auto, expanded, collapsed, normalize_rail_mode, resolve_rail_collapsed, next_rail_mode,
}

-- an icon-only choice of an old layout stays
legacy_collapsed : normalize_rail_mode none true ≡ collapsed
unfolding normalize_rail_mode
legacy_collapsed = refl

-- beside an explorer the expanded rail goes back to the automatic mode
back_to_auto : next_rail_mode expanded true ≡ auto
unfolding next_rail_mode resolve_rail_collapsed
back_to_auto = refl
