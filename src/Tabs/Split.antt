-- ===== src/Tabs/Split.antt =====
-- lib/terminalSplit.js: two terminal tabs side by side.
use klew.Base.{
  ◌≡◌, refl, sym, ap, ◌∙◌, Bool, true, false, not, ◌&&◌, ◌||◌, List, [], ◌∷◌, Option, none, some,
  if◌then◌else◌, Str, str_eq, str_eq_iff, is_empty, length, ltb, arith,
}
use klew.Tabs.{Tab}

pub data Orientation : Type 0 where
  horizontal vertical : Orientation

pub record SplitView : Type 0 where
  pub orientation : Orientation
  pub first_id : Str
  pub second_id : Str
  pub focus_id : Str

-- `tabs.find((t) => t.id !== anchor)?.id || null`
abbrev pub other_tab : Str → List Tab → Option Str
other_tab anchor [] = none
other_tab anchor (t ∷ ts) =
    let rest = other_tab anchor ts in
    if not (str_eq t.id anchor) then (if is_empty t.id then none else some t.id) else rest

-- a missing id is the empty string
unfoldable pub resolve_split_partner : List Tab → Str → Str → Option Str
resolve_split_partner tabs anchor active =
    if ltb (length tabs) 2
    then none
    else if not (is_empty active) && not (str_eq active anchor)
    then some active
    else other_tab anchor tabs

unfoldable pub create_split_view : Orientation → Str → Str → Option SplitView
create_split_view o anchor partner =
    if is_empty anchor || is_empty partner || str_eq anchor partner
    then none
    else some
        (record { orientation = o; first_id = anchor; second_id = partner; focus_id = anchor })

unfoldable pub split_includes_tab : Option SplitView → Str → Bool
split_includes_tab none tab = false
split_includes_tab (some v) tab =
    not (is_empty tab) && (str_eq v.first_id tab || str_eq v.second_id tab)

unfoldable pub is_terminal_pane_visible : Option SplitView → Str → Str → Bool
unfolding split_includes_tab
is_terminal_pane_visible none tab active = str_eq tab active
is_terminal_pane_visible (some v) tab active = split_includes_tab (some v) tab

-- Whether a tab can be shown beside the anchor.
abbrev is_partner : Str → Option Str → Bool
is_partner anchor none = true
is_partner anchor (some p) = not (is_empty p) && not (str_eq p anchor)

other_tab-is_partner :
    (anchor : Str) (ts : List Tab) → is_partner anchor (other_tab anchor ts) ≡ true
other_tab-is_partner anchor [] = refl
other_tab-is_partner anchor (t ∷ ts) = ground (arith, other_tab-is_partner anchor ts)

resolve-is_partner :
    (ts : List Tab) (anchor active : Str)
    → is_partner anchor (resolve_split_partner ts anchor active) ≡ true
unfolding resolve_split_partner
resolve-is_partner ts anchor active = ground (arith, other_tab-is_partner anchor ts)

create_split_view_lem :
    (o : Orientation) (anchor p : Str)
    → is_empty anchor ≡ false
    → is_partner anchor (some p) ≡ true
    → create_split_view o anchor p
      ≡ some (record { orientation = o; first_id = anchor; second_id = p; focus_id = anchor })
unfolding create_split_view
create_split_view_lem o anchor p e h = ground (arith, str_eq_iff anchor p, str_eq_iff p anchor)

named_tab :
    (a p q : Str)
    → is_empty a ≡ false
    → is_empty p ≡ false
    → (not (is_empty q) && (str_eq a q || str_eq p q)) ≡ (str_eq a q || str_eq p q)
unfolding str_eq
named_tab a p (c ∷ q) e f = refl
named_tab [] p [] e f = absurd (cc)
named_tab (c ∷ a) [] [] e f = absurd (cc)
named_tab (c ∷ a) (d ∷ p) [] e f = refl

-- The tab that is picked to stand beside an anchor makes a split view with it: both are visible in
-- it, whichever tab is active, and another tab is not.
pub visible-split :
    (o : Orientation) (ts : List Tab) (anchor active p q : Str)
    → is_empty anchor ≡ false
    → resolve_split_partner ts anchor active ≡ some p
    → is_terminal_pane_visible (create_split_view o anchor p) q active
      ≡ (str_eq anchor q || str_eq p q)
unfolding is_terminal_pane_visible split_includes_tab
visible-split o ts anchor active p q e h =
    let k = sym (ap (is_partner anchor) h) ∙ resolve-is_partner ts anchor active in
    rw (create_split_view_lem o anchor p e k) (named_tab anchor p q e (ground (arith, k)))
