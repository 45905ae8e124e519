-- ===== src/Entities/Renders.antt =====
-- Renders of hooks/useCatalogEntities.js. A render with other props returns the states as they are;
-- the effects that put them right run after it, and an answer or an event of the watch may come in
-- between. React runs the effects that are due before it hands on an event of the user, so that a
-- refresh is one for the props that the effects ran for.
use klew.Base.{ℕ, Bool, true, false, List, [], ◌∷◌, Option, Str}
use klew.Cache.Catalog.{Cache}
use klew.Entities.{Props, Payload, ListResult, Hook, run_effects, first_hook}
use klew.Entities.Requests.{HookEvent, hook_step}

pub record Page {ℓ} (R : Type ℓ) : Type ℓ where
  pub hook : Hook R
  -- the props of the last render
  pub rendered : Props
  -- whether its effects have still to run
  pub due : Bool

pub data PageEvent : Type 0 where
  renders : Props → PageEvent
  runs_effects : (now : ℕ) (visible : Bool) → PageEvent
  happens : HookEvent → PageEvent

module _ {ℓ κ} {E : Type ℓ} {R : Type κ} (to_row : E → Str → R)
    (listing : Str → ℕ → Option (ListResult E)) where
  unfoldable pub page_step : PageEvent → Page R → Page R
  unfolding run_effects hook_step
  page_step (renders p) s = record s { rendered = p; due = true }
  page_step (runs_effects now visible) s = record s {
    hook = run_effects now visible s.rendered s.hook;
    due = false;
  }
  page_step (happens e) s = record s { hook = hook_step to_row listing e s.hook }

  unfoldable pub run_page : List PageEvent → Page R → Page R
  unfolding page_step
  run_page [] s = s
  run_page (e ∷ es) s = run_page es (page_step e s)

module _ {ℓ} {R : Type ℓ} where
  -- The first render, before its effects.
  unfoldable pub first_page : Cache (Payload R) → Props → Page R
  unfolding first_hook
  first_page c p = record { hook = first_hook c p; rendered = p; due = true }
