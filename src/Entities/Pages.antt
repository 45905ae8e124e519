-- ===== src/Entities/Pages.antt =====
-- Whose rows hooks/useCatalogEntities.js shows, between the renders and their effects too.
use klew.Base.{
  ◌⊎◌, ℕ, ◌≡◌, refl, ◌∙◌, true, false, List, [], ◌∷◌, map, Option, some, Str, Bool-cases, inl, inr,
  arith,
}
use klew.Cache.Catalog.{Cache}
use klew.Cache.Catalog.Filed.{IsFiled}
use klew.Entities.{Props, Payload, ListResult}
use klew.Entities.Shown.{OfPayload, IsGood, IsShown}
use klew.Entities.Commits.{run_effects-IsGood, first_hook-IsGood}
use klew.Entities.Runs.{hook_step-IsGood}
use klew.Entities.Kept.{run_effects-props, hook_step-props}
use klew.Entities.Renders.{
  Page, PageEvent, renders, runs_effects, happens, page_step, run_page, first_page,
}

module _ {ℓ κ} {E : Type ℓ} {R : Type κ} (to_row : E → Str → R)
    (listing : Str → ℕ → Option (ListResult E)) where
  module _ (Of : Str → List R → Type κ) (empty : (k : Str) → Of k [])
      (listed : (k : Str) (now : ℕ) (kind : Str) (r : ListResult E)
        → listing k now ≡ some r
        → Of k (map (λ e. to_row e kind) r.entities)) where
    -- The hook is good for the props of its effects, which are those of the last render unless
    -- effects have still to run.
    record IsKeyed (s : Page R) : Type κ where
      good : IsGood Of s.hook
      synced : s.due ≡ false → s.hook.props ≡ s.rendered

    page_step-IsKeyed :
        (e : PageEvent) (s : Page R) → IsKeyed s → IsKeyed (page_step to_row listing e s)
    unfolding page_step
    page_step-IsKeyed (renders p) s v = record {
      good = v.good;
      synced = λ e. absurd (ground arith);
    }
    page_step-IsKeyed (runs_effects now visible) s v = record {
      good = run_effects-IsGood Of empty now visible s.rendered s.hook v.good.ready;
      synced = λ e. run_effects-props now visible s.rendered s.hook;
    }
    page_step-IsKeyed (happens e) s v = record {
      good = hook_step-IsGood Of empty to_row listing listed e s.hook v.good;
      synced = λ f. hook_step-props to_row listing e s.hook ∙ v.synced f;
    }

    run_page-IsKeyed :
        (es : List PageEvent) (s : Page R) → IsKeyed s → IsKeyed (run_page to_row listing es s)
    unfolding run_page
    run_page-IsKeyed [] s v = v
    run_page-IsKeyed (e ∷ es) s v =
        run_page-IsKeyed es (page_step to_row listing e s) (page_step-IsKeyed e s v)

    -- After the first render and then any renders, effects, answers, refreshes, watch events and
    -- invalidations, in any order, the rows that the hook shows belong to the key for which its
    -- effects ran last, or that of the first render, and that is the key of the last render unless
    -- the effects of that have still to run; if the rows that the backend lists for a key belong to
    -- it and so do those that the cache holds at the start.
    pub run_page-IsShown :
        (es : List PageEvent) (c : Cache (Payload R)) (p : Props)
        → IsFiled (OfPayload Of) c
        → IsShown Of (run_page to_row listing es (first_page c p)).hook
          × (((run_page to_row listing es (first_page c p)).due ≡ true)
              ⊎ ((run_page to_row listing es (first_page c p)).hook.props
                  ≡ (run_page to_row listing es (first_page c p)).rendered))
    unfolding first_page
    run_page-IsShown es c p v =
        let first : IsKeyed (first_page c p) = record {
          good = first_hook-IsGood Of empty c p v;
          synced = λ e. refl;
        } in
        let k = run_page-IsKeyed es (first_page c p) first in
        (
          k.good.shown,
          elim (Bool-cases (run_page to_row listing es (first_page c p)).due) [
            | inl due ↦ inl due
            | inr idle ↦ inr (k.synced idle)
          ],
        )
