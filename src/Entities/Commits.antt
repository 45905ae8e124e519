-- ===== src/Entities/Commits.antt =====
-- The effects of hooks/useCatalogEntities.js, after any render.
use klew.Base.{
  ℕ, suc, ◌≡◌, refl, sym, ap, ◌∙◌, Bool, true, false, ◌&&◌, List, [], Option, none, some, Str,
  if_both, Bool-cases, inl, inr, arith, is_empty,
}
use klew.Cache.Catalog.{Cache, Stored, peek_catalog_cache_entry, peek_catalog_cache}
use klew.Cache.Catalog.Filed.{OfOption, IsFiled, lookup-StoreOf, content-OfOption}
use klew.Cache.Catalog.Owed.{load-IsLoaded}
use klew.Entities.{
  Props, Payload, Hook, cache_key, can_load, is_mounted, run_effects, reload, show_nothing,
  apply_payload, empty_entity_payload, load_from, show_cached, show_first, content, at_of,
  list_effect, watch_effect, sync_watch, scope_ready, is_some, first_hook, first_shown,
}
use klew.Entities.Shown.{
  OfPayload, IsReady, IsGood, clean_up-IsReady, apply_payload-IsReady, peek-OfOption,
  show_cached-IsGood, wait_for-IsGood, next-IsReady,
}

module _ {ℓ} {R : Type ℓ} (Of : Str → List R → Type ℓ) where
  show_cached-props :
      (now : ℕ) (o : Option (Payload R)) (at : ℕ) (s : Hook R)
      → (show_cached now o at s).props ≡ s.props
  unfolding apply_payload
  show_cached-props now none at s = refl
  show_cached-props now (some d) at s = refl

  load_from-IsGood :
      (now : ℕ) (force : Bool) (o : Option (Stored (Payload R))) (s : Hook R)
      → OfOption (OfPayload Of) (cache_key s.props) (content o)
      → is_mounted s.props ≡ true
      → IsGood Of s
      → IsGood Of (load_from now force o s)
  load_from-IsGood now force o s h m v =
      let s1 : Hook R = record s { req = suc s.req } in
      let v2 =
        show_cached-IsGood Of now (content o) (at_of o) s1 h
          (record { ready = next-IsReady Of s v.ready; shown = v.shown }) in
      let same = show_cached-props now (content o) (at_of o) s1 in
      wait_for-IsGood Of (cache_key s.props) (is_some (content o)) _
        (show_cached now (content o) (at_of o) s1) (ap cache_key (sym same))
        (ap is_mounted same ∙ m)
        (load-IsLoaded (OfPayload Of) (λ d. true) now (cache_key s.props) _ force _ v2.ready.filed)
        v2

  module _ (empty : (k : Str) → Of k []) where
    show_nothing-IsGood : (now : ℕ) (s : Hook R) → IsReady Of s → IsGood Of (show_nothing now s)
    unfolding show_nothing apply_payload
    show_nothing-IsGood now s v =
        let r =
          apply_payload-IsReady Of now (cache_key s.props) empty_entity_payload 0 false s
            (empty (cache_key s.props)) v in
        record {
          ready = record { filed = r.filed; waits = r.waits; heard = r.heard };
          shown = empty (cache_key s.props);
        }

    pub reload-IsGood :
        (now : ℕ) (force : Bool) (s : Hook R) → IsGood Of s → IsGood Of (reload now force s)
    unfolding reload
    reload-IsGood now force s v = elim (Bool-cases (can_load s.props)) [
      | inl can ↦ rw can (
          load_from-IsGood now force (peek_catalog_cache_entry (cache_key s.props) s.cache) s
            (peek-OfOption Of (cache_key s.props) s.cache v.ready.filed) (ground (arith, can)) v)
      | inr cannot ↦ rw cannot (show_nothing-IsGood now s v.ready)
    ]

    show_first-IsGood :
        (now : ℕ) (o : Option (Payload R)) (at : ℕ) (s : Hook R)
        → OfOption (OfPayload Of) (cache_key s.props) o
        → IsReady Of s
        → IsGood Of (show_first now o at s)
    unfolding apply_payload
    show_first-IsGood now none at s h v =
        let r =
          apply_payload-IsReady Of now (cache_key s.props) empty_entity_payload 0 false s
            (empty (cache_key s.props)) v in
        record {
          ready = record { filed = r.filed; waits = r.waits; heard = r.heard };
          shown = empty (cache_key s.props);
        }
    show_first-IsGood now (some d) at s h v =
        let r = apply_payload-IsReady Of now (cache_key s.props) d at false s h v in
        record { ready = record { filed = r.filed; waits = r.waits; heard = r.heard }; shown = h }

    list_effect-IsGood : (now : ℕ) (s : Hook R) → IsReady Of s → IsGood Of (list_effect now s)
    list_effect-IsGood now s v =
        if_both (IsGood Of) (is_mounted s.props)
          (reload-IsGood now false _ (
            show_first-IsGood now (content (peek_catalog_cache_entry (cache_key s.props) s.cache)) _
              s (peek-OfOption Of (cache_key s.props) s.cache v.filed) v))
          (show_nothing-IsGood now s v)

    pub sync_watch-IsGood :
        (visible : Bool) (s : Hook R) → IsGood Of s → IsGood Of (sync_watch visible s)
    sync_watch-IsGood visible s v =
        let same : IsReady Of (record s { watched = none; live = false }) = record {
          filed = v.ready.filed;
          waits = v.ready.waits;
          heard = v.ready.heard;
        } in
        let seen : IsReady Of (record s { watched = some (cache_key s.props) }) = record {
          filed = v.ready.filed;
          waits = v.ready.waits;
          heard = v.ready.heard;
        } in
        if_both (IsGood Of) visible (record { ready = seen; shown = v.shown })
          (record { ready = same; shown = v.shown })

    watch_effect-IsGood :
        (visible : Bool) (s : Hook R) → IsGood Of s → IsGood Of (watch_effect visible s)
    watch_effect-IsGood visible s v =
        let hears : IsReady Of (record s { listening = some (cache_key s.props) }) = record {
          filed = v.ready.filed;
          waits = v.ready.waits;
          heard = λ k e. ground (arith, e);
        } in
        if_both (IsGood Of)
          (is_mounted s.props && scope_ready s.props.params s.props.cluster_scoped)
          (sync_watch-IsGood visible _ (record { ready = hears; shown = v.shown })) v

    pub run_effects-IsGood :
        (now : ℕ) (visible : Bool) (p : Props) (s : Hook R)
        → IsReady Of s
        → IsGood Of (run_effects now visible p s)
    unfolding run_effects
    run_effects-IsGood now visible p s v =
        watch_effect-IsGood visible _ (list_effect-IsGood now _ (clean_up-IsReady Of p s v))

    pub first_hook-IsGood :
        (c : Cache (Payload R)) (p : Props) → IsFiled (OfPayload Of) c → IsGood Of (first_hook c p)
    unfolding first_hook peek_catalog_cache
    first_hook-IsGood c p v = record {
      ready = record { filed = v; waits = tt; heard = λ k e. absurd (ground arith) };
      shown = held (peek_catalog_cache (cache_key p) c) (
          if_both (OfOption (OfPayload Of) (cache_key p)) (is_empty (cache_key p)) tt (
            content-OfOption (OfPayload Of) (cache_key p) _
              (lookup-StoreOf (OfPayload Of) (cache_key p) c.store v.stored)));
    }
      where
        held :
            (o : Option (Payload R))
            → OfOption (OfPayload Of) (cache_key p) o
            → Of (cache_key p) (first_shown o).entities
        held none h = empty (cache_key p)
        held (some d) h = h
