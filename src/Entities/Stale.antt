-- ===== src/Entities/Stale.antt =====
-- When hooks/useCatalogEntities.js asks the backend for a list.
use klew.Base.{
  ℕ, ◌+◌, ◌<◌, ◌≡◌, refl, ap, ◌∙◌, Bool, true, false, Option, none, some, Str, is_empty,
  str_eq_self, lt→ltb, if_both, Bool-cases, inl, inr, arith,
}
use klew.Cache.Catalog.{
  Cache, fresh_hit, write_catalog_cache, load_catalog_cached, peek_catalog_cache_entry,
}
use klew.Cache.Catalog.Bounds.{IsValid, write-IsValid}
use klew.Cache.Catalog.Flights.{write-fields}
use klew.Cache.Catalog.Loading.{peek-write}
use klew.Entities.{
  Props, Payload, Hook, cache_key, entity_ttl, can_load, is_mounted, run_effects, reload,
  show_nothing, apply_payload, load_from, show_first, list_effect, watch_effect, clean_up,
}

entity_ttl_pos : (p : Props) → 0 < entity_ttl p
unfolding entity_ttl
entity_ttl_pos p = ground arith

module _ {ℓ} {R : Type ℓ} where
  -- A load of what was written just now finds it fresh, and starts nothing.
  load-write :
      (now ttl : ℕ) (key : Str) (d : Payload R) (c : Cache (Payload R))
      → IsValid c
      → is_empty key ≡ false
      → 0 < ttl
      → load_catalog_cached (λ e. true) now key ttl false (write_catalog_cache now key (some d) c)
        ≡ (write_catalog_cache now key (some d) c, fresh_hit (some d))
  unfolding load_catalog_cached
  load-write now ttl key d c v h pos = rw (
    h,
    peek-write now key key (some d) c v h,
    str_eq_self key,
    lt→ltb now (now + ttl) (omega arith),
  )

  -- Nothing was asked of the backend on the way from the one cache to the other.
  record Quiet (c c' : Cache (Payload R)) : Type ℓ where
    same_issued : c'.issued ≡ c.issued
    same_pending : c'.pending ≡ c.pending

  write-Quiet :
      (now : ℕ) (key : Str) (o : Option (Payload R)) (c : Cache (Payload R))
      → Quiet c (write_catalog_cache now key o c)
  write-Quiet now key o c =
      let (fl, pe, is) = write-fields now key o c in record { same_issued = is; same_pending = pe }

  Quiet-trans : {c d e : Cache (Payload R)} → Quiet c d → Quiet d e → Quiet c e
  Quiet-trans q r = record {
    same_issued = r.same_issued ∙ q.same_issued;
    same_pending = r.same_pending ∙ q.same_pending;
  }

  load_from-Quiet :
      (now at : ℕ) (d : Payload R) (s : Hook R)
      → IsValid s.cache
      → is_empty (cache_key s.props) ≡ false
      → Quiet s.cache (load_from now false (some (record { content = some d; at = at })) s).cache
  unfolding apply_payload
  load_from-Quiet now at d s v h =
      rw
        (load-write now (entity_ttl s.props) (cache_key s.props) _ s.cache v h
          (entity_ttl_pos s.props))
        (write-Quiet now (cache_key s.props) _ s.cache)

  peek_written :
      (now : ℕ) (key : Str) (d : Payload R) (c : Cache (Payload R))
      → IsValid c
      → is_empty key ≡ false
      → peek_catalog_cache_entry key (write_catalog_cache now key (some d) c)
        ≡ some (record { content = some d; at = now })
  unfolding peek_catalog_cache_entry
  peek_written now key d c v h =
      rw h (peek-write now key key (some d) c v h ∙ rw (str_eq_self key) refl)

  show_nothing-Quiet : (now : ℕ) (s : Hook R) → Quiet s.cache (show_nothing now s).cache
  unfolding show_nothing apply_payload
  show_nothing-Quiet now s = write-Quiet now (cache_key s.props) _ s.cache

  -- `reload` where the cache was written for the key at hand just now
  reload_written-Quiet :
      (now at : ℕ) (d : Payload R) (s : Hook R)
      → IsValid s.cache
      → is_empty (cache_key s.props) ≡ false
      → peek_catalog_cache_entry (cache_key s.props) s.cache
        ≡ some (record { content = some d; at = at })
      → Quiet s.cache (reload now false s).cache
  unfolding reload
  reload_written-Quiet now at d s v h e =
      if_both (λ (r : Hook R). Quiet s.cache r.cache) (can_load s.props)
        (rw e (load_from-Quiet now at d s v h)) (show_nothing-Quiet now s)

  show_first-Quiet :
      (now at : ℕ) (o : Option (Payload R)) (s : Hook R)
      → IsValid s.cache
      → is_empty (cache_key s.props) ≡ false
      → Quiet s.cache (reload now false (show_first now o at s)).cache
  unfolding apply_payload
  show_first-Quiet now at none s v h = Quiet-trans (write-Quiet now (cache_key s.props) _ s.cache) (
      reload_written-Quiet now now _ (show_first now none at s)
        (write-IsValid now (cache_key s.props) _ s.cache v) h
        (peek_written now (cache_key s.props) _ s.cache v h))
  show_first-Quiet now at (some d) s v h =
      Quiet-trans (write-Quiet now (cache_key s.props) _ s.cache) (
        reload_written-Quiet now now _ (show_first now (some d) at s)
          (write-IsValid now (cache_key s.props) _ s.cache v) h
          (peek_written now (cache_key s.props) _ s.cache v h))

  watch_effect-cache : (visible : Bool) (s : Hook R) → (watch_effect visible s).cache ≡ s.cache
  watch_effect-cache visible s = ground arith

  list_effect-Quiet :
      (now : ℕ) (s : Hook R) → IsValid s.cache → Quiet s.cache (list_effect now s).cache
  list_effect-Quiet now s v = elim (Bool-cases (is_mounted s.props)) [
    | inl m ↦ rw m (show_first-Quiet now _ _ s v (ground (arith, m)))
    | inr m ↦ rw m (show_nothing-Quiet now s)
  ]

  -- When the effects of the hook run, for new props or the same, they start no request for a list
  -- through the cache, whatever a well-formed cache holds for the key and however old that is: what
  -- the hook shows first it also writes to the cache, so that its own load finds it fresh. The watch,
  -- which the effects start besides if the page is visible, is not counted.
  pub run_effects-requests :
      (now : ℕ) (visible : Bool) (p : Props) (s : Hook R)
      → IsValid s.cache
      → ((run_effects now visible p s).cache.issued ≡ s.cache.issued)
        × ((run_effects now visible p s).cache.pending ≡ s.cache.pending)
  unfolding run_effects
  run_effects-requests now visible p s v =
      let q = list_effect-Quiet now (record (clean_up s) { props = p }) v in
      let w = watch_effect-cache visible (list_effect now (record (clean_up s) { props = p })) in
      (
        ap (λ (c : Cache (Payload R)). c.issued) w ∙ q.same_issued,
        ap (λ (c : Cache (Payload R)). c.pending) w ∙ q.same_pending,
      )
