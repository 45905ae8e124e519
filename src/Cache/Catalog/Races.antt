-- ===== src/Cache/Catalog/Races.antt =====
-- Requests of lib/catalogCache.js that outlive a later call: the handlers of `fetchFn()` write and
-- delete by key, whichever promise the key is mapped to by then.
use klew.Base.{
  ℕ, ◌≡◌, refl, ap, ◌∙◌, Bool, true, false, [], ◌∷◌, Option, none, some, arith, Str, lookup,
  is_empty, str_eq_self, insert-Distinct, lookup-delete,
}
use klew.Cache.Catalog.{
  Cache, Request, answered, invalidate_catalog_cache, load_catalog_cached, settle_promise,
  start_request, on_fulfilled, find_request, drop_request, content_of,
}
use klew.Cache.Catalog.Bounds.{IsValid, settle-IsValid, invalidate-IsValid}
use klew.Cache.Catalog.Flights.{
  IsLive, find_new, find_self, find_request-drop, find_request-lt, write-fields,
}
use klew.Cache.Catalog.Loading.{peek-write, load_keyed}

module _ {ℓ} {A : Type ℓ} where
  -- what a settled request leaves under its key
  settled_entry :
      (now p : ℕ) (content : Option A) (r : Request A) (c : Cache A)
      → IsValid c
      → find_request p c.pending ≡ some r
      → is_empty r.key ≡ false
      → lookup r.key (settle_promise now p (answered content) c).0.store
        ≡ some (record { content = content; at = now })
  unfolding settle_promise on_fulfilled
  settled_entry now p content r c v found h =
      rw (found, peek-write now r.key r.key content c v h, str_eq_self r.key)

  invalidate-pending :
      (prefix : Str) (c : Cache A) → (invalidate_catalog_cache prefix c).pending ≡ c.pending
  unfolding invalidate_catalog_cache
  invalidate-pending [] c = refl
  invalidate-pending (p ∷ prefix) c = refl

  -- A request that was under way when the cache was invalidated still writes its answer: data that
  -- was asked for before the invalidation is cached after it, as fresh as if asked for now.
  pub invalidate-outlived :
      (now p : ℕ) (prefix : Str) (content : Option A) (r : Request A) (c : Cache A)
      → IsValid c
      → find_request p c.pending ≡ some r
      → is_empty r.key ≡ false
      → lookup r.key
          (settle_promise now p (answered content) (invalidate_catalog_cache prefix c)).0.store
        ≡ some (record { content = content; at = now })
  invalidate-outlived now p prefix content r c v found h =
      settled_entry now p content r (invalidate_catalog_cache prefix c)
        (invalidate-IsValid prefix c v) (ap (find_request p) (invalidate-pending prefix c) ∙ found)
        h

  settle-pending :
      (now p : ℕ) (content : Option A) (r : Request A) (c : Cache A)
      → find_request p c.pending ≡ some r
      → (settle_promise now p (answered content) c).0.pending ≡ drop_request r.promise c.pending
  unfolding settle_promise on_fulfilled
  settle-pending now p content r c found =
      rw found (ap (drop_request r.promise) (write-fields now r.key content c).1)

  settle-unmaps :
      (now p : ℕ) (content : Option A) (r : Request A) (c : Cache A)
      → find_request p c.pending ≡ some r
      → lookup r.key (settle_promise now p (answered content) c).0.inflight ≡ none
  unfolding settle_promise on_fulfilled
  settle-unmaps now p content r c found = rw (found, lookup-delete) (rw (str_eq_self r.key))

  forced_load :
      (truthy : A → Bool) (t ttl : ℕ) (key : Str) (c : Cache A)
      → is_empty key ≡ false
      → (load_catalog_cached truthy t key ttl true c).0
        ≡ start_request key (content_of (lookup key c.store)) c
  forced_load truthy t ttl key c h = load_keyed truthy t key ttl true c h

  module _ (p : ℕ) (r : Request A) (c : Cache A) (stale : Option A) where
    still_pending :
        IsLive c
        → find_request p c.pending ≡ some r
        → find_request p (start_request r.key stale c).pending ≡ some r
    unfolding start_request
    still_pending l found = find_new c.issued p r.key stale c.pending l.numbered found

    forced_found :
        find_request c.issued (start_request r.key stale c).pending
        ≡ some (record { promise = c.issued; key = r.key; stale = stale })
    unfolding start_request
    forced_found = find_self c.issued r.key stale c.pending

    older_pending :
        (now : ℕ) (newer : Option A)
        → IsLive c
        → find_request p c.pending ≡ some r
        → find_request p
            (settle_promise now c.issued (answered newer) (start_request r.key stale c)).0.pending
          ≡ some r
    older_pending now newer l found =
        ap (find_request p) (
          settle-pending now c.issued newer
            (record { promise = c.issued; key = r.key; stale = stale })
            (start_request r.key stale c) forced_found)
        ∙ find_request-drop c.issued p (start_request r.key stale c).pending
            (omega (arith, (find_request-lt c.issued p c.pending l.numbered found).0))
        ∙ still_pending l found

    started-IsValid : IsValid c → IsValid (start_request r.key stale c)
    unfolding start_request
    started-IsValid v = record {
      bounded = v.bounded;
      flights = insert-Distinct r.key c.issued c.inflight v.flights;
    }

  -- After a forced load of a key whose request `p` is still under way there are two requests for
  -- it, and the older one settles both: once `p` is answered the key holds the answer of `p` and is
  -- mapped to no request, although the forced request is still pending; and if the forced request is
  -- answered first, the later answer of `p` replaces the newer data.
  pub force-overtaken :
      (truthy : A → Bool) (t t' t'' ttl p : ℕ) (older newer : Option A) (r : Request A)
      (c : Cache A)
      → IsValid c
      → IsLive c
      → find_request p c.pending ≡ some r
      → is_empty r.key ≡ false
      → let forced : Cache A = (load_catalog_cached truthy t r.key ttl true c).0 in
        (lookup r.key (settle_promise t' p (answered older) forced).0.inflight ≡ none)
        × (lookup r.key
              (settle_promise t'' p
                (answered older)
                (settle_promise t' c.issued (answered newer) forced).0).0.store
            ≡ some (record { content = older; at = t'' }))
  force-overtaken truthy t t' t'' ttl p older newer r c v l found h =
      let stale : Option A = content_of (lookup r.key c.store) in
      let valid : IsValid (start_request r.key stale c) = started-IsValid p r c stale v in
      rw (forced_load truthy t ttl r.key c h) (
        settle-unmaps t' p older r (start_request r.key stale c)
            (still_pending p r c stale l found),
        settled_entry t'' p older r _ (settle-IsValid t' c.issued (answered newer) _ valid)
            (older_pending p r c stale t' newer l found) h,
      )
