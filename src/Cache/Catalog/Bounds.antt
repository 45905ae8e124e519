-- ===== src/Cache/Catalog/Bounds.antt =====
-- The bound of lib/catalogCache.js: at most `MAX_ENTRIES` responses are kept, each under one key.
use klew.Base.{
  ℕ, Bool, true, false, List, [], ◌∷◌, Option, none, some, arith, Str, lookup, Distinct,
  delete-Distinct, insert-Distinct, keep_keys-Distinct, is_empty, not, if_both, ◌&&◌,
}
use klew.Cache.Lru.Laws.{IsBounded, store_entry-IsBounded, keep_keys-IsBounded}
use klew.Cache.Catalog.{
  Cache, Request, Op, load, settle, write, invalidate, Answer, answered, failed, step, run,
  max_entries, write_catalog_cache, invalidate_catalog_cache, load_catalog_cached, settle_promise,
  start_request, on_fulfilled, on_rejected, find_request, join_or_fetch, settle_found, is_fresh,
  Outcome, empty_cache,
}

module _ {ℓ} {A : Type ℓ} where
  pub record IsValid (c : Cache A) : Type ℓ where
    pub bounded : IsBounded max_entries c.store
    pub flights : Distinct c.inflight

  pub empty_cache-IsValid : IsValid empty_cache
  empty_cache-IsValid = record {
    bounded = record { within = omega arith; distinct = tt };
    flights = tt;
  }

  pub write-IsValid :
      (now : ℕ) (key : Str) (content : Option A) (c : Cache A)
      → IsValid c
      → IsValid (write_catalog_cache now key content c)
  unfolding write_catalog_cache
  write-IsValid now [] content c v = v
  write-IsValid now (k ∷ key) content c v = record {
    bounded = store_entry-IsBounded max_entries (k ∷ key) _ c.store v.bounded.distinct;
    flights = v.flights;
  }

  pub invalidate-IsValid :
      (prefix : Str) (c : Cache A) → IsValid c → IsValid (invalidate_catalog_cache prefix c)
  unfolding invalidate_catalog_cache
  invalidate-IsValid [] c v = record {
    bounded = record { within = omega arith; distinct = tt };
    flights = tt;
  }
  invalidate-IsValid (p ∷ prefix) c v = record {
    bounded = keep_keys-IsBounded max_entries _ c.store v.bounded;
    flights = keep_keys-Distinct _ c.inflight v.flights;
  }

  start_request-IsValid :
      (key : Str) (stale : Option A) (c : Cache A) → IsValid c → IsValid (start_request key stale c)
  unfolding start_request
  start_request-IsValid key stale c v = record {
    bounded = v.bounded;
    flights = insert-Distinct key c.issued c.inflight v.flights;
  }

  join_or_fetch-IsValid :
      (truthy : A → Bool) (key : Str) (force : Bool) (stale : Option A) (flight : Option ℕ)
      (c : Cache A)
      → IsValid c
      → IsValid (join_or_fetch truthy key force stale flight c).0
  join_or_fetch-IsValid truthy key force stale none c v = start_request-IsValid key stale c v
  join_or_fetch-IsValid truthy key true stale (some p) c v = start_request-IsValid key stale c v
  join_or_fetch-IsValid truthy key false stale (some p) c v = v

  pub load-IsValid :
      (truthy : A → Bool) (now : ℕ) (key : Str) (ttl : ℕ) (force : Bool) (c : Cache A)
      → IsValid c
      → IsValid (load_catalog_cached truthy now key ttl force c).0
  unfolding load_catalog_cached
  load-IsValid truthy now key ttl force c v =
      if_both {A = Cache A × Outcome A} (λ r. IsValid r.0) (is_empty key)
        (record { bounded = v.bounded; flights = v.flights })
        (if_both {A = Cache A × Outcome A} (λ r. IsValid r.0)
          (not force && is_fresh now ttl (lookup key c.store)) v
          (join_or_fetch-IsValid truthy key force _ (lookup key c.inflight) c v))

  settle_found-IsValid :
      (now : ℕ) (a : Answer A) (found : Option (Request A)) (c : Cache A)
      → IsValid c
      → IsValid (settle_found now a found c).0
  unfolding on_fulfilled on_rejected
  settle_found-IsValid now a none c v = v
  settle_found-IsValid now (answered content) (some r) c v =
      let w = write-IsValid now r.key content c v in
      record { bounded = w.bounded; flights = delete-Distinct r.key _ w.flights }
  settle_found-IsValid now failed (some r) c v = record {
    bounded = v.bounded;
    flights = delete-Distinct r.key _ v.flights;
  }

  pub settle-IsValid :
      (now p : ℕ) (a : Answer A) (c : Cache A) → IsValid c → IsValid (settle_promise now p a c).0
  unfolding settle_promise
  settle-IsValid now p a c v = settle_found-IsValid now a (find_request p c.pending) c v

  step-IsValid :
      (truthy : A → Bool) (o : Op A) (c : Cache A) → IsValid c → IsValid (step truthy o c)
  unfolding step
  step-IsValid truthy (load now key ttl force) c v = load-IsValid truthy now key ttl force c v
  step-IsValid truthy (settle now p a) c v = settle-IsValid now p a c v
  step-IsValid truthy (write now key content) c v = write-IsValid now key content c v
  step-IsValid truthy (invalidate prefix) c v = invalidate-IsValid prefix c v

  -- Whatever calls are made and however their requests settle, the store has at most `MAX_ENTRIES`
  -- entries, and neither it nor the map of requests has a key twice.
  pub run-IsValid :
      (truthy : A → Bool) (os : List (Op A)) (c : Cache A) → IsValid c → IsValid (run truthy os c)
  unfolding run
  run-IsValid truthy [] c v = v
  run-IsValid truthy (o ∷ os) c v =
      run-IsValid truthy os (step truthy o c) (step-IsValid truthy o c v)
