-- ===== src/Cache/Catalog/Tests.antt =====
-- The catalog cache on concrete calls.
use klew.Base.{
  ℕ, ◌≡◌, refl, Bool, true, false, List, [], ◌∷◌, none, some, arith, Str, codes, lookup, insert,
  delete, has_key, keep_keys, str_eq, starts_with, join,
}
use klew.Cache.Lru.{evict, store_entry}
use klew.Cache.Catalog.{
  Cache, Request, uncached, fresh_hit, joined, stale_hit, Op, load, settle, answered, failed,
  resolved, ApiParams, entities_ttl_for_scope, overview_poll_ms_for_scope, overview_ttl_for_scope,
  empty_cache, peek_catalog_cache, peek_catalog_cache_entry, is_catalog_cache_fresh,
  write_catalog_cache, invalidate_catalog_cache, start_request, load_catalog_cached, find_request,
  drop_request, on_fulfilled, on_rejected, settle_promise, step, run,
}
use klew.Cache.Catalog.Bounds.{IsValid, empty_cache-IsValid, run-IsValid}
use klew.Cache.Catalog.Flights.{IsLive, run-IsLive, empty_cache-IsLive}
use klew.Cache.Catalog.Keys.{
  KeyParts, present, build_catalog_cache_key, entities_list_cache_key, overview_cache_key,
  catalog_index_cache_key, cluster_status_cache_key,
}
use klew.Cache.Catalog.Loading.{load-settle, settle-failed}
use klew.Cache.Catalog.Races.{invalidate-outlived, force-overtaken}
use klew.Cache.Catalog.Single.{IsSingle, run-IsSingle}

program : Unit {0}
unfolding store_entry evict insert delete has_key lookup keep_keys starts_with str_eq join
    entities_ttl_for_scope overview_poll_ms_for_scope overview_ttl_for_scope peek_catalog_cache
    peek_catalog_cache_entry is_catalog_cache_fresh write_catalog_cache invalidate_catalog_cache
    start_request load_catalog_cached find_request drop_request on_fulfilled on_rejected
    settle_promise step run present build_catalog_cache_key entities_list_cache_key
    overview_cache_key catalog_index_cache_key cluster_status_cache_key
program = tt

abbrev truthy : ℕ → Bool
truthy n = true

abbrev pods : Str
pods = codes "entities|pods"

abbrev calls : List (Op ℕ)
calls = load 0 pods 30 false ∷ settle 5 0 (answered (some 7)) ∷ load 50 pods 30 false ∷ []

-- one answer kept, and its revalidation under way
abbrev after_calls : Cache ℕ
after_calls = record {
  store = (pods, record { content = some 7; at = 5 }) ∷ [];
  inflight = (pods, 1) ∷ [];
  pending = record { promise = 1; key = pods; stale = some 7 } ∷ [];
  issued = 2;
}

runs : run truthy calls empty_cache ≡ after_calls
unfolding program
runs = refl

serves_stale :
    (load_catalog_cached truthy 50 pods 30 false
      (run truthy (load 0 pods 30 false ∷ settle 5 0 (answered (some 7)) ∷ []) empty_cache)).1
    ≡ stale_hit 7 1
unfolding program
serves_stale = refl

joins : (load_catalog_cached truthy 60 pods 30 false after_calls).1 ≡ joined 1 true
unfolding program
joins = refl

no_key : (load_catalog_cached truthy 60 [] 30 false after_calls).1 ≡ uncached after_calls.issued
unfolding program
no_key = refl

peeks : peek_catalog_cache pods after_calls ≡ some 7
unfolding program
peeks = refl

peeks_entry : peek_catalog_cache_entry pods after_calls ≡ some (record { content = some 7; at = 5 })
unfolding program
peeks_entry = refl

still_fresh : is_catalog_cache_fresh 34 pods 30 after_calls ≡ true
unfolding program
still_fresh = refl

abbrev narrow : ApiParams
narrow = record { all_namespaces = false; namespaces = codes "a" ∷ [] }

narrow_ttl : entities_ttl_for_scope narrow ≡ 30000
unfolding program
narrow_ttl = refl

narrow_poll : overview_poll_ms_for_scope narrow ≡ overview_ttl_for_scope narrow
unfolding program
narrow_poll = refl

abbrev parts : KeyParts
parts = record {
  resource_id = some (codes "pods");
  ctx = some (codes "prod");
  kubeconfig = none;
  ns_key = some (codes "*");
  loadable_key = none;
  cluster_scoped = false;
}

key_of_parts : entities_list_cache_key parts ≡ codes "entities|pods|prod|*|ns"
unfolding program
key_of_parts = refl

-- Absent parts are skipped, so a context alone and a kubeconfig alone give the same key.
keys_collide :
    catalog_index_cache_key (record parts { ctx = some (codes "x"); kubeconfig = none })
    ≡ catalog_index_cache_key (record parts { ctx = none; kubeconfig = some (codes "x") })
unfolding program
keys_collide = refl

after_calls-IsValid : IsValid after_calls
after_calls-IsValid = rw (← runs) (run-IsValid truthy calls empty_cache empty_cache-IsValid)

after_calls-IsLive : IsLive after_calls
after_calls-IsLive = rw (← runs) (run-IsLive truthy calls empty_cache empty_cache-IsLive)

empty_cache-IsSingle : IsSingle {A = ℕ} empty_cache
unfolding program
empty_cache-IsSingle = record { live = empty_cache-IsLive; mapped = λ p r e. absurd (ground arith) }

abbrev second : Request ℕ
second = record { promise = 1; key = pods; stale = some 7 }

run-IsValid_example : IsValid (run truthy calls empty_cache)
run-IsValid_example = run-IsValid truthy calls empty_cache empty_cache-IsValid

run-IsLive_example : IsLive (run truthy calls empty_cache)
run-IsLive_example = run-IsLive truthy calls empty_cache empty_cache-IsLive

run-IsSingle_example : IsSingle (run truthy calls empty_cache)
run-IsSingle_example =
    run-IsSingle truthy calls empty_cache (refl, (tt, (refl, tt))) empty_cache-IsSingle

load-settle_example :
    load_catalog_cached truthy 80 pods 30 false
      (settle_promise 70 1 (answered (some 8)) after_calls).0
    ≡ ((settle_promise 70 1 (answered (some 8)) after_calls).0, fresh_hit (some 8))
unfolding program
load-settle_example =
    load-settle truthy 70 80 30 1 (some 8) second after_calls after_calls-IsValid refl refl
      (omega arith)

settle-failed_example :
    ((settle_promise 70 1 failed after_calls).0.store ≡ after_calls.store)
    × (lookup pods (settle_promise 70 1 failed after_calls).0.inflight ≡ none)
    × ((settle_promise 70 1 failed after_calls).1 ≡ some (resolved (some 7)))
unfolding program
settle-failed_example = settle-failed 70 1 second after_calls refl

invalidate-outlived_example :
    lookup pods
      (settle_promise 70 1 (answered (some 8)) (invalidate_catalog_cache [] after_calls)).0.store
    ≡ some (record { content = some 8; at = 70 })
unfolding program
invalidate-outlived_example =
    invalidate-outlived 70 1 [] (some 8) second after_calls after_calls-IsValid refl refl

force-overtaken_example :
    (lookup pods
        (settle_promise 70 1
          (answered (some 8))
          (load_catalog_cached truthy 60 pods 30 true after_calls).0).0.inflight
      ≡ none)
    × (lookup pods
          (settle_promise 80 1
            (answered (some 8))
            (settle_promise 70 2
              (answered (some 9))
              (load_catalog_cached truthy 60 pods 30 true after_calls).0).0).0.store
        ≡ some (record { content = some 8; at = 80 }))
unfolding program
force-overtaken_example =
    force-overtaken truthy 60 70 80 30 1 (some 8) (some 9) second after_calls after_calls-IsValid
      after_calls-IsLive refl refl
