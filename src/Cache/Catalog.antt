-- ===== src/Cache/Catalog.antt =====
-- lib/catalogCache.js: the stale-while-revalidate cache of catalog responses. A promise is a number,
-- the settling of a promise is an operation of its own, and `Date.now()` is an argument.
pub mod Bounds
pub mod Loading
pub mod Flights
pub mod Races
pub mod Single
pub mod Keys
pub mod Filed
pub mod Owed
mod Tests
use Prim.Native.Nat.{ℕ, suc, ◌+◌, ◌*◌}
use klew.Base.{
  Bool, true, false, ◌&&◌, not, List, [], ◌∷◌, Option, none, some, Str, Dict, lookup, has_key,
  delete, insert, keep_keys, ltb, ◌==◌, is_empty, starts_with, if◌then◌else◌, length,
}
use klew.Cache.Lru.{store_entry}

-- `{ data, at }`; `null` and `undefined` data are `none`
pub record Stored {ℓ} (A : Type ℓ) : Type ℓ where
  pub content : Option A
  pub at : ℕ

-- A request that was started and has not settled: what its handlers close over.
pub record Request {ℓ} (A : Type ℓ) : Type ℓ where
  pub promise : ℕ
  pub key : Str
  pub stale : Option A

pub record Cache {ℓ} (A : Type ℓ) : Type ℓ where
  pub store : Dict (Stored A)
  pub inflight : Dict ℕ
  pub pending : List (Request A)
  pub issued : ℕ

-- What a call of `loadCatalogCached` gives.
pub data Outcome {ℓ} (A : Type ℓ) : Type ℓ where
  -- no key: awaits the promise of the fetch itself, on which the cache has no handler
  uncached : ℕ → Outcome A
  -- `{ data, fromCache: true, revalidated: false }`
  fresh_hit : Option A → Outcome A
  -- awaits the promise of another call; the flag is its `fromCache`
  joined : ℕ → Bool → Outcome A
  -- `{ data, fromCache: true, revalidated: true }`, while the promise runs
  stale_hit : A → ℕ → Outcome A
  -- awaits the promise that the call started
  started : ℕ → Outcome A

-- How a promise settles for those who await it.
pub data Settled {ℓ} (A : Type ℓ) : Type ℓ where
  resolved : Option A → Settled A
  rejected : Settled A

pub record ApiParams : Type 0 where
  pub all_namespaces : Bool
  pub namespaces : List Str

unfoldable pub entities_ttl_for_scope : ApiParams → ℕ
entities_ttl_for_scope p =
    if p.all_namespaces
    then 3 * 60 * 1000
    else if ltb 1 (length p.namespaces)
    then 2 * 60 * 1000
    else 30 * 1000

unfoldable pub overview_poll_ms_for_scope : ApiParams → ℕ
overview_poll_ms_for_scope p =
    if p.all_namespaces
    then 45 * 1000
    else if ltb 1 (length p.namespaces)
    then 20 * 1000
    else 8 * 1000

unfoldable pub overview_ttl_for_scope : ApiParams → ℕ
overview_ttl_for_scope p =
    if p.all_namespaces
    then 60 * 1000
    else if ltb 1 (length p.namespaces)
    then 20 * 1000
    else 8 * 1000

abbrev pub max_entries : ℕ
max_entries = 96

module _ {ℓ} {A : Type ℓ} where
  abbrev pub empty_cache : Cache A
  empty_cache = record { store = []; inflight = []; pending = []; issued = 0 }

  abbrev pub content_of : Option (Stored A) → Option A
  content_of none = none
  content_of (some e) = e.content

  unfoldable pub peek_catalog_cache_entry : Str → Cache A → Option (Stored A)
  peek_catalog_cache_entry key c = if is_empty key then none else lookup key c.store

  unfoldable pub peek_catalog_cache : Str → Cache A → Option A
  peek_catalog_cache key c = if is_empty key then none else content_of (lookup key c.store)

  -- `Date.now() - entry.at < ttlMs`, which holds too if the clock was set back
  abbrev pub is_fresh : ℕ → ℕ → Option (Stored A) → Bool
  is_fresh now ttl none = false
  is_fresh now ttl (some e) = ltb now (e.at + ttl)

  unfoldable pub is_catalog_cache_fresh : ℕ → Str → ℕ → Cache A → Bool
  is_catalog_cache_fresh now key ttl c = is_fresh now ttl (lookup key c.store)

  unfoldable pub write_catalog_cache : ℕ → Str → Option A → Cache A → Cache A
  write_catalog_cache now key content c = if is_empty key then c else record c {
    store = store_entry max_entries key (record { content = content; at = now }) c.store;
  }

  unfoldable pub invalidate_catalog_cache : Str → Cache A → Cache A
  invalidate_catalog_cache prefix c =
      if is_empty prefix then record c { store = []; inflight = [] } else record c {
        store = keep_keys (λ key. not (starts_with key prefix)) c.store;
        inflight = keep_keys (λ key. not (starts_with key prefix)) c.inflight;
      }

  -- `fetchFn()` with its handlers, entered into `inflight`
  unfoldable pub start_request : Str → Option A → Cache A → Cache A
  start_request key stale c = record {
    store = c.store;
    inflight = insert key c.issued c.inflight;
    pending = record { promise = c.issued; key = key; stale = stale } ∷ c.pending;
    issued = suc c.issued;
  }

  abbrev pub reply : Bool → Option A → ℕ → Outcome A
  reply force none p = started p
  reply force (some a) p = if force then started p else stale_hit a p

  -- `Boolean(staleData)`; `truthy` says which data JavaScript takes for true
  abbrev pub from_stale : (A → Bool) → Option A → Bool
  from_stale truthy none = false
  from_stale truthy (some a) = truthy a

  abbrev pub join_or_fetch :
      (A → Bool) → Str → Bool → Option A → Option ℕ → Cache A → Cache A × Outcome A
  join_or_fetch truthy key force stale none c =
      (start_request key stale c, reply force stale c.issued)
  join_or_fetch truthy key force stale (some p) c =
      if force
      then (start_request key stale c, reply force stale c.issued)
      else (c, joined p (from_stale truthy stale))

  unfoldable pub load_catalog_cached :
      (A → Bool) → ℕ → Str → ℕ → Bool → Cache A → Cache A × Outcome A
  load_catalog_cached truthy now key ttl force c =
      if is_empty key
      then (record c { issued = suc c.issued }, uncached c.issued)
      else if not force && is_fresh now ttl (lookup key c.store)
      then (c, fresh_hit (content_of (lookup key c.store)))
      else join_or_fetch truthy key force (content_of (lookup key c.store)) (lookup key c.inflight)
          c

  unfoldable pub find_request : ℕ → List (Request A) → Option (Request A)
  find_request p [] = none
  find_request p (r ∷ rs) = if r.promise == p then some r else find_request p rs

  unfoldable pub drop_request : ℕ → List (Request A) → List (Request A)
  drop_request p [] = []
  drop_request p (r ∷ rs) =
      let rest = drop_request p rs in if r.promise == p then rest else r ∷ rest

  -- The handler of `.then`: the fetch of the request answered with `content`.
  unfoldable pub on_fulfilled : ℕ → Option A → Request A → Cache A → Cache A
  on_fulfilled now content r c =
      let c' = write_catalog_cache now r.key content c in
      record c' { inflight = delete r.key c'.inflight; pending = drop_request r.promise c'.pending }

  -- The handler of `.catch`: the fetch of the request failed.
  unfoldable pub on_rejected : Request A → Cache A → Cache A
  on_rejected r c = record c {
    inflight = delete r.key c.inflight;
    pending = drop_request r.promise c.pending;
  }

  abbrev pub after_rejection : Option A → Settled A
  after_rejection none = rejected
  after_rejection (some a) = resolved (some a)

-- How the fetch behind a promise ends.
pub data Answer {ℓ} (A : Type ℓ) : Type ℓ where
  answered : Option A → Answer A
  failed : Answer A

-- What the program and its event loop do to the cache.
pub data Op {ℓ} (A : Type ℓ) : Type ℓ where
  load : (now : ℕ) (key : Str) (ttl : ℕ) (force : Bool) → Op A
  settle : (now promise : ℕ) → Answer A → Op A
  write : (now : ℕ) (key : Str) → Option A → Op A
  invalidate : (prefix : Str) → Op A

module _ {ℓ} {A : Type ℓ} where
  abbrev pub settle_found :
      ℕ → Answer A → Option (Request A) → Cache A → Cache A × Option (Settled A)
  settle_found now a none c = (c, none)
  settle_found now (answered content) (some r) c =
      (on_fulfilled now content r c, some (resolved content))
  settle_found now failed (some r) c = (on_rejected r c, some (after_rejection r.stale))

  -- The event loop settles a promise; one that is not pending has no handlers left to run.
  unfoldable pub settle_promise : ℕ → ℕ → Answer A → Cache A → Cache A × Option (Settled A)
  settle_promise now p a c = settle_found now a (find_request p c.pending) c

  unfoldable pub step : (A → Bool) → Op A → Cache A → Cache A
  step truthy (load now key ttl force) c = (load_catalog_cached truthy now key ttl force c).0
  step truthy (settle now p a) c = (settle_promise now p a c).0
  step truthy (write now key content) c = write_catalog_cache now key content c
  step truthy (invalidate prefix) c = invalidate_catalog_cache prefix c

  unfoldable pub run : (A → Bool) → List (Op A) → Cache A → Cache A
  run truthy [] c = c
  run truthy (o ∷ os) c = run truthy os (step truthy o c)
