-- ===== src/Cache/Catalog/Loading.antt =====
-- What `loadCatalogCached` of lib/catalogCache.js asks of the network, and what a settled request
-- leaves behind.
use klew.Base.{
  ltb, Dict, has_key, ℕ, ◌+◌, ◌<◌, ◌≡◌, refl, ◌∙◌, Bool, true, false, not, ◌&&◌, ◌||◌, [], ◌∷◌,
  Option, none, some, ap, ◌or_else◌, inl, inr, arith, Str, lookup, is_empty, str_eq, str_eq_self,
  lt→ltb, starts_with, if◌then◌else◌, if_not, Bool-cases, lookup-delete, lookup-keep_keys,
}
use mathlib.Core.Option
use klew.Cache.Lru.Laws.{lookup-store_entry, dropped, is_dropped}
use klew.Cache.Catalog.{
  Stored, Cache, Request, fresh_hit, answered, failed, max_entries, write_catalog_cache,
  invalidate_catalog_cache, load_catalog_cached, settle_promise, start_request, on_fulfilled,
  on_rejected, find_request, join_or_fetch, content_of, is_fresh, after_rejection, resolved,
  rejected,
}
use klew.Cache.Catalog.Bounds.{IsValid}

-- whether a key has a request under way
abbrev pub flying : Option ℕ → Bool
flying none = false
flying (some p) = true

module _ {ℓ} {A : Type ℓ} where
  -- whether a call with a key has to start a request
  abbrev pub must_fetch : ℕ → Str → ℕ → Bool → Cache A → Bool
  must_fetch now key ttl force c =
      force || not (is_fresh now ttl (lookup key c.store)) && not (flying (lookup key c.inflight))

  forced :
      (truthy : A → Bool) (key : Str) (stale : Option A) (flight : Option ℕ) (c : Cache A)
      → (join_or_fetch truthy key true stale flight c).0 ≡ start_request key stale c
  forced truthy key stale none c = refl
  forced truthy key stale (some p) c = refl

  unforced :
      (truthy : A → Bool) (key : Str) (stale : Option A) (flight : Option ℕ) (c : Cache A)
      → (join_or_fetch truthy key false stale flight c).0
        ≡ (if not (flying flight) then start_request key stale c else c)
  unforced truthy key stale none c = refl
  unforced truthy key stale (some p) c = refl

  -- The cache after a call with a key.
  pub load_keyed :
      (truthy : A → Bool) (now : ℕ) (key : Str) (ttl : ℕ) (force : Bool) (c : Cache A)
      → is_empty key ≡ false
      → (load_catalog_cached truthy now key ttl force c).0 ≡ (
          if must_fetch now key ttl force c
          then start_request key (content_of (lookup key c.store)) c
          else c)
  unfolding load_catalog_cached
  load_keyed truthy now [] ttl force c h = absurd (ground arith)
  load_keyed truthy now (k ∷ key) ttl true c h =
      forced truthy (k ∷ key) _ (lookup (k ∷ key) c.inflight) c
  load_keyed truthy now (k ∷ key) ttl false c h =
      elim (Bool-cases (is_fresh now ttl (lookup (k ∷ key) c.store))) [
        | inl fresh ↦ rw fresh
        | inr old ↦ rw old (unforced truthy (k ∷ key) _ (lookup (k ∷ key) c.inflight) c)
      ]

  -- Whether an entry of the store has the key and is younger than the time to live.
  abbrev pub is_held : ℕ → Str → ℕ → Dict (Stored A) → Bool
  is_held now key ttl [] = false
  is_held now key ttl ((j, e) ∷ d) = str_eq j key && ltb now (e.at + ttl) || is_held now key ttl d

  -- Whether a call has to fetch.
  abbrev pub fetches : ℕ → Str → ℕ → Bool → Cache A → Bool
  fetches now key ttl force c =
      is_empty key || force || not (is_held now key ttl c.store) && not (has_key key c.inflight)

  -- Every key's data after a write.
  pub peek-write :
      (now : ℕ) (j key : Str) (content : Option A) (c : Cache A)
      → IsValid c
      → is_empty key ≡ false
      → lookup j (write_catalog_cache now key content c).store ≡ (
          if str_eq key j
          then some (record { content = content; at = now })
          else if is_dropped (dropped max_entries key c.store) j
          then none
          else lookup j c.store)
  unfolding write_catalog_cache
  peek-write now j [] content c v h = absurd (ground arith)
  peek-write now j (k ∷ key) content c v h =
      lookup-store_entry max_entries (k ∷ key) j _ c.store (omega arith) v.bounded

  -- A request that is answered serves the next call for its key, as long as the answer is fresh:
  -- that call gets the answer, and starts nothing.
  pub load-settle :
      (truthy : A → Bool) (now now' ttl p : ℕ) (content : Option A) (r : Request A) (c : Cache A)
      → IsValid c
      → find_request p c.pending ≡ some r
      → is_empty r.key ≡ false
      → now' < now + ttl
      → load_catalog_cached truthy now' r.key ttl false
          (settle_promise now p (answered content) c).0
        ≡ ((settle_promise now p (answered content) c).0, fresh_hit content)
  unfolding load_catalog_cached settle_promise on_fulfilled
  load-settle truthy now now' ttl p content r c v found h soon =
      rw (found, h, peek-write now r.key r.key content c v h, str_eq_self r.key, lt→ltb _ _ soon)

  after_rejection_lem :
      (o : Option A) → after_rejection o ≡ (Option.map (λ a. resolved (some a)) o or_else rejected)
  after_rejection_lem none = refl
  after_rejection_lem (some a) = refl

  -- A request that fails keeps every entry, lets its key be fetched again, and gives its callers the
  -- data that was there when it started, or the error if there was none.
  pub settle-failed :
      (now p : ℕ) (r : Request A) (c : Cache A)
      → find_request p c.pending ≡ some r
      → ((settle_promise now p failed c).0.store ≡ c.store)
        × (lookup r.key (settle_promise now p failed c).0.inflight ≡ none)
        × ((settle_promise now p failed c).1
            ≡ some (Option.map (λ a. resolved (some a)) r.stale or_else rejected))
  unfolding settle_promise on_rejected
  settle-failed now p r c found = rw found (
    refl,
    lookup-delete r.key r.key c.inflight ∙ rw (str_eq_self r.key),
    ap some (after_rejection_lem r.stale),
  )

  -- Invalidation by a prefix forgets the entries and the requests of the keys with that prefix, and
  -- leaves every other key as it was.
  pub lookup-invalidate :
      (prefix j : Str) (c : Cache A)
      → is_empty prefix ≡ false
      → (lookup j (invalidate_catalog_cache prefix c).store
          ≡ (if starts_with j prefix then none else lookup j c.store))
        × (lookup j (invalidate_catalog_cache prefix c).inflight
            ≡ (if starts_with j prefix then none else lookup j c.inflight))
  unfolding invalidate_catalog_cache
  lookup-invalidate [] j c h = absurd (ground arith)
  lookup-invalidate (p ∷ prefix) j c h = (
    lookup-keep_keys _ j c.store ∙ if_not (starts_with j (p ∷ prefix)) _ _,
    lookup-keep_keys _ j c.inflight ∙ if_not (starts_with j (p ∷ prefix)) _ _,
  )
