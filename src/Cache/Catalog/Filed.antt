-- ===== src/Cache/Catalog/Filed.antt =====
-- Data of lib/catalogCache.js stays under the key it was asked for.
use klew.Base.{
  ℕ, ◌≡◌, Bool, true, List, [], ◌∷◌, Option, none, some, inl, inr, arith, Str, Dict, lookup, insert,
  delete, keep_keys, has_key, str_eq, str_eq_iff, Bool-cases, subst, if_both, ◌==◌, ltb, length,
}
use klew.Cache.Lru.{evict, store_entry}
use klew.Cache.Catalog.{
  Cache, Request, Stored, write, invalidate, Settled, resolved, rejected, write_catalog_cache,
  invalidate_catalog_cache, find_request, drop_request, content_of, empty_cache, step,
}
use klew.Cache.Catalog.Flights.{IsLive, step-IsLive, empty_cache-IsLive}

-- `Of k a` says that the data `a` belongs to the key `k`.
module _ {ℓ κ} {A : Type ℓ} (Of : Str → A → Type κ) where
  abbrev pub OfOption : Str → Option A → Type κ
  OfOption k none = Unit
  OfOption k (some a) = Of k a

  abbrev pub OfStored : Str → Option (Stored A) → Type κ
  OfStored k none = Unit
  OfStored k (some e) = OfOption k e.content

  abbrev pub OfSettled : Str → Settled A → Type κ
  OfSettled k (resolved o) = OfOption k o
  OfSettled k rejected = Unit

  abbrev pub OfGiven : Str → Option (Settled A) → Type κ
  OfGiven k none = Unit
  OfGiven k (some r) = OfSettled k r

  abbrev pub StoreOf : Dict (Stored A) → Type κ
  StoreOf [] = Unit
  StoreOf ((k, e) ∷ m) = OfOption k e.content × StoreOf m

  abbrev pub PendingOf : List (Request A) → Type κ
  PendingOf [] = Unit
  PendingOf (r ∷ rs) = OfOption r.key r.stale × PendingOf rs

  pub record IsFiled (c : Cache A) : Type (ℓ ⊔ κ) where
    pub live : IsLive c
    pub stored : StoreOf c.store
    pub asked : PendingOf c.pending

  -- The promise is pending and was made for the key.
  pub record IsOwed (rs : List (Request A)) (k : Str) (p : ℕ) : Type ℓ where
    pub request : Request A
    pub found : find_request p rs ≡ some request
    pub named : request.key ≡ k

  pub lookup-StoreOf : (k : Str) (m : Dict (Stored A)) → StoreOf m → OfStored k (lookup k m)
  unfolding lookup
  lookup-StoreOf k [] h = tt
  lookup-StoreOf k ((j, e) ∷ m) (h, t) = elim (Bool-cases (str_eq j k)) [
    | inl same ↦ rw same (subst (λ i. OfOption i e.content) ((str_eq_iff j k).0 same) h)
    | inr other ↦ rw other (lookup-StoreOf k m t)
  ]

  delete-StoreOf : (k : Str) (m : Dict (Stored A)) → StoreOf m → StoreOf (delete k m)
  unfolding delete
  delete-StoreOf k [] h = tt
  delete-StoreOf k ((j, e) ∷ m) (h, t) =
      if_both StoreOf (str_eq j k) (delete-StoreOf k m t) (h, delete-StoreOf k m t)

  insert-StoreOf :
      (k : Str) (e : Stored A) (m : Dict (Stored A))
      → OfOption k e.content
      → StoreOf m
      → StoreOf (insert k e m)
  unfolding insert
  insert-StoreOf k e [] o h = (o, tt)
  insert-StoreOf k e ((j, f) ∷ m) o (h, t) =
      if_both StoreOf (str_eq j k) (o, t) (h, insert-StoreOf k e m o t)

  evict-StoreOf : (n : ℕ) (m : Dict (Stored A)) → StoreOf m → StoreOf (evict n m)
  unfolding evict
  evict-StoreOf n [] h = tt
  evict-StoreOf n ((j, e) ∷ m) (h, t) =
      if_both StoreOf (ltb n (length ((j, e) ∷ m))) (evict-StoreOf n m t) (h, t)

  store_entry-StoreOf :
      (n : ℕ) (k : Str) (e : Stored A) (m : Dict (Stored A))
      → OfOption k e.content
      → StoreOf m
      → StoreOf (store_entry n k e m)
  unfolding store_entry
  store_entry-StoreOf n k e m o h =
      evict-StoreOf n _
        (insert-StoreOf k e _ o (if_both StoreOf (has_key k m) (delete-StoreOf k m h) h))

  keep_keys-StoreOf : (p : Str → Bool) (m : Dict (Stored A)) → StoreOf m → StoreOf (keep_keys p m)
  unfolding keep_keys
  keep_keys-StoreOf p [] h = tt
  keep_keys-StoreOf p ((j, e) ∷ m) (h, t) =
      if_both StoreOf (p j) (h, keep_keys-StoreOf p m t) (keep_keys-StoreOf p m t)

  pub drop_request-PendingOf :
      (p : ℕ) (rs : List (Request A)) → PendingOf rs → PendingOf (drop_request p rs)
  unfolding drop_request
  drop_request-PendingOf p [] h = tt
  drop_request-PendingOf p (r ∷ rs) (h, t) =
      if_both PendingOf (r.promise == p) (drop_request-PendingOf p rs t)
        (h, drop_request-PendingOf p rs t)

  pub find_request-PendingOf :
      (p : ℕ) (rs : List (Request A)) {r : Request A}
      → PendingOf rs
      → find_request p rs ≡ some r
      → OfOption r.key r.stale
  unfolding find_request
  find_request-PendingOf p [] h e = absurd (cc)
  find_request-PendingOf p (s ∷ rs) {r = r} (h, t) e = elim (Bool-cases (s.promise == p)) [
    | inl here ↦ subst (λ (q : Request A). OfOption q.key q.stale) {x = s} {y = r} (ground arith) h
    | inr there ↦ find_request-PendingOf p rs {r = r} t (ground arith)
  ]

  pub write-IsFiled :
      (now : ℕ) (key : Str) (content : Option A) (c : Cache A)
      → OfOption key content
      → IsFiled c
      → IsFiled (write_catalog_cache now key content c)
  unfolding write_catalog_cache step
  write-IsFiled now [] content c o v = v
  write-IsFiled now (k ∷ key) content c o v = record {
    live = step-IsLive (λ a. true) (write now (k ∷ key) content) c v.live;
    stored = store_entry-StoreOf _ (k ∷ key) _ c.store o v.stored;
    asked = v.asked;
  }

  pub invalidate-IsFiled :
      (prefix : Str) (c : Cache A) → IsFiled c → IsFiled (invalidate_catalog_cache prefix c)
  unfolding invalidate_catalog_cache step
  invalidate-IsFiled [] c v = record {
    live = step-IsLive (λ a. true) (invalidate []) c v.live;
    stored = tt;
    asked = v.asked;
  }
  invalidate-IsFiled (p ∷ prefix) c v = record {
    live = step-IsLive (λ a. true) (invalidate (p ∷ prefix)) c v.live;
    stored = keep_keys-StoreOf _ c.store v.stored;
    asked = v.asked;
  }

  pub content-OfOption :
      (k : Str) (o : Option (Stored A)) → OfStored k o → OfOption k (content_of o)
  content-OfOption k none h = tt
  content-OfOption k (some e) h = h

  pub empty_cache-IsFiled : IsFiled empty_cache
  empty_cache-IsFiled = record { live = empty_cache-IsLive; stored = tt; asked = tt }
