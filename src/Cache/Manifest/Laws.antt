-- ===== src/Cache/Manifest/Laws.antt =====
-- What lib/manifestCache.js keeps, and what it saves.
use klew.Base.{
  ℕ, ◌+◌, ◌<◌, ◌≡◌, refl, ◌∙◌, false, List, [], ◌∷◌, Option, none, some, lt→ltb, Str, str_eq_self,
  is_empty, ◌or◌, lookup, Distinct, insert-Distinct, delete-Distinct, if_both, arith,
}
use klew.Cache.Lru.Laws.{IsBounded, store_entry-IsBounded, lookup-store_entry}
use klew.Cache.Manifest.{
  Manifests, Fetch, Given, ready, ManifestTarget, Location, ManifestOp, loads, prefetches, stores,
  settles, clears, manifest_step, run_manifests, load_resource_manifest, prefetch_resource_manifest,
  store_manifest_cache, clear_manifest_cache, settle_manifest, settle_fetch, settled_cache,
  share_or_begin, prefetch_from, keep_manifest, manifest_cache_key, max_manifests,
  prefetch_fresh_ms,
}

module _ {ℓ} {A : Type ℓ} where
  -- At most MAX_ENTRIES manifests are kept, and neither map has a key twice.
  pub record IsKept (m : Manifests A) : Type ℓ where
    pub bounded : IsBounded max_manifests m.cache
    pub flights : Distinct m.inflight

  keep_manifest-IsBounded :
      (now : ℕ) (key : Str) (o : Option A) (m : Manifests A)
      → IsKept m
      → IsBounded max_manifests (keep_manifest now key o m.cache)
  keep_manifest-IsBounded now key none m v = v.bounded
  keep_manifest-IsBounded now key (some a) m v =
      store_entry-IsBounded max_manifests key _ m.cache v.bounded.distinct

  share_or_begin-IsKept :
      (r : Option Str) (key : Str) (o : Option ℕ) (m : Manifests A)
      → IsKept m
      → IsKept (share_or_begin r key o m).0
  share_or_begin-IsKept r key (some p) m v = v
  share_or_begin-IsKept r key none m v = record {
    bounded = v.bounded;
    flights = insert-Distinct key m.issued m.inflight v.flights;
  }

  prefetch_from-IsKept :
      (o : Option A) (r : Option Str) (key : Str) (m : Manifests A)
      → IsKept m
      → IsKept (prefetch_from o r key m).0
  prefetch_from-IsKept (some a) r key m v = v
  prefetch_from-IsKept none r key m v = share_or_begin-IsKept r key _ m v

  settled-IsBounded :
      (now : ℕ) (content : Option A) (f : Fetch) (o : Option Str) (m : Manifests A)
      → IsKept m
      → IsBounded max_manifests (settled_cache now content f o m)
  settled-IsBounded now content f none m v = keep_manifest-IsBounded now f.key content m v
  settled-IsBounded now content f (some e) m v = v.bounded

  settle_fetch-IsKept :
      (now : ℕ) (answer : Option (Option A)) (o : Option Fetch) (m : Manifests A)
      → IsKept m
      → IsKept (settle_fetch now answer o m)
  settle_fetch-IsKept now answer none m v = v
  settle_fetch-IsKept now none (some f) m v = record {
    bounded = v.bounded;
    flights = delete-Distinct f.key m.inflight v.flights;
  }
  settle_fetch-IsKept now (some content) (some f) m v = record {
    bounded = settled-IsBounded now content f f.refusal m v;
    flights = delete-Distinct f.key m.inflight v.flights;
  }

  manifest_step-IsKept :
      (o : ManifestOp A) (m : Manifests A) → IsKept m → IsKept (manifest_step o m)
  unfolding manifest_step load_resource_manifest prefetch_resource_manifest store_manifest_cache
      clear_manifest_cache settle_manifest
  manifest_step-IsKept (loads t l k) m v =
      if_both (λ (r : Manifests A × Given A). IsKept r.0) (is_empty (k or manifest_cache_key t l)) v
        (share_or_begin-IsKept _ _ _ m v)
  manifest_step-IsKept (prefetches now t l) m v =
      if_both (λ (r : Manifests A × Given A). IsKept r.0) (is_empty (manifest_cache_key t l)) v
        (prefetch_from-IsKept _ _ _ m v)
  manifest_step-IsKept (stores now key content) m v =
      if_both IsKept (is_empty key) v
        (record { bounded = keep_manifest-IsBounded now key content m v; flights = v.flights })
  manifest_step-IsKept (settles now p answer) m v = settle_fetch-IsKept now answer _ m v
  manifest_step-IsKept clears m v = record {
    bounded = record { within = omega arith; distinct = tt };
    flights = tt;
  }

  -- Whatever is loaded, prefetched, stored and cleared, and however the fetches settle, at most MAX_ENTRIES
  -- manifests are kept, and neither map has a key twice.
  pub run-IsKept :
      (os : List (ManifestOp A)) (m : Manifests A) → IsKept m → IsKept (run_manifests os m)
  unfolding run_manifests
  run-IsKept [] m v = v
  run-IsKept (o ∷ os) m v = run-IsKept os (manifest_step o m) (manifest_step-IsKept o m v)

  kept :
      (now : ℕ) (key : Str) (a : A) (m : Manifests A)
      → IsKept m
      → lookup key (keep_manifest now key (some a) m.cache)
        ≡ some (record { content = a; at = now })
  kept now key a m v =
      lookup-store_entry max_manifests key key _ m.cache (omega arith) v.bounded
      ∙ rw (str_eq_self key) refl

  -- A manifest that was stored serves a prefetch of its target for PREFETCH_FRESH_MS, and no fetch begins.
  pub prefetch-store :
      (now now' : ℕ) (t : Option ManifestTarget) (l : Location) (a : A) (m : Manifests A)
      → IsKept m
      → is_empty (manifest_cache_key t l) ≡ false
      → now' < now + prefetch_fresh_ms
      → prefetch_resource_manifest now' t l
          (store_manifest_cache now (manifest_cache_key t l) (some a) m)
        ≡ (store_manifest_cache now (manifest_cache_key t l) (some a) m, ready (some a))
  unfolding prefetch_resource_manifest store_manifest_cache
  prefetch-store now now' t l a m v h soon =
      rw (h, kept now (manifest_cache_key t l) a m v, lt→ltb _ _ soon) refl
