-- ===== src/Cache/Tests.antt =====
-- The manifest and revision caches on concrete calls.
use klew.Base.{
  ℕ, ◌≡◌, refl, false, List, [], ◌∷◌, some, Option, codes, str_eq, lookup, insert, delete, has_key,
  join, arith,
}
use klew.Cache.Lru.{store_entry, evict}
use klew.Cache.Manifest.{
  Manifests, ready, ManifestTarget, Location, ManifestOp, loads, prefetches, settles,
  manifest_target_key, manifest_cache_key, peek_manifest_cache, load_resource_manifest,
  prefetch_resource_manifest, store_manifest_cache, clear_manifest_cache, settle_manifest,
  manifest_step, run_manifests,
}
use klew.Cache.Manifest.Laws.{IsKept, prefetch-store}
use klew.Cache.Changes.{invalid, peek_changes, store_changes, entry_freshness, changes_cache_key}

program : Unit {0}
unfolding str_eq lookup insert delete has_key join store_entry evict manifest_target_key
    manifest_cache_key peek_manifest_cache load_resource_manifest prefetch_resource_manifest
    store_manifest_cache clear_manifest_cache settle_manifest manifest_step run_manifests
    peek_changes store_changes entry_freshness changes_cache_key
program = tt

abbrev web : Option ManifestTarget
web = some (record {
  resource_id = [];
  kind = codes "Pod";
  name = codes "web";
  namespace = codes "shop";
  cluster_scoped = false;
})

abbrev dev : Location
dev = record { kubeconfig = codes "/kube"; context = codes "dev" }

abbrev no_manifests : Manifests ℕ
no_manifests = record { cache = []; inflight = []; pending = []; issued = 0 }

no_manifests-IsKept : IsKept no_manifests
no_manifests-IsKept = record {
  bounded = record { within = omega arith; distinct = tt };
  flights = tt;
}

web_key : manifest_cache_key web dev ≡ codes "/kube|dev|Pod|shop|web"
unfolding program
web_key = refl

abbrev calls : List (ManifestOp ℕ)
calls =
    loads web dev []
    ∷ prefetches 10 web dev
    ∷ settles 20 0 (some (some 7))
    ∷ loads web (record dev { context = [] }) (codes "given")
    ∷ settles 30 1 (some (some 8))
    ∷ []

-- the prefetch joins the load, and the fetch without a context is rejected and stores nothing
calls_cache :
    (run_manifests calls no_manifests).cache
    ≡ (codes "/kube|dev|Pod|shop|web", record { content = 7; at = 20 }) ∷ []
unfolding program
calls_cache = refl

prefetch-store_example :
    prefetch_resource_manifest 30000 web dev
      (store_manifest_cache 20 (manifest_cache_key web dev) (some 7) no_manifests)
    ≡ (store_manifest_cache 20 (manifest_cache_key web dev) (some 7) no_manifests, ready (some 7))
unfolding program
prefetch-store_example =
    prefetch-store 20 30000 web dev 7 no_manifests no_manifests-IsKept refl (omega arith)

-- a newer generation than that of the cached changes
outdated : entry_freshness (λ g. g) (some (record { content = 3; at = 0 })) 4 1 ≡ invalid
unfolding program
outdated = refl
