-- ===== src/Cache/Manifest.antt =====
-- lib/manifestCache.js: the manifests that were fetched, and the fetches under way. The backend's
-- `GetResourceManifest` is a promise that the event loop settles.
pub mod Laws
use klew.Base.{
  ℕ, suc, ◌+◌, ◌*◌, ◌<◌, ◌≤◌, ◌≡◌, refl, sym, ap, ◌∙◌, Bool, true, false, not, ◌&&◌, ◌||◌, List, [],
  ◌∷◌, ◌++◌, Option, none, some, if◌then◌else◌, ltb, lt→ltb, ◌==◌, Str, codes, str_eq, str_eq_self,
  is_empty, ◌or◌, join, Dict, lookup, insert, delete, Distinct, arith,
}
use klew.Cache.Lru.{store_entry}

abbrev pub max_manifests : ℕ
max_manifests = 64

abbrev pub prefetch_fresh_ms : ℕ
prefetch_fresh_ms = 30 * 1000

pub record ManifestTarget : Type 0 where
  pub resource_id : Str
  pub kind : Str
  pub name : Str
  pub namespace : Str
  pub cluster_scoped : Bool

-- what the functions read of the cluster; `context` is the selected one or else the current one
pub record Location : Type 0 where
  pub kubeconfig : Str
  pub context : Str

-- `manifestTargetKey` of lib/manifestTarget.js
unfoldable pub manifest_target_key : Option ManifestTarget → Str
manifest_target_key none = []
manifest_target_key (some t) =
    join (codes "|") ((t.resource_id or t.kind) ∷ (t.namespace or codes "*") ∷ t.name ∷ [])

abbrev pub name_of : Option ManifestTarget → Str
name_of none = []
name_of (some t) = t.name

unfoldable pub manifest_cache_key : Option ManifestTarget → Location → Str
unfolding manifest_target_key
manifest_cache_key t l =
    if is_empty (name_of t) || is_empty l.context || is_empty (manifest_target_key t)
    then []
    else join (codes "|") (l.kubeconfig ∷ l.context ∷ manifest_target_key t ∷ [])

pub record Kept {ℓ} (A : Type ℓ) : Type ℓ where
  pub content : A
  pub at : ℕ

-- A promise that is not settled. `refusal` is the error with which `fetchResourceManifest` rejects by
-- itself.
pub record Fetch : Type 0 where
  pub promise : ℕ
  pub key : Str
  pub refusal : Option Str

pub record Manifests {ℓ} (A : Type ℓ) : Type ℓ where
  pub cache : Dict (Kept A)
  pub inflight : Dict ℕ
  pub pending : List Fetch
  pub issued : ℕ

pub data Given {ℓ} (A : Type ℓ) : Type ℓ where
  -- a promise that is rejected, or resolved, at once
  refused : Str → Given A
  ready : Option A → Given A
  -- the promise that was under way, or the one that the call began
  shared : ℕ → Given A
  begun : ℕ → Given A

-- the two guards of `fetchResourceManifest`
abbrev pub refusal_of : Option ManifestTarget → Location → Option Str
refusal_of t l =
    if is_empty (name_of t)
    then some (codes "resource name is required")
    else if is_empty l.context
    then some (codes "cluster context is required")
    else none

abbrev pub find_fetch : ℕ → List Fetch → Option Fetch
find_fetch p [] = none
find_fetch p (f ∷ fs) = if f.promise == p then some f else find_fetch p fs

abbrev pub drop_fetch : ℕ → List Fetch → List Fetch
drop_fetch p [] = []
drop_fetch p (f ∷ fs) = let rest = drop_fetch p fs in if f.promise == p then rest else f ∷ rest

module _ {ℓ} {A : Type ℓ} where
  abbrev pub content_of : Option (Kept A) → Option A
  content_of none = none
  content_of (some e) = some e.content

  unfoldable pub peek_manifest_cache : Str → Manifests A → Option A
  peek_manifest_cache key m = if is_empty key then none else content_of (lookup key m.cache)

  abbrev pub keep_manifest : ℕ → Str → Option A → Dict (Kept A) → Dict (Kept A)
  keep_manifest now key none d = d
  keep_manifest now key (some a) d =
      store_entry max_manifests key (record { content = a; at = now }) d

  unfoldable pub store_manifest_cache : ℕ → Str → Option A → Manifests A → Manifests A
  store_manifest_cache now key content m =
      if is_empty key then m else record m { cache = keep_manifest now key content m.cache }

  unfoldable pub clear_manifest_cache : Manifests A → Manifests A
  clear_manifest_cache m = record m { cache = []; inflight = [] }

  abbrev pub share_or_begin : Option Str → Str → Option ℕ → Manifests A → Manifests A × Given A
  share_or_begin refusal key (some p) m = (m, shared p)
  share_or_begin refusal key none m = (
    record m {
      inflight = insert key m.issued m.inflight;
      pending = record { promise = m.issued; key = key; refusal = refusal } ∷ m.pending;
      issued = suc m.issued;
    },
    begun m.issued,
  )

  unfoldable pub load_resource_manifest :
      Option ManifestTarget → Location → Str → Manifests A → Manifests A × Given A
  unfolding manifest_cache_key
  load_resource_manifest t l cache_key m =
      let key = cache_key or manifest_cache_key t l in
      if is_empty key
      then (m, refused (codes "manifest cache key is required"))
      else share_or_begin (refusal_of t l) key (lookup key m.inflight) m

  -- `Date.now() - entry.at < PREFETCH_FRESH_MS`
  abbrev pub fresh_content : ℕ → Option (Kept A) → Option A
  fresh_content now none = none
  fresh_content now (some e) = if ltb now (e.at + prefetch_fresh_ms) then some e.content else none

  abbrev pub prefetch_from : Option A → Option Str → Str → Manifests A → Manifests A × Given A
  prefetch_from (some a) refusal key m = (m, ready (some a))
  prefetch_from none refusal key m = share_or_begin refusal key (lookup key m.inflight) m

  unfoldable pub prefetch_resource_manifest :
      ℕ → Option ManifestTarget → Location → Manifests A → Manifests A × Given A
  unfolding manifest_cache_key
  prefetch_resource_manifest now t l m =
      let key = manifest_cache_key t l in
      if is_empty key
      then (m, ready none)
      else prefetch_from (fresh_content now (lookup key m.cache)) (refusal_of t l) key m

  -- the cache after an answer to a fetch, if that was made
  abbrev pub settled_cache : ℕ → Option A → Fetch → Option Str → Manifests A → Dict (Kept A)
  settled_cache now content f none m = keep_manifest now f.key content m.cache
  settled_cache now content f (some e) m = m.cache

  -- `.then` of an answer, where the fetch was made, and `.finally`
  abbrev pub settle_fetch : ℕ → Option (Option A) → Option Fetch → Manifests A → Manifests A
  settle_fetch now answer none m = m
  settle_fetch now none (some f) m = record m {
    inflight = delete f.key m.inflight;
    pending = drop_fetch f.promise m.pending;
  }
  settle_fetch now (some content) (some f) m = record m {
    cache = settled_cache now content f f.refusal m;
    inflight = delete f.key m.inflight;
    pending = drop_fetch f.promise m.pending;
  }

  -- The event loop settles a promise: `none` is a rejection.
  unfoldable pub settle_manifest : ℕ → ℕ → Option (Option A) → Manifests A → Manifests A
  settle_manifest now p answer m = settle_fetch now answer (find_fetch p m.pending) m

-- What the program and its event loop do.
pub data ManifestOp {ℓ} (A : Type ℓ) : Type ℓ where
  loads : Option ManifestTarget → Location → (cache_key : Str) → ManifestOp A
  prefetches : (now : ℕ) → Option ManifestTarget → Location → ManifestOp A
  stores : (now : ℕ) (key : Str) → Option A → ManifestOp A
  settles : (now promise : ℕ) → Option (Option A) → ManifestOp A
  clears : ManifestOp A

module _ {ℓ} {A : Type ℓ} where
  unfoldable pub manifest_step : ManifestOp A → Manifests A → Manifests A
  unfolding load_resource_manifest prefetch_resource_manifest store_manifest_cache
      clear_manifest_cache settle_manifest
  manifest_step (loads t l key) m = (load_resource_manifest t l key m).0
  manifest_step (prefetches now t l) m = (prefetch_resource_manifest now t l m).0
  manifest_step (stores now key content) m = store_manifest_cache now key content m
  manifest_step (settles now p answer) m = settle_manifest now p answer m
  manifest_step clears m = clear_manifest_cache m

  unfoldable pub run_manifests : List (ManifestOp A) → Manifests A → Manifests A
  unfolding manifest_step
  run_manifests [] m = m
  run_manifests (o ∷ os) m = run_manifests os (manifest_step o m)
