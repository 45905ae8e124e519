-- ===== src/Cache/Catalog/Keys.antt =====
-- The keys of lib/catalogCache.js, and which of them an invalidation by prefix forgets.
use klew.Base.{
  ◌≡◌, refl, sym, ap, ◌∙◌, append-nil, Bool, false, List, [], ◌∷◌, ◌++◌, Option, none, some, Str,
  codes, lookup, starts_with, join, if◌then◌else◌,
}
use klew.Cache.Catalog.{Cache, invalidate_catalog_cache}
use klew.Cache.Catalog.Loading.{lookup-invalidate}

-- `parts.filter((p) => p != null && p !== '')`
unfoldable pub present : List (Option Str) → List Str
present [] = []
present (none ∷ ps) = present ps
present (some [] ∷ ps) = present ps
present (some (c ∷ s) ∷ ps) = (c ∷ s) ∷ present ps

unfoldable pub build_catalog_cache_key : List (Option Str) → Str
unfolding present join
build_catalog_cache_key parts = join (codes "|") (present parts)

-- the fields that the key builders read; an absent one is `none`
pub record KeyParts : Type 0 where
  pub resource_id : Option Str
  pub ctx : Option Str
  pub kubeconfig : Option Str
  pub ns_key : Option Str
  pub loadable_key : Option Str
  pub cluster_scoped : Bool

unfoldable pub entities_list_cache_key : KeyParts → Str
unfolding build_catalog_cache_key
entities_list_cache_key k = build_catalog_cache_key (
    some (codes "entities")
    ∷ k.resource_id
    ∷ k.ctx
    ∷ k.kubeconfig
    ∷ k.ns_key
    ∷ some (if k.cluster_scoped then codes "cluster" else codes "ns")
    ∷ [])

unfoldable pub overview_cache_key : KeyParts → Str
unfolding build_catalog_cache_key
overview_cache_key k = build_catalog_cache_key (
    some (codes "overview")
    ∷ some (codes "v3")
    ∷ k.ctx
    ∷ k.kubeconfig
    ∷ k.ns_key
    ∷ k.loadable_key
    ∷ [])

unfoldable pub catalog_index_cache_key : KeyParts → Str
unfolding build_catalog_cache_key
catalog_index_cache_key k =
    build_catalog_cache_key (some (codes "catalog") ∷ k.ctx ∷ k.kubeconfig ∷ k.ns_key ∷ [])

unfoldable pub cluster_status_cache_key : Option Str → Str
unfolding build_catalog_cache_key
cluster_status_cache_key ctx = build_catalog_cache_key (some (codes "cluster-status") ∷ ctx ∷ [])

-- A joined text begins with its first part.
join-head : (sep p : Str) (ps : List Str) → (t : Str) × (join sep (p ∷ ps) ≡ p ++ t)
unfolding join
join-head sep p [] = ([], sym (append-nil p))
join-head sep p (q ∷ qs) = (sep ++ join sep (q ∷ qs), refl)

abbrev HasPrefix : Str → Str → Type 0
HasPrefix p key = (t : Str) × (key ≡ p ++ t)

entities_key-prefix : (k : KeyParts) → HasPrefix (codes "entities") (entities_list_cache_key k)
unfolding entities_list_cache_key
entities_key-prefix k = join-head (codes "|") (codes "entities") _

overview_key-prefix : (k : KeyParts) → HasPrefix (codes "overview") (overview_cache_key k)
unfolding overview_cache_key
overview_key-prefix k =
    join-head (codes "|") (codes "overview")
      (present (some (codes "v3") ∷ k.ctx ∷ k.kubeconfig ∷ k.ns_key ∷ k.loadable_key ∷ []))

catalog_key-prefix : (k : KeyParts) → HasPrefix (codes "catalog") (catalog_index_cache_key k)
unfolding catalog_index_cache_key
catalog_key-prefix k = join-head (codes "|") (codes "catalog") _

status_key-prefix :
    (ctx : Option Str) → HasPrefix (codes "cluster-status") (cluster_status_cache_key ctx)
unfolding cluster_status_cache_key
status_key-prefix ctx = join-head (codes "|") (codes "cluster-status") _

module _ {ℓ} {A : Type ℓ} where
  forgotten :
      (key : Str) (c : Cache A)
      → HasPrefix (codes "entities") key
      → lookup key (invalidate_catalog_cache (codes "entities") c).store ≡ none
  unfolding starts_with
  forgotten key c (t, e) =
      (lookup-invalidate (codes "entities") key c refl).0
      ∙ ap (λ s. if starts_with s (codes "entities") then none else lookup key c.store) e

  kept :
      (key : Str) (c : Cache A)
      → starts_with key (codes "entities") ≡ false
      → lookup key (invalidate_catalog_cache (codes "entities") c).store ≡ lookup key c.store
  kept key c h = (lookup-invalidate (codes "entities") key c refl).0 ∙ rw h

  -- The prefix `entities` forgets every entity list, of whatever kind, context and namespaces, and
  -- keeps every overview, every catalog index and every cluster status.
  pub invalidate-entities :
      (k : KeyParts) (c : Cache A)
      → (lookup (entities_list_cache_key k) (invalidate_catalog_cache (codes "entities") c).store
          ≡ none)
        × (lookup (overview_cache_key k) (invalidate_catalog_cache (codes "entities") c).store
            ≡ lookup (overview_cache_key k) c.store)
        × (lookup (catalog_index_cache_key k) (invalidate_catalog_cache (codes "entities") c).store
            ≡ lookup (catalog_index_cache_key k) c.store)
        × (lookup
              (cluster_status_cache_key k.ctx)
              (invalidate_catalog_cache (codes "entities") c).store
            ≡ lookup (cluster_status_cache_key k.ctx) c.store)
  unfolding starts_with
  invalidate-entities k c = (
    forgotten _ c (entities_key-prefix k),
    kept _ c (ap (λ s. starts_with s (codes "entities")) (overview_key-prefix k).1),
    kept _ c (ap (λ s. starts_with s (codes "entities")) (catalog_key-prefix k).1),
    kept _ c (ap (λ s. starts_with s (codes "entities")) (status_key-prefix k.ctx).1),
  )
