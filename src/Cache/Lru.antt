-- ===== src/Cache/Lru.antt =====
-- The bounded map that the three caches share: `writeCatalogCache`, `storeManifestCache` and
-- `storeChanges` move a key to the end of the `Map` and drop entries from its front.
pub mod Laws
mod Tests
use klew.Base.{
  ℕ, List, [], ◌∷◌, ◌++◌, Str, Dict, has_key, delete, insert, ltb, length, if◌then◌else◌,
}

module _ {ℓ} {V : Type ℓ} where
  -- `while (store.size > max) store.delete(store.keys().next().value)`
  unfoldable pub evict : ℕ → Dict V → Dict V
  evict max [] = []
  evict max (e ∷ m) = let rest = evict max m in if ltb max (length (e ∷ m)) then rest else e ∷ m

  -- `if (store.has(key)) store.delete(key)`, then `set`, then the loop
  unfoldable pub store_entry : ℕ → Str → V → Dict V → Dict V
  unfolding evict
  store_entry max k v m = evict max (insert k v (if has_key k m then delete k m else m))
