-- ===== src/Favorites.antt =====
-- lib/clusterContexts.js: the favourite kube contexts and the order of the context list.
-- `localeCompare` depends on the locale and is a parameter, `before a b` for a result of at most 0.
pub mod Display
pub mod Toggle
mod Tests
use klew.Base.{
  ℕ, Bool, true, false, not, ◌&&◌, ◌||◌, List, [], ◌∷◌, ◌++◌, Option, none, some, Str, str_eq,
  is_empty, trim, has, keep, map, if◌then◌else◌, Dict, lookup, has_key, insert,
}

-- The loop of `normalizeFavoriteContexts`, with its `seen` set.
unfoldable pub favorites_from : List Str → List Str → List Str
favorites_from seen [] = []
favorites_from seen (raw ∷ list) =
    let skipped = favorites_from seen list in
    let taken = trim raw ∷ favorites_from (trim raw ∷ seen) list in
    if is_empty (trim raw) || has seen (trim raw) then skipped else taken

unfoldable pub normalize_favorite_contexts : List Str → List Str
unfolding favorites_from
normalize_favorite_contexts list = favorites_from [] list

-- `list.filter((_, i) => i !== idx)` with `idx = list.indexOf(n)`
unfoldable pub without_first : Str → List Str → List Str
without_first n [] = []
without_first n (x ∷ xs) = if str_eq x n then xs else x ∷ without_first n xs

unfoldable pub toggle_favorite_context : List Str → Str → List Str
unfolding without_first
toggle_favorite_context favorites name =
    let n = trim name in
    let list = normalize_favorite_contexts favorites in
    if is_empty n then list else if has list n then without_first n list else list ++ n ∷ []

unfoldable pub is_favorite_context : List Str → Str → Bool
is_favorite_context favorites name =
    if is_empty (trim name) then false else has (normalize_favorite_contexts favorites) (trim name)

module _ {ℓ} {V : Type ℓ} where
  -- `new Map(contexts.map((c) => [c.name, c]))`; a context is its name with the rest of its fields
  unfoldable pub by_name : Dict V → Dict V → Dict V
  by_name m [] = m
  by_name m ((n, c) ∷ contexts) = by_name (insert n c m) contexts

  -- `favOrder.map((n) => byName.get(n)).filter(Boolean)`
  unfoldable pub pick : Dict V → List Str → Dict V
  pick m [] = []
  pick m (n ∷ ns) = elim (lookup n m) [ none ↦ pick m ns | some c ↦ (n, c) ∷ pick m ns ]

  module _ (before : Str → Str → Bool) where
    unfoldable pub sort_in : Str × V → Dict V → Dict V
    sort_in c [] = c ∷ []
    sort_in c (d ∷ ds) = if before c.0 d.0 then c ∷ d ∷ ds else d ∷ sort_in c ds

    -- `.sort((a, b) => a.name.localeCompare(b.name))`, which is stable
    unfoldable pub sort_by_name : Dict V → Dict V
    unfolding sort_in
    sort_by_name [] = []
    sort_by_name (c ∷ cs) = sort_in c (sort_by_name cs)

    unfoldable pub order_contexts_for_display : Dict V → List Str → Dict V
    unfolding by_name pick sort_by_name
    order_contexts_for_display contexts favorites =
        let m = by_name [] contexts in
        let fav_order = keep (λ n. has_key n m) (normalize_favorite_contexts favorites) in
        pick m fav_order ++ sort_by_name (keep (λ c. not (has fav_order c.0)) contexts)
