-- ===== src/Favorites/Display.antt =====
-- The displayed list of lib/clusterContexts.js: which contexts it holds, and in which order.
use mathlib.Core.Path.{ap₂}
use klew.Base.{
  ◌≡◌, refl, ap, ◌∙◌, Bool, not, ◌&&◌, ◌||◌, List, [], ◌∷◌, inl, inr, arith, Str, str_eq,
  str_eq_iff, has, keep, Dict, lookup, has_key, insert, has_key-insert, has_key-append,
  Option-cases, has_key_of_none, has_key_of_some,
}
use klew.Favorites.{
  normalize_favorite_contexts, by_name, pick, sort_in, sort_by_name, order_contexts_for_display,
}

split_cover : (f c : Bool) → ((f && c) || (c && not f)) ≡ c
split_cover f c = ground arith

module _ {ℓ} {V : Type ℓ} where
  has_key-by_name :
      (k : Str) (m cs : Dict V) → has_key k (by_name m cs) ≡ (has_key k m || has_key k cs)
  unfolding by_name has_key
  has_key-by_name k m [] = ground arith
  has_key-by_name k m ((n, c) ∷ cs) =
      ground (arith, has_key-by_name k (insert n c m) cs, has_key-insert n k c m)

  has_key-pick :
      (k : Str) (m : Dict V) (ns : List Str) → has_key k (pick m ns) ≡ (has ns k && has_key k m)
  unfolding pick has_key has
  has_key-pick k m [] = refl
  has_key-pick k m (n ∷ ns) = elim (Option-cases (lookup n m)) [
    | inl gone ↦
        rw (gone, pick, has_key-pick k m ns)
          (ground (arith, str_eq_iff n k, has_key_of_none n m gone))
    | inr (c, got) ↦
        rw (got, pick, has_key-pick k m ns)
          (ground (arith, str_eq_iff n k, has_key_of_some n m got))
  ]

  has_key-sort_in :
      (before : Str → Str → Bool) (k : Str) (c : Str × V) (ds : Dict V)
      → has_key k (sort_in before c ds) ≡ (str_eq c.0 k || has_key k ds)
  unfolding sort_in has_key
  has_key-sort_in before k c [] = refl
  has_key-sort_in before k c (d ∷ ds) = ground (arith, has_key-sort_in before k c ds)

  has_key-sort_by_name :
      (before : Str → Str → Bool) (k : Str) (cs : Dict V)
      → has_key k (sort_by_name before cs) ≡ has_key k cs
  unfolding sort_by_name has_key
  has_key-sort_by_name before k [] = refl
  has_key-sort_by_name before k (c ∷ cs) =
      has_key-sort_in before k c (sort_by_name before cs)
      ∙ ap (λ b. str_eq c.0 k || b) (has_key-sort_by_name before k cs)

  has_key-rest :
      (k : Str) (favs : List Str) (cs : Dict V)
      → has_key k (keep (λ c. not (has favs c.0)) cs) ≡ (has_key k cs && not (has favs k))
  unfolding has_key
  has_key-rest k favs [] = refl
  has_key-rest k favs ((n, c) ∷ cs) = ground (arith, str_eq_iff n k, has_key-rest k favs cs)

  -- The list shows exactly the contexts that it is given, whatever the favourites: favourites that
  -- are gone from the kubeconfig add nothing, and no context is lost between the two parts.
  pub has_key-order :
      (before : Str → Str → Bool) (contexts : Dict V) (favorites : List Str) (k : Str)
      → has_key k (order_contexts_for_display before contexts favorites) ≡ has_key k contexts
  unfolding order_contexts_for_display
  has_key-order before contexts favorites k =
      let m : Dict V = by_name [] contexts in
      let favs : List Str = keep (λ n. has_key n m) (normalize_favorite_contexts favorites) in
      has_key-append k (pick m favs) _
      ∙ ap₂ ◌||◌ (has_key-pick k m favs) (
          has_key-sort_by_name before k (keep (λ c. not (has favs c.0)) contexts)
          ∙ has_key-rest k favs contexts)
      ∙ ap (λ b. (has favs k && b) || (has_key k contexts && not (has favs k)))
          (has_key-by_name k [] contexts)
      ∙ unfold has_key in split_cover (has favs k) (has_key k contexts)
