-- ===== src/Favorites/Tests.antt =====
-- Favourites on concrete names.
use klew.Base.{
  ℕ, ◌≡◌, refl, Bool, true, false, not, List, [], ◌∷◌, Str, codes, str_eq, trim, has, leb, has_key,
  Dict, lookup, insert, if◌then◌else◌,
}
use klew.Favorites.{
  normalize_favorite_contexts, toggle_favorite_context, is_favorite_context,
  order_contexts_for_display,
}
use klew.Favorites.Toggle.{is_favorite-toggle}

program : Unit {0}
unfolding str_eq trim has has_key lookup insert normalize_favorite_contexts toggle_favorite_context
    is_favorite_context order_contexts_for_display
program = tt

abbrev saved : List Str
saved = codes " prod " ∷ codes "dev" ∷ codes "prod" ∷ [] ∷ []

normalizes : normalize_favorite_contexts saved ≡ codes "prod" ∷ codes "dev" ∷ []
unfolding program
normalizes = refl

removes : toggle_favorite_context saved (codes "prod") ≡ codes "dev" ∷ []
unfolding program
removes = refl

adds : toggle_favorite_context saved (codes "qa") ≡ codes "prod" ∷ codes "dev" ∷ codes "qa" ∷ []
unfolding program
adds = refl

-- an order by first letters, for the tests
abbrev first_before : Str → Str → Bool
first_before [] t = true
first_before (a ∷ s) [] = false
first_before (a ∷ s) (b ∷ t) = leb a b

abbrev contexts : Dict ℕ
contexts = (codes "qa", 1) ∷ (codes "dev", 2) ∷ (codes "ops", 3) ∷ []

orders :
    order_contexts_for_display first_before contexts (codes "dev" ∷ codes "gone" ∷ [])
    ≡ (codes "dev", 2) ∷ (codes "ops", 3) ∷ (codes "qa", 1) ∷ []
unfolding program
orders = refl

is_favorite-toggle_example :
    is_favorite_context (toggle_favorite_context saved (codes "dev ")) (codes "prod") ≡ (
      if str_eq (trim (codes "dev ")) (trim (codes "prod"))
      then not (is_favorite_context saved (codes "dev "))
      else is_favorite_context saved (codes "prod"))
unfolding program
is_favorite-toggle_example = is_favorite-toggle saved (codes "dev ") (codes "prod") refl
