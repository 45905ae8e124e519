-- ===== src/Cache/Lru/Tests.antt =====
-- The shared map on concrete writes.
use klew.Base.{ℕ, ◌≡◌, refl, [], ◌∷◌, arith, codes, Dict, lookup, str_eq, has_key, insert, delete}
use klew.Cache.Lru.{evict, store_entry}
use klew.Cache.Lru.Laws.{IsBounded}

program : Unit {0}
unfolding store_entry evict str_eq has_key insert delete lookup
program = tt

abbrev two : Dict ℕ
two = (codes "a", 1) ∷ (codes "b", 2) ∷ []

drops_oldest : store_entry 2 (codes "c") 3 two ≡ (codes "b", 2) ∷ (codes "c", 3) ∷ []
unfolding program
drops_oldest = refl

moves_last : store_entry 2 (codes "a") 3 two ≡ (codes "b", 2) ∷ (codes "a", 3) ∷ []
unfolding program
moves_last = refl

two-IsBounded : IsBounded 2 two
unfolding program
two-IsBounded = record { within = omega arith; distinct = (refl, (refl, tt)) }
