-- ===== src/Base/Maps.antt =====
-- A JavaScript `Map` with string keys: its entries in insertion order.
use mathlib.Core.Path.{◌≡◌, refl}
use mathlib.Core.Bool.{Bool, true, false, not, ◌||◌, ◌&&◌}
use mathlib.Core.List.{List, [], ◌∷◌, ◌++◌}
use mathlib.Core.Option.{Option, none, some}
use native.Mathlib.Omega.{arith}
use klew.Base.Tests.{if◌then◌else◌}
use klew.Base.Text.{Str, str_eq, str_eq_iff}

abbrev pub Dict {ℓ} : Type ℓ → Type ℓ
Dict V = List (Str × V)

module _ {ℓ} {V : Type ℓ} where
  -- `m.get(k)`
  unfoldable pub lookup : Str → Dict V → Option V
  lookup k [] = none
  lookup k ((j, v) ∷ m) = if str_eq j k then some v else lookup k m

  -- `m.has(k)`
  unfoldable pub has_key : Str → Dict V → Bool
  has_key k [] = false
  has_key k ((j, v) ∷ m) = str_eq j k || has_key k m

  -- `m.delete(k)`
  unfoldable pub delete : Str → Dict V → Dict V
  delete k [] = []
  delete k ((j, v) ∷ m) = let rest = delete k m in if str_eq j k then rest else (j, v) ∷ rest

  -- `m.set(k, v)`: a key that is there keeps its place
  unfoldable pub insert : Str → V → Dict V → Dict V
  insert k v [] = (k, v) ∷ []
  insert k v ((j, w) ∷ m) = if str_eq j k then (k, v) ∷ m else (j, w) ∷ insert k v m

  -- the entries whose key passes the test
  unfoldable pub keep_keys : (Str → Bool) → Dict V → Dict V
  keep_keys p [] = []
  keep_keys p ((j, v) ∷ m) = let rest = keep_keys p m in if p j then (j, v) ∷ rest else rest

  -- no key stands twice
  abbrev pub Distinct : Dict V → Type 0
  Distinct [] = Unit {0}
  Distinct ((j, v) ∷ m) = (has_key j m ≡ false) × Distinct m

  pub lookup-insert :
      (k j : Str) (v : V) (m : Dict V)
      → lookup j (insert k v m) ≡ (if str_eq k j then some v else lookup j m)
  unfolding lookup insert
  lookup-insert k j v [] = refl
  lookup-insert k j v ((i, w) ∷ m) =
      ground (arith, str_eq_iff k j, str_eq_iff i k, str_eq_iff i j, lookup-insert k j v m)

  pub lookup-delete :
      (k j : Str) (m : Dict V) → lookup j (delete k m) ≡ (if str_eq k j then none else lookup j m)
  unfolding lookup delete
  lookup-delete k j [] = ground arith
  lookup-delete k j ((i, w) ∷ m) =
      ground (arith, str_eq_iff k j, str_eq_iff i k, str_eq_iff i j, lookup-delete k j m)

  pub lookup-keep_keys :
      (p : Str → Bool) (j : Str) (m : Dict V)
      → lookup j (keep_keys p m) ≡ (if p j then lookup j m else none)
  unfolding lookup keep_keys
  lookup-keep_keys p j [] = ground arith
  lookup-keep_keys p j ((i, w) ∷ m) = ground (arith, str_eq_iff i j, lookup-keep_keys p j m)

  pub has_key-lookup : (k : Str) (m : Dict V) → has_key k m ≡ false → lookup k m ≡ none
  unfolding lookup has_key
  has_key-lookup k [] h = refl
  has_key-lookup k ((j, v) ∷ m) h = ground (arith, has_key-lookup k m)

  pub has_key-delete :
      (k j : Str) (m : Dict V) → has_key j (delete k m) ≡ (not (str_eq k j) && has_key j m)
  unfolding has_key delete
  has_key-delete k j [] = ground arith
  has_key-delete k j ((i, w) ∷ m) =
      ground (arith, str_eq_iff k j, str_eq_iff i k, str_eq_iff i j, has_key-delete k j m)

  pub has_key-append : (k : Str) (m n : Dict V) → has_key k (m ++ n) ≡ (has_key k m || has_key k n)
  unfolding has_key
  has_key-append k [] n = refl
  has_key-append k ((j, v) ∷ m) n = ground (arith, has_key-append k m n)

  pub has_key-insert :
      (k j : Str) (v : V) (m : Dict V) → has_key j (insert k v m) ≡ (str_eq k j || has_key j m)
  unfolding has_key insert
  has_key-insert k j v [] = ground arith
  has_key-insert k j v ((i, w) ∷ m) =
      ground (arith, str_eq_iff k j, str_eq_iff i k, str_eq_iff i j, has_key-insert k j v m)

  pub has_key-keep_keys :
      (p : Str → Bool) (j : Str) (m : Dict V)
      → has_key j m ≡ false
      → has_key j (keep_keys p m) ≡ false
  unfolding has_key keep_keys
  has_key-keep_keys p j [] h = refl
  has_key-keep_keys p j ((i, w) ∷ m) h = ground (arith, has_key-keep_keys p j m)

  pub delete-Distinct : (k : Str) (m : Dict V) → Distinct m → Distinct (delete k m)
  unfolding delete
  delete-Distinct k [] h = tt
  delete-Distinct k ((j, v) ∷ m) h = ground (arith, has_key-delete k j m, delete-Distinct k m h.1)

  pub insert-Distinct : (k : Str) (v : V) (m : Dict V) → Distinct m → Distinct (insert k v m)
  unfolding insert has_key
  insert-Distinct k v [] h = (refl, tt)
  insert-Distinct k v ((j, w) ∷ m) h =
      ground
        (arith, str_eq_iff j k, str_eq_iff k j, has_key-insert k j v m, insert-Distinct k v m h.1)

  pub keep_keys-Distinct : (p : Str → Bool) (m : Dict V) → Distinct m → Distinct (keep_keys p m)
  unfolding keep_keys
  keep_keys-Distinct p [] h = tt
  keep_keys-Distinct p ((j, v) ∷ m) h =
      ground (arith, has_key-keep_keys p j m, keep_keys-Distinct p m h.1)

  pub append_new-Distinct :
      (k : Str) (v : V) (m : Dict V)
      → has_key k m ≡ false
      → Distinct m
      → Distinct (m ++ (k, v) ∷ [])
  unfolding has_key
  append_new-Distinct k v [] n h = (refl, tt)
  append_new-Distinct k v ((j, w) ∷ m) n h = ground (
    arith,
    str_eq_iff j k,
    str_eq_iff k j,
    has_key-append j m ((k, v) ∷ []),
    append_new-Distinct k v m,
  )

  pub delete_absent : (k : Str) (m : Dict V) → has_key k m ≡ false → delete k m ≡ m
  unfolding has_key delete
  delete_absent k [] h = refl
  delete_absent k ((j, v) ∷ m) h = ground (arith, delete_absent k m)

  pub has_key_of_some : (k : Str) (m : Dict V) {v : V} → lookup k m ≡ some v → has_key k m ≡ true
  unfolding lookup has_key
  has_key_of_some k [] h = absurd (ground arith)
  has_key_of_some k ((j, w) ∷ m) {v = v} h = ground (arith, has_key_of_some k m {v = v})

  pub has_key_of_none : (k : Str) (m : Dict V) → lookup k m ≡ none → has_key k m ≡ false
  unfolding lookup has_key
  has_key_of_none k [] h = refl
  has_key_of_none k ((j, w) ∷ m) h = ground (arith, has_key_of_none k m)
