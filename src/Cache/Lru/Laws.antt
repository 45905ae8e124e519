-- ===== src/Cache/Lru/Laws.antt =====
-- The bound on the shared map, its keys, and what a write keeps.
use klew.Base.{
  ℕ, suc, ◌≤◌, ◌<◌, ◌≡◌, refl, ◌∙◌, Bool, true, false, ◌||◌, [], ◌∷◌, ◌++◌, Option, none, some, inl,
  inr, arith, Str, Dict, has_key, delete, insert, lookup, ltb, length, if◌then◌else◌, Distinct,
  delete-Distinct, append_new-Distinct, has_key-delete, delete_absent, str_eq, str_eq_iff,
  str_eq_self, Bool-cases, length-append, has_key-lookup, lookup-delete, ltb→lt, keep_keys,
  keep_keys-Distinct,
}
use klew.Cache.Lru.{evict, store_entry}

-- A map with at most `max` entries and no key twice.
pub record IsBounded {ℓ} {V : Type ℓ} (max : ℕ) (m : Dict V) : Type ℓ where
  pub within : length m ≤ max
  pub distinct : Distinct m

-- `j` is the key that was dropped
abbrev pub is_dropped : Option Str → Str → Bool
is_dropped none j = false
is_dropped (some i) j = str_eq i j

module _ {ℓ} {V : Type ℓ} where
  insert_new :
      (k : Str) (v : V) (m : Dict V) → has_key k m ≡ false → insert k v m ≡ m ++ (k, v) ∷ []
  unfolding insert has_key
  insert_new k v [] h = refl
  insert_new k v ((j, w) ∷ m) h = ground (arith, insert_new k v m)

  length-delete-le : (k : Str) (m : Dict V) → length (delete k m) ≤ length m
  unfolding delete
  length-delete-le k [] = omega arith
  length-delete-le k ((j, w) ∷ m) = ground (arith, length-delete-le k m)

  length-delete-lt : (k : Str) (m : Dict V) → has_key k m ≡ true → length (delete k m) < length m
  unfolding delete has_key
  length-delete-lt k [] h = absurd (ground arith)
  length-delete-lt k ((j, w) ∷ m) h = ground (arith, length-delete-lt k m, length-delete-le k m)

  length-keep_keys-le : (p : Str → Bool) (m : Dict V) → length (keep_keys p m) ≤ length m
  unfolding keep_keys
  length-keep_keys-le p [] = omega arith
  length-keep_keys-le p ((j, w) ∷ m) = ground (arith, length-keep_keys-le p m)

  -- The key is deleted and appended: what the write hands to the loop.
  moved_last :
      (k : Str) (v : V) (m : Dict V)
      → insert k v (if has_key k m then delete k m else m) ≡ delete k m ++ (k, v) ∷ []
  moved_last k v m = elim (Bool-cases (has_key k m)) [
    | inl h ↦ rw h (insert_new k v (delete k m) (has_key-delete k k m ∙ rw (str_eq_self k)))
    | inr h ↦ rw (h, delete_absent k m h) (insert_new k v m h)
  ]

  evict_within : (max : ℕ) (m : Dict V) → length m ≤ max → evict max m ≡ m
  unfolding evict
  evict_within max [] h = refl
  evict_within max (e ∷ m) h = ground arith

  evict_one : (max : ℕ) (e : Str × V) (m : Dict V) → length m ≡ max → evict max (e ∷ m) ≡ m
  unfolding evict
  evict_one max e m h = ground (arith, evict_within max m)

  evict-length-le : (max : ℕ) (m : Dict V) → length (evict max m) ≤ max
  unfolding evict
  evict-length-le max [] = omega arith
  evict-length-le max (e ∷ m) = ground (arith, evict-length-le max m)

  evict-Distinct : (max : ℕ) (m : Dict V) → Distinct m → Distinct (evict max m)
  unfolding evict
  evict-Distinct max [] h = tt
  evict-Distinct max (e ∷ m) h = ground (arith, evict-Distinct max m h.1)

  pub store_entry-IsBounded :
      (max : ℕ) (k : Str) (v : V) (m : Dict V) → Distinct m → IsBounded max (store_entry max k v m)
  unfolding store_entry
  store_entry-IsBounded max k v m h = record {
    within = evict-length-le max _;
    distinct = evict-Distinct max _ (
        rw (moved_last k v m) (
          append_new-Distinct k v (delete k m) (has_key-delete k k m ∙ rw (str_eq_self k))
            (delete-Distinct k m h)));
  }

  -- The key that a write drops: the oldest one, when the map is full and the key is new.
  unfoldable pub dropped : ℕ → Str → Dict V → Option Str
  dropped max k [] = none
  dropped max k ((j, w) ∷ m) =
      if has_key k ((j, w) ∷ m) || ltb (length ((j, w) ∷ m)) max then none else some j

  lookup-append :
      (j k : Str) (v : V) (m : Dict V)
      → has_key k m ≡ false
      → lookup j (m ++ (k, v) ∷ []) ≡ (if str_eq k j then some v else lookup j m)
  unfolding lookup has_key
  lookup-append j k v [] h = refl
  lookup-append j k v ((i, w) ∷ m) h =
      ground (arith, str_eq_iff k j, str_eq_iff i j, str_eq_iff i k, lookup-append j k v m)

  lookup-append_delete :
      (j k : Str) (v : V) (m : Dict V)
      → lookup j (delete k m ++ (k, v) ∷ []) ≡ (if str_eq k j then some v else lookup j m)
  lookup-append_delete j k v m = ground (
    arith,
    has_key-delete k k m,
    str_eq_self k,
    lookup-append j k v (delete k m),
    lookup-delete k j m,
  )

  -- No room is needed: the key was there, or the map is not full.
  lookup-store_roomy :
      (max : ℕ) (k j : Str) (v : V) (m : Dict V)
      → length (delete k m) < max
      → lookup j (store_entry max k v m) ≡ (if str_eq k j then some v else lookup j m)
  unfolding store_entry
  lookup-store_roomy max k j v m h =
      rw
        (
          moved_last k v m,
          evict_within max (delete k m ++ (k, v) ∷ [])
              (omega (arith, length-append (delete k m) ((k, v) ∷ []))),
        )
        (lookup-append_delete j k v m)

  lookup-store_full :
      (max : ℕ) (k j i : Str) (v w : V) (m : Dict V)
      → has_key k ((i, w) ∷ m) ≡ false
      → has_key i m ≡ false
      → suc (length m) ≡ max
      → lookup j (store_entry max k v ((i, w) ∷ m))
        ≡ (if str_eq k j then some v else if str_eq i j then none else lookup j ((i, w) ∷ m))
  unfolding store_entry has_key lookup
  lookup-store_full max k j i v w m new alone full =
      rw
        (
          moved_last k v ((i, w) ∷ m),
          delete_absent k ((i, w) ∷ m) new,
          evict_one max (i, w) (m ++ (k, v) ∷ []) (omega (arith, length-append m ((k, v) ∷ []))),
        )
        (ground (
          arith,
          str_eq_iff i j,
          str_eq_iff k j,
          lookup-append j k v m new_below,
          has_key-lookup i m alone,
        ))
    where
      new_below : has_key k m ≡ false
      new_below = ground arith

  -- What every key reads after a write: the written key the new value, the dropped key nothing, and
  -- any other key what it read before.
  pub lookup-store_entry :
      (max : ℕ) (k j : Str) (v : V) (m : Dict V)
      → 0 < max
      → IsBounded max m
      → lookup j (store_entry max k v m) ≡ (
          if str_eq k j
          then some v
          else if is_dropped (dropped max k m) j
          then none
          else lookup j m)
  unfolding dropped lookup delete
  lookup-store_entry max k j v [] pos b = lookup-store_roomy max k j v [] pos
  lookup-store_entry max k j v ((i, w) ∷ m) pos b = elim (Bool-cases (has_key k ((i, w) ∷ m))) [
    | inl old ↦ rw old (
        lookup-store_roomy max k j v ((i, w) ∷ m)
          (omega (arith, b.within, length-delete-lt k ((i, w) ∷ m) old)))
    | inr new ↦ elim (Bool-cases (ltb (length ((i, w) ∷ m)) max)) [
      | inl room ↦
          rw (new, room)
            (lookup-store_roomy max k j v ((i, w) ∷ m)
              (rw (delete_absent k ((i, w) ∷ m) new) (ltb→lt _ _ room)))
      | inr full ↦
          rw (new, full)
            (lookup-store_full max k j i v w m new b.distinct.0 (ground (arith, b.within)))
    ]
  ]

  pub keep_keys-IsBounded :
      (max : ℕ) (p : Str → Bool) (m : Dict V) → IsBounded max m → IsBounded max (keep_keys p m)
  keep_keys-IsBounded max p m b = record {
    within = omega (arith, b.within, length-keep_keys-le p m);
    distinct = keep_keys-Distinct p m b.distinct;
  }
