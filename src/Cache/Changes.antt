-- ===== src/Cache/Changes.antt =====
-- lib/changesCache.js: the revision history of workloads. The generation of an entry's data is a
-- function of the data, `generation_of`, 0 where there is none.
pub mod Fetches
pub mod Flights
mod Tests
use klew.Base.{
  ℕ, ◌+◌, ◌*◌, ◌≡◌, refl, ◌∙◌, false, not, ◌&&◌, ◌||◌, [], Option, none, some, if◌then◌else◌, ltb,
  ◌==◌, Str, codes, str_eq_self, is_empty, ◌++◌, Dict, lookup, arith,
}
use klew.Cache.Lru.{store_entry}
use klew.Cache.Lru.Laws.{IsBounded, lookup-store_entry}
use klew.Cache.Manifest.{Kept}

abbrev pub max_changes : ℕ
max_changes = 64

abbrev pub revalidate_ms : ℕ
revalidate_ms = 60 * 1000

unfoldable pub changes_cache_key : Str → Str → Str → Str → Str
changes_cache_key scope kind namespace name =
    if is_empty scope || is_empty kind || is_empty name
    then []
    else scope ++ codes "|" ++ kind ++ codes "/" ++ namespace ++ codes "/" ++ name

pub data Freshness : Type 0 where
  missing invalid stale fresh : Freshness

same_generation : (g : ℕ) → (not (g == 0) && not (g == 0) && not (g == g)) ≡ false
same_generation g = ground arith

module _ {ℓ} {A : Type ℓ} where
  unfoldable pub peek_changes : Str → Dict (Kept A) → Option (Kept A)
  peek_changes key m = if is_empty key then none else lookup key m

  abbrev pub keep_changes : Str → Option A → ℕ → Dict (Kept A) → Dict (Kept A)
  keep_changes key none at m = m
  keep_changes key (some a) at m = store_entry max_changes key (record { content = a; at = at }) m

  unfoldable pub store_changes : Str → Option A → ℕ → Dict (Kept A) → Dict (Kept A)
  store_changes key content at m = if is_empty key then m else keep_changes key content at m

  unfoldable pub entry_freshness : (A → ℕ) → Option (Kept A) → ℕ → ℕ → Freshness
  entry_freshness generation_of none generation now = missing
  entry_freshness generation_of (some e) generation now =
      if not (generation == 0)
        && not (generation_of e.content == 0)
        && not (generation == generation_of e.content)
      then invalid
      else if ltb (e.at + revalidate_ms) now
      then stale
      else fresh

  peek-store :
      (key : Str) (a : A) (at : ℕ) (m : Dict (Kept A))
      → is_empty key ≡ false
      → IsBounded max_changes m
      → peek_changes key (store_changes key (some a) at m) ≡ some (record { content = a; at = at })
  unfolding peek_changes store_changes
  peek-store key a at m h b =
      rw h (lookup-store_entry max_changes key key _ m (omega arith) b ∙ rw (str_eq_self key) refl)

  -- Changes that were stored are fresh for REVALIDATE_MS if they are of the generation that is asked
  -- for, and after that stale.
  pub freshness-store :
      (generation_of : A → ℕ) (key : Str) (a : A) (at now : ℕ) (m : Dict (Kept A))
      → is_empty key ≡ false
      → IsBounded max_changes m
      → entry_freshness generation_of
          (peek_changes key (store_changes key (some a) at m))
          (generation_of a)
          now
        ≡ (if ltb (at + revalidate_ms) now then stale else fresh)
  unfolding entry_freshness
  freshness-store generation_of key a at now m h b =
      rw (peek-store key a at m h b, same_generation (generation_of a)) refl
