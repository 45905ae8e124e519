-- ===== src/Cache/Changes/Fetches.antt =====
-- The two fetches of lib/changesCache.js. The backend's `GetWorkloadChanges` and `GetPodRevision` are
-- promises that the event loop settles.
use klew.Base.{
  ℕ, suc, ◌==◌, List, [], ◌∷◌, ◌++◌, Option, none, some, if◌then◌else◌, Str, codes, Dict, lookup,
  insert, delete,
}
use klew.Cache.Manifest.{Kept}
use klew.Cache.Changes.{store_changes}

-- A promise that is not settled, with the key under which its answer is stored.
pub record Flight : Type 0 where
  pub promise : ℕ
  pub key : Str

pub record Changes {ℓ} (A : Type ℓ) : Type ℓ where
  pub cache : Dict (Kept A)
  pub inflight : Dict ℕ
  pub pending : List Flight
  pub issued : ℕ

abbrev pub find_flight : ℕ → List Flight → Option Flight
find_flight p [] = none
find_flight p (f ∷ fs) = if f.promise == p then some f else find_flight p fs

abbrev pub drop_flight : ℕ → List Flight → List Flight
drop_flight p [] = []
drop_flight p (f ∷ fs) = let rest = drop_flight p fs in if f.promise == p then fs else f ∷ rest

-- Every function also gives the promise that its caller waits for.
module _ {ℓ} {A : Type ℓ} where
  abbrev pub share_or_fly : Str → Option ℕ → Changes A → Changes A × ℕ
  share_or_fly key (some p) m = (m, p)
  share_or_fly key none m = (
    record m {
      inflight = insert key m.issued m.inflight;
      pending = record { promise = m.issued; key = key } ∷ m.pending;
      issued = suc m.issued;
    },
    m.issued,
  )

  unfoldable pub dedupe : Str → Changes A → Changes A × ℕ
  dedupe key m = share_or_fly key (lookup key m.inflight) m

  unfoldable pub fetch_workload_changes : Str → Changes A → Changes A × ℕ
  unfolding dedupe
  fetch_workload_changes key m = dedupe key m

  unfoldable pub fetch_pod_revision : Str → Changes A → Changes A × ℕ
  unfolding dedupe
  fetch_pod_revision key m = dedupe (codes "pod|" ++ key) m

  unfoldable pub clear_changes_cache : Changes A → Changes A
  clear_changes_cache m = record m { cache = []; inflight = [] }

  -- `.then`, where there is an answer, and `.finally`
  abbrev pub land_answer : ℕ → Option (Option A) → Option Flight → Changes A → Changes A
  land_answer now answer none m = m
  land_answer now none (some f) m = record m {
    inflight = delete f.key m.inflight;
    pending = drop_flight f.promise m.pending;
  }
  land_answer now (some content) (some f) m = record m {
    cache = store_changes f.key content now m.cache;
    inflight = delete f.key m.inflight;
    pending = drop_flight f.promise m.pending;
  }

  -- The event loop settles a promise: `none` is a rejection.
  unfoldable pub settle_changes : ℕ → ℕ → Option (Option A) → Changes A → Changes A
  unfolding store_changes
  settle_changes now p answer m = land_answer now answer (find_flight p m.pending) m

-- What the program and its event loop do.
pub data ChangesOp {ℓ} (A : Type ℓ) : Type ℓ where
  workload_fetch : (key : Str) → ChangesOp A
  pod_fetch : (key : Str) → ChangesOp A
  answers : (now promise : ℕ) → Option (Option A) → ChangesOp A

module _ {ℓ} {A : Type ℓ} where
  unfoldable pub changes_step : ChangesOp A → Changes A → Changes A
  unfolding fetch_workload_changes fetch_pod_revision settle_changes
  changes_step (workload_fetch key) m = (fetch_workload_changes key m).0
  changes_step (pod_fetch key) m = (fetch_pod_revision key m).0
  changes_step (answers now p answer) m = settle_changes now p answer m

  -- A run between two clearings.
  unfoldable pub run_changes : List (ChangesOp A) → Changes A → Changes A
  unfolding changes_step
  run_changes [] m = m
  run_changes (o ∷ os) m = run_changes os (changes_step o m)
