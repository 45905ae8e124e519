-- ===== src/Cache/Changes/Tests.antt =====
-- Tests of the fetches of revisions.
use klew.Base.{
  ℕ, ◌≡◌, refl, List, [], ◌∷◌, none, some, Str, codes, str_eq, has, has_key, lookup, insert, delete,
}
use klew.Cache.Changes.Fetches.{
  Changes, ChangesOp, workload_fetch, pod_fetch, answers, run_changes, clear_changes_cache,
  fetch_workload_changes,
}
use klew.Cache.Changes.Flights.{IsDeduped, run-IsDeduped}

abbrev nothing : Changes ℕ
nothing = record { cache = []; inflight = []; pending = []; issued = 0 }

nothing-IsDeduped : IsDeduped nothing
unfolding has_key has
nothing-IsDeduped = record { single = tt; filed = λ k. refl }

abbrev calls : List (ChangesOp ℕ)
calls =
    workload_fetch (codes "c|Deployment/shop/api")
    ∷ workload_fetch (codes "c|Deployment/shop/api")
    ∷ pod_fetch (codes "c|Pod/shop/api-1")
    ∷ answers 50 0 (some (some 3))
    ∷ workload_fetch (codes "c|Deployment/shop/api")
    ∷ []

test_shared : (run_changes calls nothing).issued ≡ 3
unfolding run_changes lookup insert delete str_eq
test_shared = refl

run-IsDeduped_example : IsDeduped (run_changes calls nothing)
run-IsDeduped_example = run-IsDeduped calls nothing nothing-IsDeduped

abbrev key : Str
key = codes "c|Deployment/shop/api"

-- A fetch that was begun before the cache was cleared takes a later one of its key out of the map
-- when it settles, so that a third is begun beside that.
abbrev overtaken : Changes ℕ
overtaken =
    run_changes (answers 50 0 none ∷ workload_fetch key ∷ [])
      (fetch_workload_changes key (clear_changes_cache (fetch_workload_changes key nothing).0)).0

test_cleared :
    (overtaken.pending ≡ record { promise = 2; key = key } ∷ record { promise = 1; key = key } ∷ [])
unfolding run_changes clear_changes_cache fetch_workload_changes lookup insert delete str_eq
test_cleared = refl
