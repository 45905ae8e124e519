-- ===== src/Entities/Tests.antt =====
-- Runs of the list hook on concrete values.
use klew.Base.{
  ℕ, ◌≡◌, ◌⊎◌, inl, inr, refl, true, false, List, [], ◌∷◌, map, Option, none, some, if◌then◌else◌,
  ◌==◌, arith, Str, codes, str_eq, lookup, insert, delete, has_key, join,
}
use klew.Access.{normalize_catalog_access_state}
use klew.Cache.Lru.{store_entry, evict}
use klew.Scope.{ApiParams}
use klew.Cache.Catalog.{
  empty_cache, peek_catalog_cache_entry, peek_catalog_cache, write_catalog_cache,
  load_catalog_cached, start_request, settle_promise, on_fulfilled, on_rejected, find_request,
  drop_request, entities_ttl_for_scope,
}
use klew.Cache.Catalog.Bounds.{empty_cache-IsValid}
use klew.Cache.Catalog.Filed.{empty_cache-IsFiled}
use klew.Cache.Catalog.Keys.{entities_list_cache_key}
use klew.Entities.{
  Props, Payload, ListResult, cache_key, first_hook, run_effects, reload, refresh, apply_payload,
  entity_ttl, scope_ready, show_nothing, on_visibility,
}
use klew.Entities.Requests.{
  refreshes, settles, resumes, streams, resumes_at, settle_request, map_list_result,
  on_watch_payload, hook_step,
}
use klew.Entities.Stale.{run_effects-requests}
use klew.Entities.Renders.{
  PageEvent, renders, runs_effects, happens, page_step, run_page, first_page,
}
use klew.Entities.Pages.{run_page-IsShown}
use klew.Entities.Shown.{IsShown}

abbrev shop : ApiParams
shop = record { namespace = codes "shop"; all_namespaces = false; namespaces = [] }

abbrev pods : Props
pods = record {
  enabled = true;
  resource_id = codes "v1/pods";
  kind = codes "Pod";
  ctx = codes "dev";
  kubeconfig = codes "/kube";
  params = shop;
  cluster_scoped = false;
}

abbrev jobs : Props
jobs = record pods { resource_id = codes "batch/v1/jobs"; kind = codes "Job" }

-- A backend that lists one row for a key, the key, and fails at the time 5.
abbrev listing : Str → ℕ → Option (ListResult Str)
listing k now =
    if now == 5
    then none
    else some (record { entities = k ∷ []; access_state = codes "available"; error = [] })

abbrev row : Str → Str → Str
row e kind = e

abbrev Of : Str → List Str → Type 0
Of k rows = (rows ≡ []) ⊎ (rows ≡ k ∷ [])

listed :
    (k : Str) (now : ℕ) (kind : Str) (r : ListResult Str)
    → listing k now ≡ some r
    → Of k (map (λ e. row e kind) r.entities)
listed k now kind r e = inr (ground (arith, e))

-- a refresh of the pods is answered after the jobs were chosen
abbrev events : List PageEvent
events =
    runs_effects 1 true
    ∷ happens (refreshes 2)
    ∷ renders jobs
    ∷ runs_effects 3 true
    ∷ happens (settles 4 0 (codes "Pod"))
    ∷ happens (resumes 4 1 [])
    ∷ []

program : Unit {0}
unfolding str_eq lookup insert delete has_key join normalize_catalog_access_state store_entry evict
    peek_catalog_cache_entry peek_catalog_cache write_catalog_cache load_catalog_cached
    start_request settle_promise on_fulfilled on_rejected find_request drop_request
    entities_list_cache_key entities_ttl_for_scope cache_key entity_ttl scope_ready apply_payload
    show_nothing reload refresh run_effects on_visibility first_hook resumes_at settle_request
    map_list_result on_watch_payload hook_step page_step run_page first_page
program = tt

shows : List PageEvent → List Str
shows es = (run_page row listing es (first_page empty_cache pods)).hook.entities

late_answer : shows events ≡ []
unfolding shows program
late_answer = refl

watched_rows :
    shows (
      runs_effects 1 true
      ∷ happens (streams 6 0 (cache_key jobs) true)
      ∷ happens (streams 7 0 (cache_key pods) true)
      ∷ [])
    ≡ cache_key pods ∷ []
unfolding shows program
watched_rows = refl

-- Rendered with the jobs, the hook still shows the pods until the effects run.
stale_render :
    (shows (runs_effects 1 true ∷ happens (streams 7 0 (cache_key pods) true) ∷ renders jobs ∷ [])
      ≡ cache_key pods ∷ [])
    × (shows (
          runs_effects 1 true
          ∷ happens (streams 7 0 (cache_key pods) true)
          ∷ renders jobs
          ∷ runs_effects 8 true
          ∷ [])
        ≡ [])
unfolding shows program
stale_render = (refl, refl)

run_page-IsShown_example :
    IsShown Of (run_page row listing events (first_page empty_cache pods)).hook
    × (((run_page row listing events (first_page empty_cache pods)).due ≡ true)
        ⊎ ((run_page row listing events (first_page empty_cache pods)).hook.props
            ≡ (run_page row listing events (first_page empty_cache pods)).rendered))
run_page-IsShown_example =
    run_page-IsShown row listing Of (λ k. inl refl) listed events empty_cache pods
      (empty_cache-IsFiled (λ k (d : Payload Str). Of k d.entities))

run_effects-requests_example :
    ((run_effects 9 true pods (first_hook {R = Str} empty_cache jobs)).cache.issued ≡ 0)
    × ((run_effects 9 true pods (first_hook {R = Str} empty_cache jobs)).cache.pending ≡ [])
unfolding first_hook
run_effects-requests_example =
    run_effects-requests 9 true pods (first_hook empty_cache jobs) empty_cache-IsValid
