-- ===== src/Entities.antt =====
-- hooks/useCatalogEntities.js: the list of the resources of one kind, over the catalog cache. The
-- hook's state holds the cache, which it shares with the rest of the program, and the calls of
-- `reload` that wait for an answer.
pub mod Arrivals
pub mod Commits
pub mod Requests
pub mod Runs
pub mod Renders
pub mod Kept
pub mod Pages
pub mod Shown
pub mod Stale
mod Tests
use klew.Base.{
  ℕ, suc, ◌+◌, ◌*◌, leb, ltb, ◌==◌, Bool, true, false, not, ◌&&◌, ◌||◌, List, [], ◌∷◌, ◌++◌, map,
  Option, none, some, if◌then◌else◌, Str, codes, str_eq, is_empty, join, length, ◌or◌, keep,
}
use klew.Access.{normalize_catalog_access_state}
use klew.Scope.{ApiParams}
use klew.Cache.Catalog.{
  Cache, Stored, Outcome, uncached, fresh_hit, joined, stale_hit, started, Settled, resolved,
  rejected, Answer, answered, failed, peek_catalog_cache_entry, peek_catalog_cache,
  write_catalog_cache, load_catalog_cached, settle_promise, invalidate_catalog_cache,
  entities_ttl_for_scope, content_of,
}
use klew.Cache.Catalog
use klew.Cache.Catalog.Keys.{KeyParts, entities_list_cache_key}

-- What the hook is handed: `clusterScoped` is `kindGroup?.namespaced === false`, `params` are those
-- of the normalized scope.
pub record Props : Type 0 where
  pub enabled : Bool
  pub resource_id : Str
  pub kind : Str
  pub ctx : Str
  pub kubeconfig : Str
  pub params : ApiParams
  pub cluster_scoped : Bool

abbrev pub ns_key : ApiParams → Str
ns_key p =
    if p.all_namespaces
    then codes "*"
    else if leb 1 (length p.namespaces)
    then join (codes ",") p.namespaces
    else p.namespace

unfoldable pub cache_key : Props → Str
unfolding entities_list_cache_key
cache_key p =
    if is_empty p.resource_id || is_empty p.ctx
    then []
    else entities_list_cache_key (record {
      resource_id = some p.resource_id;
      ctx = some p.ctx;
      kubeconfig = some p.kubeconfig;
      ns_key = some (ns_key p.params);
      loadable_key = none;
      cluster_scoped = p.cluster_scoped;
    })

unfoldable pub entity_ttl : Props → ℕ
unfolding entities_ttl_for_scope
entity_ttl p =
    entities_ttl_for_scope
      (record { all_namespaces = p.params.all_namespaces; namespaces = p.params.namespaces })

unfoldable pub watch_mode : ApiParams → Bool
watch_mode p = not p.all_namespaces && leb (length p.namespaces) 1

unfoldable pub scope_ready : ApiParams → Bool → Bool
scope_ready p cluster_scoped =
    cluster_scoped || p.all_namespaces || not (is_empty p.namespace) || ltb 0 (length p.namespaces)

-- `{ entities, accessState, error, updatedAt }`; a missing `updatedAt` is 0
pub record Payload {ℓ} (R : Type ℓ) : Type ℓ where
  pub entities : List R
  pub access_state : Str
  pub error : Str
  pub updated_at : ℕ

-- What the backend lists: entities of its own type `E`.
pub record ListResult {ℓ} (E : Type ℓ) : Type ℓ where
  pub entities : List E
  pub access_state : Str
  pub error : Str

-- where the data of a waiting `reload` comes from
pub data Source {ℓ} (R : Type ℓ) : Type ℓ where
  at_hand : Settled (Payload R) → Source R
  of_promise : ℕ → Source R
  -- a fetch that is not cached, since there is no key
  of_fetch : Source R

-- a call of `reload` behind its `await`
pub record Await {ℓ} (R : Type ℓ) : Type ℓ where
  pub id : ℕ
  pub key : Str
  pub has_cached : Bool
  pub source : Source R

pub record Hook {ℓ} (R : Type ℓ) : Type ℓ where
  pub cache : Cache (Payload R)
  pub props : Props
  pub entities : List R
  pub access_state : Str
  pub error : Str
  pub loading : Bool
  pub refreshing : Bool
  pub updated_at : ℕ
  pub live : Bool
  -- `reqRef.current`
  pub req : ℕ
  pub waiting : List (Await R)
  -- the `watchKey` of the listener, and of the watch that the backend was last told to start
  pub listening : Option Str
  pub watched : Option Str

abbrev pub or_now : ℕ → ℕ → ℕ
or_now at now = if at == 0 then now else at

abbrev pub can_load : Props → Bool
can_load p =
    p.enabled
    && not (is_empty p.resource_id)
    && not (is_empty p.ctx)
    && not (is_empty (cache_key p))
    && scope_ready p.params p.cluster_scoped

-- whether the first effect has a cleanup to run
abbrev pub is_mounted : Props → Bool
is_mounted p = p.enabled && not (is_empty (cache_key p))

module _ {ℓ} {R : Type ℓ} where
  abbrev pub empty_entity_payload : Payload R
  empty_entity_payload = record {
    entities = [];
    access_state = codes "unknown";
    error = [];
    updated_at = 0;
  }

  -- `applyPayload` of the closure with the key
  unfoldable pub apply_payload : ℕ → Str → Payload R → ℕ → Bool → Hook R → Hook R
  apply_payload now key payload at streaming s = record s {
    entities = payload.entities;
    access_state = payload.access_state or codes "unknown";
    error = payload.error;
    updated_at = at;
    live = streaming;
    cache = write_catalog_cache now key (some (record payload { updated_at = at })) s.cache;
  }

  -- the early return of `reload`, and of the first effect
  unfoldable pub show_nothing : ℕ → Hook R → Hook R
  unfolding apply_payload
  show_nothing now s =
      record (apply_payload now (cache_key s.props) empty_entity_payload 0 false s) {
        loading = false;
        refreshing = false;
        live = false;
      }

  abbrev pub source_of : Outcome (Payload R) → Source R
  source_of (uncached p) = of_fetch
  source_of (fresh_hit o) = at_hand (resolved o)
  source_of (joined p from_cache) = of_promise p
  source_of (stale_hit a p) = at_hand (resolved (some a))
  source_of (started p) = of_promise p

  abbrev pub content : Option (Stored (Payload R)) → Option (Payload R)
  content o = content_of o

  abbrev pub at_of : Option (Stored (Payload R)) → ℕ
  at_of none = 0
  at_of (some e) = e.at

  -- `reload` up to the call of `loadCatalogCached`, given the cached entry's data and its time
  abbrev pub show_cached : ℕ → Option (Payload R) → ℕ → Hook R → Hook R
  show_cached now none at s = record s { loading = true }
  show_cached now (some d) at s =
      record (apply_payload now (cache_key s.props) d (or_now at now) false s) {
        loading = false;
        refreshing = true;
      }

  abbrev pub is_some : Option (Payload R) → Bool
  is_some none = false
  is_some (some d) = true

  abbrev pub wait_for : Str → Bool → Cache (Payload R) × Outcome (Payload R) → Hook R → Hook R
  wait_for key has_cached (cache, outcome) s = record s {
    cache = cache;
    waiting =
        record { id = s.req; key = key; has_cached = has_cached; source = source_of outcome }
        ∷ s.waiting;
  }

  -- the rest of `reload`, with what the cache holds
  abbrev pub load_from : ℕ → Bool → Option (Stored (Payload R)) → Hook R → Hook R
  load_from now force entry s =
      let key = cache_key s.props in
      let s1 = show_cached now (content entry) (at_of entry) (record s { req = suc s.req }) in
      wait_for key (is_some (content entry))
        (load_catalog_cached (λ d. true) now key (entity_ttl s.props) force s1.cache) s1

  unfoldable pub reload : ℕ → Bool → Hook R → Hook R
  unfolding show_nothing
  reload now force s =
      if can_load s.props
      then load_from now force (peek_catalog_cache_entry (cache_key s.props) s.cache) s
      else show_nothing now s

  -- `refresh`
  unfoldable pub refresh : ℕ → Hook R → Hook R
  unfolding reload
  refresh now s = reload now true s

  abbrev pub clean_up : Hook R → Hook R
  clean_up s = record s {
    req = if is_mounted s.props then suc s.req else s.req;
    live = elim s.listening [ none ↦ s.live | some k ↦ false ];
    watched = elim s.listening [ none ↦ s.watched | some k ↦ none ];
    listening = none;
  }

  abbrev pub show_first : ℕ → Option (Payload R) → ℕ → Hook R → Hook R
  show_first now none at s =
      record (apply_payload now (cache_key s.props) empty_entity_payload 0 false s) {
        loading = true;
      }
  show_first now (some d) at s = record (apply_payload now (cache_key s.props) d at false s) {
    loading = false;
  }

  abbrev pub list_effect : ℕ → Hook R → Hook R
  list_effect now s =
      if is_mounted s.props
      then (let entry = peek_catalog_cache_entry (cache_key s.props) s.cache in
          reload now false (show_first now (content entry) (at_of entry) s))
      else show_nothing now s

  abbrev pub sync_watch : Bool → Hook R → Hook R
  sync_watch visible s =
      if visible
      then record s { watched = some (cache_key s.props) }
      else record s { watched = none; live = false }

  abbrev pub watch_effect : Bool → Hook R → Hook R
  watch_effect visible s =
      if is_mounted s.props && scope_ready s.props.params s.props.cluster_scoped
      then sync_watch visible (record s { listening = some (cache_key s.props) })
      else s

  -- The effects after a render with other props, the clean-up of the old ones first. Between the
  -- render and its effects the states are those of the old props: see Entities/Renders.
  unfoldable pub run_effects : ℕ → Bool → Props → Hook R → Hook R
  unfolding reload show_nothing
  run_effects now visible p s =
      watch_effect visible (list_effect now (record (clean_up s) { props = p }))

  unfoldable pub on_visibility : Bool → Hook R → Hook R
  on_visibility visible s = elim s.listening [ none ↦ s | some k ↦ sync_watch visible s ]

  abbrev pub first_shown : Option (Payload R) → Payload R
  first_shown none = empty_entity_payload
  first_shown (some d) = d

  -- The first render: the states as they start.
  unfoldable pub first_hook : Cache (Payload R) → Props → Hook R
  first_hook c p =
      let held = peek_catalog_cache (cache_key p) c in
      let initial = first_shown held in
      record {
        cache = c;
        props = p;
        entities = initial.entities;
        access_state = initial.access_state or codes "unknown";
        error = initial.error;
        loading = is_mounted p && not (is_some held);
        refreshing = false;
        updated_at = initial.updated_at;
        live = false;
        req = 0;
        waiting = [];
        listening = none;
        watched = none;
      }
