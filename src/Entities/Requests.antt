-- ===== src/Entities/Requests.antt =====
-- The events of hooks/useCatalogEntities.js: answers, the stream of the watch, renders.
use klew.Base.{
  ℕ, zero, suc, ◌==◌, Bool, true, false, List, [], ◌∷◌, map, Option, none, some, if◌then◌else◌, Str,
  codes, str_eq,
}
use klew.Access.{normalize_catalog_access_state}
use klew.Cache.Catalog.{
  Cache, Settled, resolved, Request, Answer, answered, failed, settle_promise, find_request,
  invalidate_catalog_cache,
}
use klew.Entities.{
  Payload, ListResult, Source, at_hand, of_promise, of_fetch, Await, Hook, apply_payload, or_now,
  refresh, on_visibility,
}

module _ {ℓ} {R : Type ℓ} where
  -- `reload` behind its `await`, where it is still the last request; `message` is `String(e)`. A
  -- `null` result makes `applyPayload` throw, into the same `catch`.
  abbrev pub finish_reload : ℕ → Str → Settled (Payload R) → Await R → Hook R → Hook R
  finish_reload now message (resolved (some d)) w s =
      record (apply_payload now w.key d now false s) { loading = false; refreshing = false }
  finish_reload now message _ w s = record s {
    error = message;
    entities = if w.has_cached then s.entities else [];
    access_state =
        if w.has_cached
        then s.access_state
        else normalize_catalog_access_state (codes "error") message;
    live = false;
    loading = false;
    refreshing = false;
  }

  -- A call of `reload` goes on, if its data is there.
  abbrev pub resume : ℕ → Str → Await R → Source R → Hook R → Hook R
  resume now message w (at_hand r) s = if s.req == w.id then finish_reload now message r w s else s
  resume now message w _ s = s

  abbrev pub is_ready : Source R → Bool
  is_ready (at_hand r) = true
  is_ready _ = false

  -- The waiting calls without the `i`-th, and that one.
  abbrev pub take_await : ℕ → List (Await R) → Option (Await R) × List (Await R)
  take_await i [] = (none, [])
  take_await zero (w ∷ ws) = if is_ready w.source then (some w, ws) else (none, w ∷ ws)
  take_await (suc i) (w ∷ ws) = let (o, rest) = take_await i ws in (o, w ∷ rest)

  abbrev pub resume_taken : ℕ → Str → Option (Await R) × List (Await R) → Hook R → Hook R
  resume_taken now message (none, ws) s = s
  resume_taken now message (some w, ws) s =
      resume now message w w.source (record s { waiting = ws })

  unfoldable pub resumes_at : ℕ → Str → ℕ → Hook R → Hook R
  unfolding apply_payload normalize_catalog_access_state
  resumes_at now message i s = resume_taken now message (take_await i s.waiting) s

  abbrev pub hand_over : ℕ → Option (Settled (Payload R)) → Await R → Await R
  hand_over p none w = w
  hand_over p (some r) w = elim w.source [
    | at_hand q ↦ w
    | of_promise q ↦ (if q == p then record w { source = at_hand r } else w)
    | of_fetch ↦ w
  ]

  abbrev pub settle_with : ℕ → Cache (Payload R) × Option (Settled (Payload R)) → Hook R → Hook R
  settle_with p (c, r) s = record s { cache = c; waiting = map (hand_over p r) s.waiting }

  abbrev pub key_asked : Option (Request (Payload R)) → Option Str
  key_asked none = none
  key_asked (some r) = some r.key

  -- The event loop settles a promise of the cache.
  unfoldable pub settle_request : ℕ → ℕ → Answer (Payload R) → Hook R → Hook R
  settle_request now p answer s = settle_with p (settle_promise now p answer s.cache) s

module _ {ℓ κ} {E : Type ℓ} {R : Type κ} (to_row : E → Str → R) where
  unfoldable pub map_list_result : ListResult E → Str → Payload R
  map_list_result r kind = record {
    entities = map (λ e. to_row e kind) r.entities;
    access_state = normalize_catalog_access_state r.access_state r.error;
    error = r.error;
    updated_at = 0;
  }

  abbrev pub answer_of : Option (ListResult E) → Str → Answer (Payload R)
  answer_of none kind = failed
  answer_of (some r) kind = answered (some (map_list_result r kind))

  abbrev pub watch_payload : ℕ → Str → ListResult E → ℕ → Bool → Str → Hook R → Hook R
  watch_payload now watch_key r updated streaming k s =
      if str_eq watch_key k
      then record (apply_payload now k (map_list_result r s.props.kind) (or_now updated now)
          streaming s) { loading = false; refreshing = false }
      else s

  -- the handler of `catalog:entities`
  unfoldable pub on_watch_payload : ℕ → Str → ListResult E → ℕ → Bool → Hook R → Hook R
  unfolding apply_payload map_list_result
  on_watch_payload now watch_key r updated streaming s = elim s.listening [
    | none ↦ s
    | some k ↦ watch_payload now watch_key r updated streaming k s
  ]

  abbrev pub stream_listed : ℕ → ℕ → Str → Bool → Option (ListResult E) → Hook R → Hook R
  stream_listed now updated k streaming none s = s
  stream_listed now updated k streaming (some r) s = on_watch_payload now k r updated streaming s

-- What happens to the hook but renders and their effects. `settles` carries the kind of the closure that fetched.
pub data HookEvent : Type 0 where
  refreshes : (now : ℕ) → HookEvent
  settles : (now promise : ℕ) (kind : Str) → HookEvent
  resumes : (now place : ℕ) (message : Str) → HookEvent
  streams : (now updated : ℕ) (watch_key : Str) (streaming : Bool) → HookEvent
  turns_visible : Bool → HookEvent
  invalidates : (prefix : Str) → HookEvent

-- `listing k t` is what the backend lists at the time `t` for the key `k`, `none` for an error.
module _ {ℓ κ} {E : Type ℓ} {R : Type κ} (to_row : E → Str → R)
    (listing : Str → ℕ → Option (ListResult E)) where
  abbrev pub settle_listed : ℕ → ℕ → Str → Option (Str) → Hook R → Hook R
  settle_listed now p kind none s = s
  settle_listed now p kind (some k) s =
      settle_request now p (answer_of to_row (listing k now) kind) s

  unfoldable pub hook_step : HookEvent → Hook R → Hook R
  unfolding settle_request
  hook_step (refreshes now) s = refresh now s
  hook_step (settles now p kind) s =
      settle_listed now p kind (key_asked (find_request p s.cache.pending)) s
  hook_step (resumes now place message) s = resumes_at now message place s
  hook_step (streams now updated watch_key streaming) s =
      stream_listed to_row now updated watch_key streaming (listing watch_key now) s
  hook_step (turns_visible visible) s = on_visibility visible s
  hook_step (invalidates prefix) s = record s { cache = invalidate_catalog_cache prefix s.cache }
