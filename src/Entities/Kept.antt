-- ===== src/Entities/Kept.antt =====
-- Only the effects of hooks/useCatalogEntities.js change the props that the hook is for.
use klew.Base.{
  suc, ◌==◌, ℕ, ◌≡◌, refl, ◌∙◌, Bool, true, false, List, Option, none, some, Str, if_both, str_eq,
  ◌&&◌,
}
use klew.Cache.Catalog.{Stored, Settled, resolved, rejected, find_request, peek_catalog_cache_entry}
use klew.Entities.{
  Source, at_hand, of_promise, of_fetch, Props, Payload, ListResult, Hook, Await, cache_key,
  can_load, is_mounted, run_effects, refresh, reload, show_nothing, apply_payload, on_visibility,
  sync_watch, show_cached, show_first, load_from, list_effect, watch_effect, clean_up, scope_ready,
  content, at_of,
}
use klew.Entities.Requests.{
  HookEvent, refreshes, settles, resumes, streams, turns_visible, invalidates, hook_step,
  settle_request, settle_listed, key_asked, resumes_at, resume_taken, resume, take_await,
  finish_reload, on_watch_payload, stream_listed, watch_payload,
}

-- The effects set the props, and nothing else does.
module _ {ℓ} {R : Type ℓ} where
  show_nothing-props : (now : ℕ) (s : Hook R) → (show_nothing now s).props ≡ s.props
  unfolding show_nothing apply_payload
  show_nothing-props now s = refl

  show_cached-props :
      (now : ℕ) (o : Option (Payload R)) (at : ℕ) (s : Hook R)
      → (show_cached now o at s).props ≡ s.props
  unfolding apply_payload
  show_cached-props now none at s = refl
  show_cached-props now (some d) at s = refl

  load_from-props :
      (now : ℕ) (force : Bool) (entry : Option (Stored (Payload R))) (s : Hook R)
      → (load_from now force entry s).props ≡ s.props
  load_from-props now force entry s =
      show_cached-props now (content entry) (at_of entry) (record s { req = suc s.req })

  reload-props : (now : ℕ) (force : Bool) (s : Hook R) → (reload now force s).props ≡ s.props
  unfolding reload
  reload-props now force s =
      if_both (λ (r : Hook R). r.props ≡ s.props) (can_load s.props)
        (load_from-props now force (peek_catalog_cache_entry (cache_key s.props) s.cache) s)
        (show_nothing-props now s)

  show_first-props :
      (now : ℕ) (o : Option (Payload R)) (at : ℕ) (s : Hook R)
      → (show_first now o at s).props ≡ s.props
  unfolding apply_payload
  show_first-props now none at s = refl
  show_first-props now (some d) at s = refl

  list_effect-props : (now : ℕ) (s : Hook R) → (list_effect now s).props ≡ s.props
  list_effect-props now s =
      let entry = peek_catalog_cache_entry (cache_key s.props) s.cache in
      if_both (λ (r : Hook R). r.props ≡ s.props) (is_mounted s.props)
        (reload-props now false (show_first now (content entry) (at_of entry) s)
          ∙ show_first-props now (content entry) (at_of entry) s)
        (show_nothing-props now s)

  sync_watch-props : (visible : Bool) (s : Hook R) → (sync_watch visible s).props ≡ s.props
  sync_watch-props true s = refl
  sync_watch-props false s = refl

  watch_effect-props : (visible : Bool) (s : Hook R) → (watch_effect visible s).props ≡ s.props
  watch_effect-props visible s =
      if_both (λ (r : Hook R). r.props ≡ s.props)
        (is_mounted s.props && scope_ready s.props.params s.props.cluster_scoped)
        (sync_watch-props visible (record s { listening = some (cache_key s.props) })) refl

  pub run_effects-props :
      (now : ℕ) (visible : Bool) (p : Props) (s : Hook R) → (run_effects now visible p s).props ≡ p
  unfolding run_effects
  run_effects-props now visible p s =
      watch_effect-props visible (list_effect now (record (clean_up s) { props = p }))
      ∙ list_effect-props now (record (clean_up s) { props = p })

  on_visibility-props : (visible : Bool) (s : Hook R) → (on_visibility visible s).props ≡ s.props
  unfolding on_visibility
  on_visibility-props visible s =
      elim s.listening
        as (λ (o : Option Str).
          (on_visibility visible (record s { listening = o })).props ≡ s.props) [
            | none ↦ refl
            | some k ↦ sync_watch-props visible (record s { listening = some k })
          ]

  finish_reload-props :
      (now : ℕ) (message : Str) (r : Settled (Payload R)) (w : Await R) (s : Hook R)
      → (finish_reload now message r w s).props ≡ s.props
  unfolding apply_payload
  finish_reload-props now message (resolved (some d)) w s = refl
  finish_reload-props now message (resolved none) w s = refl
  finish_reload-props now message rejected w s = refl

  resume-props :
      (now : ℕ) (message : Str) (w : Await R) (o : Source R) (s : Hook R)
      → (resume now message w o s).props ≡ s.props
  resume-props now message w (at_hand r) s =
      if_both (λ (t : Hook R). t.props ≡ s.props) (s.req == w.id)
        (finish_reload-props now message r w s) refl
  resume-props now message w (of_promise p) s = refl
  resume-props now message w of_fetch s = refl

  resume_taken-props :
      (now : ℕ) (message : Str) (o : Option (Await R) × List (Await R)) (s : Hook R)
      → (resume_taken now message o s).props ≡ s.props
  resume_taken-props now message (none, ws) s = refl
  resume_taken-props now message (some w, ws) s =
      resume-props now message w w.source (record s { waiting = ws })

module _ {ℓ κ} {E : Type ℓ} {R : Type κ} (to_row : E → Str → R)
    (listing : Str → ℕ → Option (ListResult E)) where
  settle_listed-props :
      (now p : ℕ) (kind : Str) (o : Option Str) (s : Hook R)
      → (settle_listed to_row listing now p kind o s).props ≡ s.props
  unfolding settle_request
  settle_listed-props now p kind none s = refl
  settle_listed-props now p kind (some k) s = refl

  watch_payload-props :
      (now : ℕ) (watch_key : Str) (r : ListResult E) (updated : ℕ) (streaming : Bool) (k : Str)
      (s : Hook R)
      → (watch_payload to_row now watch_key r updated streaming k s).props ≡ s.props
  unfolding apply_payload
  watch_payload-props now watch_key r updated streaming k s =
      if_both (λ (t : Hook R). t.props ≡ s.props) (str_eq watch_key k) refl refl

  stream_listed-props :
      (now updated : ℕ) (k : Str) (streaming : Bool) (o : Option (ListResult E)) (s : Hook R)
      → (stream_listed to_row now updated k streaming o s).props ≡ s.props
  unfolding on_watch_payload
  stream_listed-props now updated k streaming none s = refl
  stream_listed-props now updated k streaming (some r) s =
      elim s.listening
        as (λ (o : Option Str).
          (on_watch_payload to_row now k r updated streaming (record s { listening = o })).props
          ≡ s.props) [
            | none ↦ refl
            | some j ↦
                watch_payload-props now k r updated streaming j (record s { listening = some j })
          ]

  pub hook_step-props :
      (e : HookEvent) (s : Hook R) → (hook_step to_row listing e s).props ≡ s.props
  unfolding hook_step refresh resumes_at
  hook_step-props (refreshes now) s = reload-props now true s
  hook_step-props (settles now p kind) s =
      settle_listed-props now p kind (key_asked (find_request p s.cache.pending)) s
  hook_step-props (resumes now place message) s =
      resume_taken-props now message (take_await place s.waiting) s
  hook_step-props (streams now updated watch_key streaming) s =
      stream_listed-props now updated watch_key streaming (listing watch_key now) s
  hook_step-props (turns_visible visible) s = on_visibility-props visible s
  hook_step-props (invalidates prefix) s = refl
