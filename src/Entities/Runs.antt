-- ===== src/Entities/Runs.antt =====
-- What happens to hooks/useCatalogEntities.js between the renders: answers and watch events.
use klew.Base.{
  ℕ, ◌≡◌, refl, sym, Bool, true, List, [], ◌∷◌, map, Option, none, some, Str, str_eq, str_eq_iff,
  subst, Bool-cases, inl, inr, arith,
}
use klew.Cache.Catalog.{Cache, Request, find_request, invalidate_catalog_cache}
use klew.Cache.Catalog.Filed.{invalidate-IsFiled}
use klew.Cache.Catalog.Owed.{OfAnswer, settle-IsSettled}
use klew.Entities.{
  Props, Payload, ListResult, Await, Hook, cache_key, refresh, apply_payload, or_now,
}
use klew.Entities.Requests.{
  take_await, resumes_at, settle_request, map_list_result, answer_of, watch_payload,
  on_watch_payload, HookEvent, refreshes, settles, resumes, streams, turns_visible, invalidates,
  settle_listed, stream_listed, key_asked, hook_step,
}
use klew.Entities.Shown.{OfPayload, AllWaiting, IsGood, apply_payload-IsReady}
use klew.Entities.Commits.{reload-IsGood}
use klew.Entities.Arrivals.{
  visibility-IsGood, take_await-IsTaken, resume_taken-IsGood, settle_with-IsGood,
}

module _ {ℓ} {R : Type ℓ} (Of : Str → List R → Type ℓ) (empty : (k : Str) → Of k []) where
  invalidate-pending :
      (prefix : Str) (c : Cache (Payload R))
      → (invalidate_catalog_cache prefix c).pending ≡ c.pending
  unfolding invalidate_catalog_cache
  invalidate-pending [] c = refl
  invalidate-pending (p ∷ prefix) c = refl

  waits-still :
      (req : ℕ) (p : Props) (c c' : Cache (Payload R)) (ws : List (Await R))
      → c'.pending ≡ c.pending
      → AllWaiting Of req p c.pending ws
      → AllWaiting Of req p c'.pending ws
  waits-still req p c c' ws e h = rw e h

  module _ {κ} {E : Type κ} (to_row : E → Str → R) (listing : Str → ℕ → Option (ListResult E))
      (listed : (k : Str) (now : ℕ) (kind : Str) (r : ListResult E)
        → listing k now ≡ some r
        → Of k (map (λ e. to_row e kind) r.entities)) where
    OfAnswer-of :
        (now p : ℕ) (kind k : Str) (rs : List (Request (Payload R))) (o : Option (ListResult E))
        → ((r : Request (Payload R)) → find_request p rs ≡ some r → r.key ≡ k)
        → listing k now ≡ o
        → OfAnswer (OfPayload Of) rs p (answer_of to_row o kind)
    unfolding map_list_result
    OfAnswer-of now p kind k rs none named e = tt
    OfAnswer-of now p kind k rs (some l) named e = λ r found.
        subst (λ j. Of j (map (λ x. to_row x kind) l.entities)) (sym (named r found))
          (listed k now kind l e)

    settle_listed-IsGood :
        (now p : ℕ) (kind : Str) (o : Option (Request (Payload R))) (s : Hook R)
        → find_request p s.cache.pending ≡ o
        → IsGood Of s
        → IsGood Of (settle_listed to_row listing now p kind (key_asked o) s)
    unfolding settle_request
    settle_listed-IsGood now p kind none s e v = v
    settle_listed-IsGood now p kind (some r) s e v =
        let a =
          OfAnswer-of now p kind r.key s.cache.pending (listing r.key now)
            (λ q found. ground (arith, e, found)) refl in
        settle_with-IsGood Of empty p _ s
          (settle-IsSettled (OfPayload Of) now p _ s.cache a v.ready.filed) v

    watch_payload-IsGood :
        (now : ℕ) (watch_key : Str) (r : ListResult E) (updated : ℕ) (streaming : Bool) (k : Str)
        (s : Hook R)
        → listing watch_key now ≡ some r
        → k ≡ cache_key s.props
        → IsGood Of s
        → IsGood Of (watch_payload to_row now watch_key r updated streaming k s)
    unfolding apply_payload map_list_result
    watch_payload-IsGood now watch_key r updated streaming k s e same v =
        elim (Bool-cases (str_eq watch_key k)) [
          | inl mine ↦
              let o : Of k (map (λ x. to_row x s.props.kind) r.entities) =
                subst (λ j. Of j (map (λ x. to_row x s.props.kind) r.entities))
                  ((str_eq_iff watch_key k).0 mine) (listed watch_key now s.props.kind r e) in
              let a =
                apply_payload-IsReady Of now k (map_list_result to_row r s.props.kind)
                  (or_now updated now) streaming s o v.ready in
              rw mine (record {
                ready = record { filed = a.filed; waits = a.waits; heard = a.heard };
                shown = subst (λ j. Of j (map (λ x. to_row x s.props.kind) r.entities)) same o;
              })
          | inr other ↦ rw other v
        ]

    watch_heard-IsGood :
        (now : ℕ) (watch_key : Str) (r : ListResult E) (updated : ℕ) (streaming : Bool)
        (o : Option Str) (s : Hook R)
        → listing watch_key now ≡ some r
        → ((k : Str) → o ≡ some k → k ≡ cache_key s.props)
        → IsGood Of s
        → IsGood Of (elim o as (λ _. Hook R) [
          | none ↦ s
          | some k ↦ watch_payload to_row now watch_key r updated streaming k s
        ])
    watch_heard-IsGood now watch_key r updated streaming none s e h v = v
    watch_heard-IsGood now watch_key r updated streaming (some k) s e h v =
        watch_payload-IsGood now watch_key r updated streaming k s e (h k refl) v

    stream_listed-IsGood :
        (now : ℕ) (watch_key : Str) (updated : ℕ) (streaming : Bool) (o : Option (ListResult E))
        (s : Hook R)
        → listing watch_key now ≡ o
        → IsGood Of s
        → IsGood Of (stream_listed to_row now updated watch_key streaming o s)
    unfolding on_watch_payload
    stream_listed-IsGood now watch_key updated streaming none s e v = v
    stream_listed-IsGood now watch_key updated streaming (some r) s e v =
        watch_heard-IsGood now watch_key r updated streaming s.listening s e v.ready.heard v

    pub hook_step-IsGood :
        (e : HookEvent) (s : Hook R) → IsGood Of s → IsGood Of (hook_step to_row listing e s)
    unfolding hook_step refresh resumes_at
    hook_step-IsGood (refreshes now) s v = reload-IsGood Of empty now true s v
    hook_step-IsGood (settles now p kind) s v =
        settle_listed-IsGood now p kind (find_request p s.cache.pending) s refl v
    hook_step-IsGood (resumes now place message) s v =
        resume_taken-IsGood Of empty now message (take_await place s.waiting) s
          (take_await-IsTaken Of empty place s.req s.props s.cache.pending s.waiting v.ready.waits)
          v
    hook_step-IsGood (streams now updated watch_key streaming) s v =
        stream_listed-IsGood now watch_key updated streaming (listing watch_key now) s refl v
    hook_step-IsGood (turns_visible visible) s v = visibility-IsGood Of empty visible s v
    hook_step-IsGood (invalidates prefix) s v = record {
      ready = record {
        filed = invalidate-IsFiled (OfPayload Of) prefix s.cache v.ready.filed;
        waits =
            waits-still s.req s.props s.cache (invalidate_catalog_cache prefix s.cache) s.waiting
              (invalidate-pending prefix s.cache) v.ready.waits;
        heard = v.ready.heard;
      };
      shown = v.shown;
    }
