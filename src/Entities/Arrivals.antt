-- ===== src/Entities/Arrivals.antt =====
-- What reaches hooks/useCatalogEntities.js later: answers, and the stream of the watch.
use klew.Base.{
  ℕ, zero, suc, ◌≡◌, refl, Bool, true, false, List, [], ◌∷◌, map, Option, none, some, Str, subst,
  if_both, Bool-cases, inl, inr, arith, ◌==◌,
}
use klew.Cache.Catalog.{Cache, Request, Settled, resolved, rejected}
use klew.Cache.Catalog.Filed.{OfSettled, IsOwed}
use klew.Cache.Catalog.Owed.{IsSettled}
use klew.Entities.{
  Props, Payload, Source, at_hand, of_promise, of_fetch, Await, Hook, cache_key, is_mounted,
  apply_payload, sync_watch, on_visibility,
}
use klew.Entities.Requests.{
  finish_reload, resume, is_ready, take_await, resume_taken, hand_over, settle_with,
}
use klew.Entities.Shown.{OfPayload, OfSource, IsWaiting, AllWaiting, IsGood, apply_payload-IsReady}
use klew.Entities.Commits.{sync_watch-IsGood}

module _ {ℓ} {R : Type ℓ} (Of : Str → List R → Type ℓ) (empty : (k : Str) → Of k []) where
  pub visibility-IsGood :
      (visible : Bool) (s : Hook R) → IsGood Of s → IsGood Of (on_visibility visible s)
  unfolding on_visibility
  visibility-IsGood visible s v = heard_or (s.listening)
    where
      heard_or :
          (o : Option Str)
          → IsGood Of (elim o as (λ _. Hook R) [ none ↦ s | some k ↦ sync_watch visible s ])
      heard_or none = v
      heard_or (some k) = sync_watch-IsGood Of empty visible s v

  -- Behind its `await`, the last call shows what it waited for, and that is for the key shown.
  finish-IsGood :
      (now : ℕ) (message : Str) (r : Settled (Payload R)) (w : Await R) (s : Hook R)
      → OfSettled (OfPayload Of) w.key r
      → w.key ≡ cache_key s.props
      → IsGood Of s
      → IsGood Of (finish_reload now message r w s)
  unfolding apply_payload
  finish-IsGood now message (resolved (some d)) w s h same v =
      let o : Of (cache_key s.props) d.entities = subst (λ k. Of k d.entities) same h in
      let r = apply_payload-IsReady Of now w.key d now false s h v.ready in
      record { ready = record { filed = r.filed; waits = r.waits; heard = r.heard }; shown = o }
  finish-IsGood now message (resolved none) w s h same v = record {
    ready = record { filed = v.ready.filed; waits = v.ready.waits; heard = v.ready.heard };
    shown = if_both (Of (cache_key s.props)) w.has_cached v.shown (empty (cache_key s.props));
  }
  finish-IsGood now message rejected w s h same v = record {
    ready = record { filed = v.ready.filed; waits = v.ready.waits; heard = v.ready.heard };
    shown = if_both (Of (cache_key s.props)) w.has_cached v.shown (empty (cache_key s.props));
  }

  resume-IsGood :
      (now : ℕ) (message : Str) (w : Await R) (o : Source R) (s : Hook R)
      → OfSource Of w.key s.cache.pending o
      → (w.id ≡ s.req → (w.key ≡ cache_key s.props) × (is_mounted s.props ≡ true))
      → IsGood Of s
      → IsGood Of (resume now message w o s)
  resume-IsGood now message w (at_hand r) s h c v = elim (Bool-cases (s.req == w.id)) [
    | inl last ↦ rw last (finish-IsGood now message r w s h (c (ground arith)).0 v)
    | inr other ↦ rw other v
  ]
  resume-IsGood now message w (of_promise p) s h c v = v
  resume-IsGood now message w of_fetch s h c v = v

  abbrev IsTaken :
      ℕ → Props → List (Request (Payload R)) → Option (Await R) × List (Await R) → Type ℓ
  IsTaken req p rs (none, ws) = AllWaiting Of req p rs ws
  IsTaken req p rs (some w, ws) = IsWaiting Of req p rs w × AllWaiting Of req p rs ws

  IsTaken-cons :
      (req : ℕ) (p : Props) (rs : List (Request (Payload R))) (w : Await R)
      (r : Option (Await R) × List (Await R))
      → IsWaiting Of req p rs w
      → IsTaken req p rs r
      → IsTaken req p rs (r.0, w ∷ r.1)
  IsTaken-cons req p rs w (none, ws) h t = (h, t)
  IsTaken-cons req p rs w (some v, ws) h (i, t) = (i, (h, t))

  pub take_await-IsTaken :
      (i req : ℕ) (p : Props) (rs : List (Request (Payload R))) (ws : List (Await R))
      → AllWaiting Of req p rs ws
      → IsTaken req p rs (take_await i ws)
  take_await-IsTaken i req p rs [] h = tt
  take_await-IsTaken zero req p rs (w ∷ ws) h = if_both (IsTaken req p rs) (is_ready w.source) h h
  take_await-IsTaken (suc i) req p rs (w ∷ ws) (h, t) =
      IsTaken-cons req p rs w (take_await i ws) h (take_await-IsTaken i req p rs ws t)

  pub resume_taken-IsGood :
      (now : ℕ) (message : Str) (r : Option (Await R) × List (Await R)) (s : Hook R)
      → IsTaken s.req s.props s.cache.pending r
      → IsGood Of s
      → IsGood Of (resume_taken now message r s)
  resume_taken-IsGood now message (none, ws) s h v = v
  resume_taken-IsGood now message (some w, ws) s (h, t) v =
      resume-IsGood now message w w.source (record s { waiting = ws }) h.source h.current
        (record {
          ready = record { filed = v.ready.filed; waits = t; heard = v.ready.heard };
          shown = v.shown;
        })

  -- A call that waits for the promise `p` is given its data; the others wait on.
  hand_over-IsWaiting :
      (req : ℕ) (ps : Props) (p : ℕ) (c : Cache (Payload R)) (w : Await R)
      (r : Cache (Payload R) × Option (Settled (Payload R)))
      → IsSettled (OfPayload Of) c p r
      → IsWaiting Of req ps c.pending w
      → IsWaiting Of req ps r.0.pending (hand_over p r.1 w)
  hand_over-IsWaiting req ps p c w (c', none) v h = rw (v.idle refl) h
  hand_over-IsWaiting req ps p c w (c', some r) v h = handed w.source h.source
    where
      given :
          (o : Source R)
          → OfSource Of w.key c'.pending o
          → IsWaiting Of req ps c'.pending (record w { source = o })
      given o g = record { source = g; old = h.old; current = h.current }

      handed :
          (o : Source R)
          → OfSource Of w.key c.pending o
          → IsWaiting Of req ps c'.pending (hand_over p (some r) (record w { source = o }))
      handed (at_hand q) g = given (at_hand q) g
      handed of_fetch g = given of_fetch g
      handed (of_promise q) g = elim (Bool-cases (q == p)) [
        | inl here ↦ rw here (
            given (at_hand r) (
              v.given w.key
                (subst (IsOwed (OfPayload Of) c.pending w.key) {x = q} {y = p} (ground arith) g)))
        | inr there ↦ rw there (given (of_promise q) (v.owed w.key q (ground arith) g))
      ]

  hand_over-waits :
      (req : ℕ) (ps : Props) (p : ℕ) (c : Cache (Payload R)) (ws : List (Await R))
      (r : Cache (Payload R) × Option (Settled (Payload R)))
      → IsSettled (OfPayload Of) c p r
      → AllWaiting Of req ps c.pending ws
      → AllWaiting Of req ps r.0.pending (map (hand_over p r.1) ws)
  hand_over-waits req ps p c [] r v h = tt
  hand_over-waits req ps p c (w ∷ ws) r v (h, t) =
      (hand_over-IsWaiting req ps p c w r v h, hand_over-waits req ps p c ws r v t)

  pub settle_with-IsGood :
      (p : ℕ) (r : Cache (Payload R) × Option (Settled (Payload R))) (s : Hook R)
      → IsSettled (OfPayload Of) s.cache p r
      → IsGood Of s
      → IsGood Of (settle_with p r s)
  settle_with-IsGood p r s h v = record {
    ready = record {
      filed = h.filed;
      waits = hand_over-waits s.req s.props p s.cache s.waiting r h v.ready.waits;
      heard = v.ready.heard;
    };
    shown = v.shown;
  }
  -- The rows that the backend lists for a key belong to it.
