-- ===== src/Entities/Shown.antt =====
-- What hooks/useCatalogEntities.js shows, over any renders, answers and watch events.
use klew.Base.{
  ℕ, suc, ◌<◌, ◌≡◌, Bool, true, false, List, [], ◌∷◌, Option, none, some, Str, if_both, arith,
  is_empty, ◌≤◌,
}
use klew.Cache.Catalog.{
  Cache, Request, Stored, Outcome, uncached, fresh_hit, joined, stale_hit, started,
  peek_catalog_cache_entry,
}
use klew.Cache.Catalog.Filed.{
  OfOption, OfSettled, IsFiled, IsOwed, lookup-StoreOf, content-OfOption, write-IsFiled,
}
use klew.Cache.Catalog.Owed.{of_entry, of_join, of_stale, of_start, IsSourced, IsLoaded}
use klew.Cache.Catalog.Flights.{write-fields}
use klew.Entities.{
  Props, Payload, Source, at_hand, of_promise, of_fetch, Await, Hook, cache_key, is_mounted,
  apply_payload, show_cached, wait_for, source_of, content, clean_up, or_now,
}

-- `Of k rows` says that the rows belong to the key `k`.
module _ {ℓ} {R : Type ℓ} (Of : Str → List R → Type ℓ) where
  abbrev pub OfPayload : Str → Payload R → Type ℓ
  OfPayload k d = Of k d.entities

  abbrev pub OfSource : Str → List (Request (Payload R)) → Source R → Type ℓ
  OfSource k rs (at_hand r) = OfSettled OfPayload k r
  OfSource k rs (of_promise p) = IsOwed OfPayload rs k p
  OfSource k rs of_fetch = Unit

  -- A call waits for data of its key, and is an old one unless that is the key shown.
  pub record IsWaiting (req : ℕ) (p : Props) (rs : List (Request (Payload R))) (w : Await R)
      : Type ℓ where
    pub source : OfSource w.key rs w.source
    pub old : w.id ≤ req
    pub current : w.id ≡ req → (w.key ≡ cache_key p) × (is_mounted p ≡ true)

  abbrev pub AllWaiting : ℕ → Props → List (Request (Payload R)) → List (Await R) → Type ℓ
  AllWaiting req p rs [] = Unit
  AllWaiting req p rs (w ∷ ws) = IsWaiting req p rs w × AllWaiting req p rs ws

  pub record IsReady (s : Hook R) : Type ℓ where
    pub filed : IsFiled OfPayload s.cache
    pub waits : AllWaiting s.req s.props s.cache.pending s.waiting
    pub heard : (k : Str) → s.listening ≡ some k → k ≡ cache_key s.props

  abbrev pub IsShown : Hook R → Type ℓ
  IsShown s = Of (cache_key s.props) s.entities

  pub record IsGood (s : Hook R) : Type ℓ where
    pub ready : IsReady s
    pub shown : IsShown s

  pub OfSource-owed :
      (k : Str) (rs rs' : List (Request (Payload R))) (o : Source R)
      → ((j : Str) (p : ℕ) → IsOwed OfPayload rs j p → IsOwed OfPayload rs' j p)
      → OfSource k rs o
      → OfSource k rs' o
  OfSource-owed k rs rs' (at_hand r) f h = h
  OfSource-owed k rs rs' (of_promise p) f h = f k p h
  OfSource-owed k rs rs' of_fetch f h = tt

  pub AllWaiting-owed :
      (req : ℕ) (p : Props) (rs rs' : List (Request (Payload R))) (ws : List (Await R))
      → ((j : Str) (q : ℕ) → IsOwed OfPayload rs j q → IsOwed OfPayload rs' j q)
      → AllWaiting req p rs ws
      → AllWaiting req p rs' ws
  AllWaiting-owed req p rs rs' [] f h = tt
  AllWaiting-owed req p rs rs' (w ∷ ws) f (h, t) = (
    record {
      source = OfSource-owed w.key rs rs' w.source f h.source;
      old = h.old;
      current = h.current;
    },
    AllWaiting-owed req p rs rs' ws f t,
  )

  -- Calls of an earlier number wait for anything.
  AllWaiting-age :
      (req req' : ℕ) (p p' : Props) (rs : List (Request (Payload R))) (ws : List (Await R))
      → ((is_mounted p ≡ true) → req < req')
      → (req ≤ req')
      → AllWaiting req p rs ws
      → AllWaiting req' p' rs ws
  AllWaiting-age req req' p p' rs [] lt le h = tt
  AllWaiting-age req req' p p' rs (w ∷ ws) lt le (h, t) = (
    record {
      source = h.source;
      old = (let o = h.old in omega arith);
      current = λ e.
          let o = h.old in
          let same : w.id ≡ req = omega arith in
          let more = lt (h.current same).1 in absurd (omega arith);
    },
    AllWaiting-age req req' p p' rs ws lt le t,
  )

  pub clean_up-IsReady :
      (p : Props) (s : Hook R) → IsReady s → IsReady (record (clean_up s) { props = p })
  clean_up-IsReady p s v = record {
    filed = v.filed;
    waits =
        AllWaiting-age s.req _ s.props p s.cache.pending s.waiting (λ m. rw m (omega arith))
          (ground arith) v.waits;
    heard = λ k e. absurd (cc);
  }

  pub apply_payload-IsReady :
      (now : ℕ) (key : Str) (d : Payload R) (at : ℕ) (streaming : Bool) (s : Hook R)
      → Of key d.entities
      → IsReady s
      → IsReady (apply_payload now key d at streaming s)
  unfolding apply_payload
  apply_payload-IsReady now key d at streaming s h v = record {
    filed = write-IsFiled OfPayload now key _ s.cache h v.filed;
    waits = rw ((write-fields now key (some (record d { updated_at = at })) s.cache).1) v.waits;
    heard = v.heard;
  }

  OfSource-of :
      (k : Str) (rs : List (Request (Payload R))) (o : Outcome (Payload R))
      → IsSourced OfPayload rs k o
      → OfSource k rs (source_of o)
  OfSource-of k rs (uncached p) h = tt
  OfSource-of k rs (fresh_hit o) (of_entry _ h) = h
  OfSource-of k rs (joined p b) (of_join _ _ h) = h
  OfSource-of k rs (stale_hit a p) (of_stale _ _ h) = h
  OfSource-of k rs (started p) (of_start _ h) = h

  pub peek-OfOption :
      (k : Str) (c : Cache (Payload R))
      → IsFiled OfPayload c
      → OfOption OfPayload k (content (peek_catalog_cache_entry k c))
  unfolding peek_catalog_cache_entry
  peek-OfOption k c v =
      if_both (λ (o : Option (Stored (Payload R))). OfOption OfPayload k (content o)) (is_empty k)
        tt (content-OfOption OfPayload k _ (lookup-StoreOf OfPayload k c.store v.stored))

  pub show_cached-IsGood :
      (now : ℕ) (o : Option (Payload R)) (at : ℕ) (s : Hook R)
      → OfOption OfPayload (cache_key s.props) o
      → IsGood s
      → IsGood (show_cached now o at s)
  unfolding apply_payload
  show_cached-IsGood now none at s h v = record {
    ready = record { filed = v.ready.filed; waits = v.ready.waits; heard = v.ready.heard };
    shown = v.shown;
  }
  show_cached-IsGood now (some d) at s h v =
      let r = apply_payload-IsReady now (cache_key s.props) d (or_now at now) false s h v.ready in
      record { ready = record { filed = r.filed; waits = r.waits; heard = r.heard }; shown = h }

  load-waits :
      (req : ℕ) (p : Props) (ws : List (Await R)) (key : Str) (has_cached : Bool)
      (c : Cache (Payload R)) (r : Cache (Payload R) × Outcome (Payload R))
      → key ≡ cache_key p
      → is_mounted p ≡ true
      → IsLoaded OfPayload c key r
      → AllWaiting req p c.pending ws
      → AllWaiting req p r.0.pending
          (record { id = req; key = key; has_cached = has_cached; source = source_of r.1 } ∷ ws)
  load-waits req p ws key has_cached c r same m l h = (
    record {
      source = OfSource-of key r.0.pending r.1 l.sourced;
      old = omega arith;
      current = λ e. (same, m);
    },
    AllWaiting-owed req p c.pending r.0.pending ws l.owed h,
  )

  pub wait_for-IsGood :
      (key : Str) (has_cached : Bool) (r : Cache (Payload R) × Outcome (Payload R)) (s : Hook R)
      → key ≡ cache_key s.props
      → is_mounted s.props ≡ true
      → IsLoaded OfPayload s.cache key r
      → IsGood s
      → IsGood (wait_for key has_cached r s)
  wait_for-IsGood key has_cached r s same m l v = record {
    ready = record {
      filed = l.filed;
      waits = load-waits s.req s.props s.waiting key has_cached s.cache r same m l v.ready.waits;
      heard = v.ready.heard;
    };
    shown = v.shown;
  }

  pub next-IsReady : (s : Hook R) → IsReady s → IsReady (record s { req = suc s.req })
  next-IsReady s v = record {
    filed = v.filed;
    waits =
        AllWaiting-age s.req (suc s.req) s.props s.props s.cache.pending s.waiting
          (λ m. omega arith) (omega arith) v.waits;
    heard = v.heard;
  }
