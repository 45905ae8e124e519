-- ===== src/Cache/Catalog/Owed.antt =====
-- What the calls of lib/catalogCache.js keep and give to those who wait for a key.
use klew.Base.{
  suc, ℕ, ◌≡◌, ◌≢◌, refl, ◌∙◌, Bool, true, false, not, ◌&&◌, List, ◌∷◌, Option, none, some, arith,
  Str, lookup, is_empty, subst, if_both,
}
use klew.Cache.Catalog.{
  Cache, Request, Outcome, uncached, fresh_hit, joined, stale_hit, started, settle, Answer,
  answered, failed, Settled, load_catalog_cached, settle_promise, start_request, on_fulfilled,
  on_rejected, find_request, drop_request, join_or_fetch, settle_found, is_fresh, after_rejection,
  reply, step,
}
use klew.Cache.Catalog.Flights.{
  count-IsLive, IsLive, step-IsLive, start_request-IsLive, find_new, find_self, find_request-drop,
  find_request-lt, write-fields,
}
use klew.Cache.Catalog.Filed.{
  OfOption, OfSettled, OfGiven, IsFiled, IsOwed, lookup-StoreOf, drop_request-PendingOf,
  find_request-PendingOf, write-IsFiled, content-OfOption,
}

module _ {ℓ κ} {A : Type ℓ} (Of : Str → A → Type κ) where
  -- An outcome's data belongs to the key, or is that of a pending request for it.
  pub data IsSourced (rs : List (Request A)) (k : Str) : Outcome A → Type (ℓ ⊔ κ) where
    of_none : (p : ℕ) → IsSourced rs k (uncached p)
    of_entry : (o : Option A) → OfOption Of k o → IsSourced rs k (fresh_hit o)
    of_join : (p : ℕ) (b : Bool) → IsOwed Of rs k p → IsSourced rs k (joined p b)
    of_stale : (a : A) (p : ℕ) → Of k a → IsSourced rs k (stale_hit a p)
    of_start : (p : ℕ) → IsOwed Of rs k p → IsSourced rs k (started p)

  -- What a call keeps and gives: `owed` says that the requests that others wait for are still there.
  pub record IsLoaded (c : Cache A) (k : Str) (r : Cache A × Outcome A) : Type (ℓ ⊔ κ) where
    pub filed : IsFiled Of r.0
    pub sourced : IsSourced r.0.pending k r.1
    pub owed : (j : Str) (p : ℕ) → IsOwed Of c.pending j p → IsOwed Of r.0.pending j p

  still-IsLoaded :
      (k : Str) (c : Cache A) (o : Outcome A)
      → IsFiled Of c
      → IsSourced c.pending k o
      → IsLoaded c k (c, o)
  still-IsLoaded k c o v s = record { filed = v; sourced = s; owed = λ j p w. w }

  -- A fetch without a key is counted, and nothing else of the cache changes.
  unkeyed-IsLoaded :
      (k : Str) (c : Cache A)
      → IsFiled Of c
      → IsLoaded c k (record c { issued = suc c.issued }, uncached c.issued)
  unkeyed-IsLoaded k c v = record {
    filed = record { live = count-IsLive c v.live; stored = v.stored; asked = v.asked };
    sourced = of_none c.issued;
    owed = λ j p w. record { request = w.request; found = w.found; named = w.named };
  }

  start_request-IsLoaded :
      (key : Str) (force : Bool) (stale : Option A) (c : Cache A)
      → OfOption Of key stale
      → IsFiled Of c
      → IsLoaded c key (start_request key stale c, reply force stale c.issued)
  unfolding start_request
  start_request-IsLoaded key force stale c o v = record {
    filed = record {
      live = start_request-IsLive key stale c v.live;
      stored = v.stored;
      asked = (o, v.asked);
    };
    sourced = replied force stale o;
    owed = λ j p w. record {
      request = w.request;
      found = find_new c.issued p key stale c.pending v.live.numbered w.found;
      named = w.named;
    };
  }
    where
      new :
          IsOwed Of
            (record { promise = c.issued; key = key; stale = stale } ∷ c.pending)
            key
            c.issued
      new = record {
        request = record { promise = c.issued; key = key; stale = stale };
        found = find_self c.issued key stale c.pending;
        named = refl;
      }

      replied :
          (f : Bool) (o : Option A)
          → OfOption Of key o
          → IsSourced
              (record { promise = c.issued; key = key; stale = stale } ∷ c.pending)
              key
              (reply f o c.issued)
      replied f none h = of_start c.issued new
      replied true (some a) h = of_start c.issued new
      replied false (some a) h = of_stale a c.issued h

  join_or_fetch-IsLoaded :
      (truthy : A → Bool) (key : Str) (force : Bool) (stale : Option A) (flight : Option ℕ)
      (c : Cache A)
      → lookup key c.inflight ≡ flight
      → OfOption Of key stale
      → IsFiled Of c
      → IsLoaded c key (join_or_fetch truthy key force stale flight c)
  join_or_fetch-IsLoaded truthy key force stale none c e o v =
      start_request-IsLoaded key force stale c o v
  join_or_fetch-IsLoaded truthy key true stale (some p) c e o v =
      start_request-IsLoaded key true stale c o v
  join_or_fetch-IsLoaded truthy key false stale (some p) c e o v =
      let (r, found, named) = v.live.live key p e in
      still-IsLoaded key c _ v (of_join p _ (record { request = r; found = found; named = named }))

  pub load-IsLoaded :
      (truthy : A → Bool) (now : ℕ) (key : Str) (ttl : ℕ) (force : Bool) (c : Cache A)
      → IsFiled Of c
      → IsLoaded c key (load_catalog_cached truthy now key ttl force c)
  unfolding load_catalog_cached
  load-IsLoaded truthy now key ttl force c v =
      let held =
        content-OfOption Of key (lookup key c.store) (lookup-StoreOf Of key c.store v.stored) in
      if_both {A = Cache A × Outcome A} (IsLoaded c key) (is_empty key) (unkeyed-IsLoaded key c v) (
        if_both {A = Cache A × Outcome A} (IsLoaded c key)
          (not force && is_fresh now ttl (lookup key c.store))
          (still-IsLoaded key c _ v (of_entry _ held))
          (join_or_fetch-IsLoaded truthy key force _ (lookup key c.inflight) c refl held v))

  -- What settling the promise `p` keeps and gives to those who wait for it.
  pub record IsSettled (c : Cache A) (p : ℕ) (r : Cache A × Option (Settled A)) : Type (ℓ ⊔ κ) where
    pub filed : IsFiled Of r.0
    pub given : (j : Str) → IsOwed Of c.pending j p → OfGiven Of j r.1
    pub owed : (j : Str) (q : ℕ) → p ≢ q → IsOwed Of c.pending j q → IsOwed Of r.0.pending j q
    pub idle : r.1 ≡ none → r.0 ≡ c

  -- What a request is answered with belongs to its key.
  abbrev pub OfAnswer : List (Request A) → ℕ → Answer A → Type (ℓ ⊔ κ)
  OfAnswer rs p failed = Unit
  OfAnswer rs p (answered content) =
      (r : Request A) → find_request p rs ≡ some r → OfOption Of r.key content

  IsOwed-drop :
      (p q : ℕ) (k : Str) (rs : List (Request A))
      → p ≢ q
      → IsOwed Of rs k q
      → IsOwed Of (drop_request p rs) k q
  IsOwed-drop p q k rs ne w = record {
    request = w.request;
    found = find_request-drop p q rs ne ∙ w.found;
    named = w.named;
  }

  -- The request that was found is the one that was owed.
  IsOwed-key :
      (p : ℕ) (k : Str) (rs : List (Request A)) {r : Request A}
      → find_request p rs ≡ some r
      → IsOwed Of rs k p
      → r.key ≡ k
  IsOwed-key p k rs {r = r} e w = ground (arith, w.found, w.named)

  rejection-OfSettled :
      (k : Str) (o : Option A) → OfOption Of k o → OfSettled Of k (after_rejection o)
  rejection-OfSettled k none h = tt
  rejection-OfSettled k (some a) h = h

  settle_found-IsSettled :
      (now p : ℕ) (a : Answer A) (found : Option (Request A)) (c : Cache A)
      → find_request p c.pending ≡ found
      → OfAnswer c.pending p a
      → IsFiled Of c
      → IsLive (settle_found now a found c).0
      → IsSettled c p (settle_found now a found c)
  unfolding on_fulfilled on_rejected
  settle_found-IsSettled now p a none c e h v live = record {
    filed = v;
    given = λ j w. tt;
    owed = λ j q ne w. w;
    idle = λ n. refl;
  }
  settle_found-IsSettled now p (answered content) (some r) c e h v live =
      let (fl, pe, is) = write-fields now r.key content c in
      let lem = write-IsFiled Of now r.key content c (h r e) v in
      let (lt, here) = find_request-lt c.issued p c.pending v.live.numbered e in
      record {
        filed = record {
          live = live;
          stored = lem.stored;
          asked = drop_request-PendingOf Of r.promise _ lem.asked;
        };
        given = λ j w.
            subst (λ i. OfOption Of i content) (IsOwed-key p j c.pending {r = r} e w) (h r e);
        owed = λ j q ne w. rw (pe, here) (IsOwed-drop p q j c.pending ne w);
        idle = λ n. absurd (ground arith);
      }
  settle_found-IsSettled now p failed (some r) c e h v live =
      let (lt, here) = find_request-lt c.issued p c.pending v.live.numbered e in
      record {
        filed = record {
          live = live;
          stored = v.stored;
          asked = drop_request-PendingOf Of r.promise c.pending v.asked;
        };
        given = λ j w.
            subst (λ i. OfSettled Of i (after_rejection r.stale))
              (IsOwed-key p j c.pending {r = r} e w)
              (rejection-OfSettled r.key r.stale
                (find_request-PendingOf Of p c.pending {r = r} v.asked e));
        owed = λ j q ne w. rw here (IsOwed-drop p q j c.pending ne w);
        idle = λ n. absurd (ground arith);
      }

  pub settle-IsSettled :
      (now p : ℕ) (a : Answer A) (c : Cache A)
      → OfAnswer c.pending p a
      → IsFiled Of c
      → IsSettled c p (settle_promise now p a c)
  unfolding settle_promise step
  settle-IsSettled now p a c h v =
      settle_found-IsSettled now p a (find_request p c.pending) c refl h v
        (step-IsLive (λ d. true) (settle now p a) c v.live)
