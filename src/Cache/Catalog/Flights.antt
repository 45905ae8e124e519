-- ===== src/Cache/Catalog/Flights.antt =====
-- The map of requests under way, of lib/catalogCache.js: which promise stands for which key.
use klew.Base.{
  ℕ, suc, ◌<◌, ◌≡◌, ◌≢◌, refl, sym, ap, ◌∙◌, Bool, true, false, not, ◌&&◌, List, [], ◌∷◌, Option,
  none, some, inl, inr, arith, Str, Dict, lookup, delete, keep_keys, is_empty, str_eq, str_eq_iff,
  Bool-cases, lookup-delete, lookup-insert, lookup-keep_keys, ◌==◌, if_both,
}
use klew.Cache.Catalog.{
  Cache, Request, Outcome, Op, load, settle, write, invalidate, Answer, answered, failed,
  write_catalog_cache, invalidate_catalog_cache, load_catalog_cached, settle_promise, start_request,
  on_fulfilled, on_rejected, find_request, drop_request, join_or_fetch, settle_found, is_fresh,
  step, run, empty_cache,
}

lookup_kept :
    (test : Str → Bool) (k : Str) (m : Dict ℕ) {q : ℕ}
    → lookup k (keep_keys test m) ≡ some q
    → lookup k m ≡ some q
lookup_kept test k m e = ground (arith, lookup-keep_keys test k m)

module _ {ℓ} {A : Type ℓ} where
  -- Promises are numbered in the order in which they were made.
  abbrev pub Numbered : ℕ → List (Request A) → Type ℓ
  Numbered n [] = Unit
  Numbered n (r ∷ rs) = (r.promise < n) × Numbered n rs

  -- The promise that a key is mapped to is pending, and is a request for that key.
  pub record IsLive (c : Cache A) : Type ℓ where
    pub numbered : Numbered c.issued c.pending
    pub live :
        (k : Str) (p : ℕ)
        → lookup k c.inflight ≡ some p
        → (r : Request A) × (find_request p c.pending ≡ some r) × (r.key ≡ k)

  pub Numbered-suc : (n : ℕ) (rs : List (Request A)) → Numbered n rs → Numbered (suc n) rs
  Numbered-suc n [] h = tt
  Numbered-suc n (r ∷ rs) (h, t) = (omega arith, Numbered-suc n rs t)

  Numbered-drop : (n p : ℕ) (rs : List (Request A)) → Numbered n rs → Numbered n (drop_request p rs)
  unfolding drop_request
  Numbered-drop n p [] h = tt
  Numbered-drop n p (r ∷ rs) (h, t) =
      if_both (Numbered n) (r.promise == p) (Numbered-drop n p rs t) (h, Numbered-drop n p rs t)

  pub find_request-lt :
      (n p : ℕ) (rs : List (Request A)) {r : Request A}
      → Numbered n rs
      → find_request p rs ≡ some r
      → (p < n) × (r.promise ≡ p)
  unfolding find_request
  find_request-lt n p [] h e = absurd (ground arith)
  find_request-lt n p (s ∷ rs) {r = r} (h, t) e = elim (Bool-cases (s.promise == p)) [
    | inl here ↦ ground arith
    | inr there ↦ find_request-lt n p rs {r = r} t (ground arith)
  ]

  pub find_request-drop :
      (p q : ℕ) (rs : List (Request A))
      → p ≢ q
      → find_request q (drop_request p rs) ≡ find_request q rs
  unfolding find_request drop_request
  find_request-drop p q [] ne = refl
  find_request-drop p q (r ∷ rs) ne = ground (arith, find_request-drop p q rs ne)

  pub find_new :
      (n p : ℕ) (key : Str) (stale : Option A) (rs : List (Request A)) {r : Request A}
      → Numbered n rs
      → find_request p rs ≡ some r
      → find_request p (record { promise = n; key = key; stale = stale } ∷ rs) ≡ some r
  unfolding find_request
  find_new n p key stale rs h e = ground (arith, find_request-lt n p rs h e)

  pub find_self :
      (n : ℕ) (key : Str) (stale : Option A) (rs : List (Request A))
      → find_request n (record { promise = n; key = key; stale = stale } ∷ rs)
        ≡ some (record { promise = n; key = key; stale = stale })
  unfolding find_request
  find_self n key stale rs = ground arith

  pub start_request-IsLive :
      (key : Str) (stale : Option A) (c : Cache A) → IsLive c → IsLive (start_request key stale c)
  unfolding start_request
  start_request-IsLive key stale c v = record {
    numbered = (omega arith, Numbered-suc c.issued c.pending v.numbered);
    live = λ k p e. elim (Bool-cases (str_eq key k)) [
      | inl same ↦
          let e' : c.issued ≡ p = ground (arith, lookup-insert key k c.issued c.inflight) in
          rw (← e') (_, find_self c.issued key stale c.pending, (str_eq_iff key k).0 same)
      | inr other ↦
          let (r, found, named) =
            v.live k p (ground (arith, lookup-insert key k c.issued c.inflight)) in
          (r, find_new c.issued p key stale c.pending v.numbered found, named)
    ];
  }

  -- `p` settles: its key and its request go.
  settled-IsLive :
      (p : ℕ) (r : Request A) (c c' : Cache A)
      → find_request p c.pending ≡ some r
      → c'.inflight ≡ delete r.key c.inflight
      → c'.pending ≡ drop_request r.promise c.pending
      → c'.issued ≡ c.issued
      → IsLive c
      → IsLive c'
  settled-IsLive p r c c' found fl pe is v = record {
    numbered = rw (pe, is) (Numbered-drop c.issued r.promise c.pending v.numbered);
    live = λ k q e.
        let e' : lookup k (delete r.key c.inflight) ≡ some q = ap (lookup k) (sym fl) ∙ e in
        let old : lookup k c.inflight ≡ some q = ground (arith, lookup-delete r.key k c.inflight) in
        let (s, got, named) = v.live k q old in
        let here : r.promise ≡ p = (find_request-lt c.issued p c.pending v.numbered found).1 in
        let ne : r.promise ≢ q = λ same.
          let found' : find_request q c.pending ≡ some r =
            ap (λ i. find_request i c.pending) (sym same ∙ here) ∙ found in
          ground (arith, str_eq_iff r.key k, lookup-delete r.key k c.inflight, got, named) in
        (s, ap (find_request q) pe ∙ find_request-drop r.promise q c.pending ne ∙ got, named);
  }

  -- Entries of the map may go, and nothing else changes.
  fewer-IsLive :
      (c c' : Cache A)
      → ((k : Str) (q : ℕ) → lookup k c'.inflight ≡ some q → lookup k c.inflight ≡ some q)
      → c'.pending ≡ c.pending
      → c'.issued ≡ c.issued
      → IsLive c
      → IsLive c'
  fewer-IsLive c c' sub pe is v = record {
    numbered = rw (pe, is) v.numbered;
    live = λ k q e. rw pe (v.live k q (sub k q e));
  }

  join_or_fetch-IsLive :
      (truthy : A → Bool) (key : Str) (force : Bool) (stale : Option A) (flight : Option ℕ)
      (c : Cache A)
      → IsLive c
      → IsLive (join_or_fetch truthy key force stale flight c).0
  join_or_fetch-IsLive truthy key force stale none c v = start_request-IsLive key stale c v
  join_or_fetch-IsLive truthy key true stale (some p) c v = start_request-IsLive key stale c v
  join_or_fetch-IsLive truthy key false stale (some p) c v = v

  -- A fetch without a key is counted only.
  pub count-IsLive : (c : Cache A) → IsLive c → IsLive (record c { issued = suc c.issued })
  count-IsLive c v = record { numbered = Numbered-suc c.issued c.pending v.numbered; live = v.live }

  load-IsLive :
      (truthy : A → Bool) (now : ℕ) (key : Str) (ttl : ℕ) (force : Bool) (c : Cache A)
      → IsLive c
      → IsLive (load_catalog_cached truthy now key ttl force c).0
  unfolding load_catalog_cached
  load-IsLive truthy now key ttl force c v =
      if_both {A = Cache A × Outcome A} (λ r. IsLive r.0) (is_empty key) (count-IsLive c v)
        (if_both {A = Cache A × Outcome A} (λ r. IsLive r.0)
          (not force && is_fresh now ttl (lookup key c.store)) v
          (join_or_fetch-IsLive truthy key force _ (lookup key c.inflight) c v))

  pub write-fields :
      (now : ℕ) (key : Str) (content : Option A) (c : Cache A)
      → ((write_catalog_cache now key content c).inflight ≡ c.inflight)
        × ((write_catalog_cache now key content c).pending ≡ c.pending)
        × ((write_catalog_cache now key content c).issued ≡ c.issued)
  unfolding write_catalog_cache
  write-fields now [] content c = (refl, refl, refl)
  write-fields now (k ∷ key) content c = (refl, refl, refl)

  write-IsLive :
      (now : ℕ) (key : Str) (content : Option A) (c : Cache A)
      → IsLive c
      → IsLive (write_catalog_cache now key content c)
  write-IsLive now key content c v =
      let (fl, pe, is) = write-fields now key content c in
      fewer-IsLive c (write_catalog_cache now key content c) (λ k q e. ap (lookup k) (sym fl) ∙ e)
        pe is v

  settle_found-IsLive :
      (now p : ℕ) (a : Answer A) (found : Option (Request A)) (c : Cache A)
      → find_request p c.pending ≡ found
      → IsLive c
      → IsLive (settle_found now a found c).0
  unfolding on_fulfilled on_rejected
  settle_found-IsLive now p a none c e v = v
  settle_found-IsLive now p (answered content) (some r) c e v =
      let (fl, pe, is) = write-fields now r.key content c in
      settled-IsLive p r c _ e (ap (delete r.key) fl) (ap (drop_request r.promise) pe) is v
  settle_found-IsLive now p failed (some r) c e v = settled-IsLive p r c _ e refl refl refl v

  invalidate-IsLive :
      (prefix : Str) (c : Cache A) → IsLive c → IsLive (invalidate_catalog_cache prefix c)
  unfolding invalidate_catalog_cache lookup
  invalidate-IsLive [] c v = fewer-IsLive c _ (λ k q e. absurd (ground arith)) refl refl v
  invalidate-IsLive (p ∷ prefix) c v =
      fewer-IsLive c _ (λ k q e. lookup_kept _ k c.inflight e) refl refl v

  pub step-IsLive :
      (truthy : A → Bool) (o : Op A) (c : Cache A) → IsLive c → IsLive (step truthy o c)
  unfolding step settle_promise
  step-IsLive truthy (load now key ttl force) c v = load-IsLive truthy now key ttl force c v
  step-IsLive truthy (settle now p a) c v =
      settle_found-IsLive now p a (find_request p c.pending) c refl v
  step-IsLive truthy (write now key content) c v = write-IsLive now key content c v
  step-IsLive truthy (invalidate prefix) c v = invalidate-IsLive prefix c v

  -- After any calls, forced ones and invalidations among them, a call that joins the request of its
  -- key joins one that is pending and was made for that key: no key stays mapped to a promise that
  -- has settled.
  pub run-IsLive :
      (truthy : A → Bool) (os : List (Op A)) (c : Cache A) → IsLive c → IsLive (run truthy os c)
  unfolding run
  run-IsLive truthy [] c v = v
  run-IsLive truthy (o ∷ os) c v = run-IsLive truthy os (step truthy o c) (step-IsLive truthy o c v)

  pub empty_cache-IsLive : IsLive empty_cache
  unfolding lookup
  empty_cache-IsLive = record { numbered = tt; live = λ k p e. absurd (ground arith) }
