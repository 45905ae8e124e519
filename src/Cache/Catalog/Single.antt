-- ===== src/Cache/Catalog/Single.antt =====
-- One request at a time for each key, of lib/catalogCache.js: what calls that neither force a fetch
-- nor invalidate keep true.
use klew.Base.{
  ℕ, ◌≡◌, ◌≢◌, refl, sym, ap, ◌∙◌, Bool, true, false, List, [], ◌∷◌, Option, none, some, inl, inr,
  arith, Str, lookup, delete, is_empty, str_eq_iff, Bool-cases, lookup-delete, lookup-insert, ◌==◌,
  if_both,
}
use klew.Cache.Catalog.{
  Cache, Request, Outcome, Op, load, settle, write, invalidate, Answer, answered, failed,
  load_catalog_cached, settle_promise, start_request, on_fulfilled, on_rejected, find_request,
  drop_request, join_or_fetch, settle_found, is_fresh, step, run,
}
use klew.Cache.Catalog.Flights.{IsLive, find_request-lt, write-fields, step-IsLive}

module _ {ℓ} {A : Type ℓ} where
  -- neither a forced load nor an invalidation
  abbrev pub IsQuiet : Op A → Type 0
  IsQuiet (load now key ttl force) = force ≡ false
  IsQuiet (settle now p a) = Unit {0}
  IsQuiet (write now key content) = Unit {0}
  IsQuiet (invalidate prefix) = ⊥

  abbrev pub All {κ} : (Op A → Type κ) → List (Op A) → Type κ
  All P [] = Unit
  All P (o ∷ os) = P o × All P os

  -- Every pending request is the one that its key is mapped to.
  pub record IsSingle (c : Cache A) : Type ℓ where
    pub live : IsLive c
    pub mapped :
        (p : ℕ) (r : Request A)
        → find_request p c.pending ≡ some r
        → lookup r.key c.inflight ≡ some p

  start-mapped :
      (key : Str) (stale : Option A) (c : Cache A)
      → lookup key c.inflight ≡ none
      → IsSingle c
      → (p : ℕ) (r : Request A) → find_request p (start_request key stale c).pending ≡ some r
      → lookup r.key (start_request key stale c).inflight ≡ some p
  unfolding start_request find_request
  start-mapped key stale c free v p r e = elim (Bool-cases (c.issued == p)) [
    | inl new ↦ ground (arith, lookup-insert key r.key c.issued c.inflight, str_eq_iff key r.key)
    | inr old ↦
        let e' : find_request p c.pending ≡ some r = ground arith in
        ground (
          arith,
          lookup-insert key r.key c.issued c.inflight,
          str_eq_iff key r.key,
          v.mapped p r e',
        )
  ]

  fetch-mapped :
      (truthy : A → Bool) (key : Str) (stale : Option A) (flight : Option ℕ) (c : Cache A)
      → lookup key c.inflight ≡ flight
      → IsSingle c
      → (p : ℕ) (r : Request A)
      → find_request p (join_or_fetch truthy key false stale flight c).0.pending ≡ some r
      → lookup r.key (join_or_fetch truthy key false stale flight c).0.inflight ≡ some p
  fetch-mapped truthy key stale none c e v = start-mapped key stale c e v
  fetch-mapped truthy key stale (some q) c e v = v.mapped

  abbrev Mapped : Cache A → Type ℓ
  Mapped c =
      (p : ℕ) (r : Request A) → find_request p c.pending ≡ some r → lookup r.key c.inflight ≡ some p

  load-Mapped :
      (truthy : A → Bool) (now : ℕ) (key : Str) (ttl : ℕ) (c : Cache A)
      → IsSingle c
      → Mapped (load_catalog_cached truthy now key ttl false c).0
  unfolding load_catalog_cached
  load-Mapped truthy now key ttl c v =
      if_both {A = Cache A × Outcome A} (λ r. Mapped r.0) (is_empty key) v.mapped
        (if_both {A = Cache A × Outcome A} (λ r. Mapped r.0) (is_fresh now ttl (lookup key c.store))
          v.mapped (fetch-mapped truthy key _ (lookup key c.inflight) c refl v))

  find_dropped :
      (p q : ℕ) (rs : List (Request A)) {s : Request A}
      → find_request q (drop_request p rs) ≡ some s
      → (p ≢ q) × (find_request q rs ≡ some s)
  unfolding find_request drop_request
  find_dropped p q [] e = absurd (ground arith)
  find_dropped p q (r ∷ rs) {s = s} e = elim (Bool-cases (r.promise == p)) [
    | inl gone ↦ let (ne, f) = find_dropped p q rs {s = s} (ground arith) in (ne, ground arith)
    | inr kept ↦ elim (Bool-cases (r.promise == q)) [
      | inl this ↦ (ground arith, ground arith)
      | inr other ↦ let (ne, f) = find_dropped p q rs {s = s} (ground arith) in (ne, ground arith)
    ]
  ]

  other_key :
      (r s : Request A) (c : Cache A) (q : ℕ) {p : ℕ}
      → lookup r.key c.inflight ≡ some p
      → r.promise ≡ p
      → r.promise ≢ q
      → lookup s.key c.inflight ≡ some q
      → lookup s.key (delete r.key c.inflight) ≡ some q
  other_key r s c q rp here ne sq =
      ground (arith, lookup-delete r.key s.key c.inflight, str_eq_iff r.key s.key)

  settled-Mapped :
      (p : ℕ) (r : Request A) (c c' : Cache A)
      → find_request p c.pending ≡ some r
      → c'.inflight ≡ delete r.key c.inflight
      → c'.pending ≡ drop_request r.promise c.pending
      → IsSingle c
      → Mapped c'
  settled-Mapped p r c c' found fl pe v = λ q s e.
      let here : r.promise ≡ p = (find_request-lt c.issued p c.pending v.live.numbered found).1 in
      let e' : find_request q (drop_request r.promise c.pending) ≡ some s =
        ap (find_request q) (sym pe) ∙ e in
      ap (lookup s.key) fl
      ∙ other_key r s c q (v.mapped p r found) here (find_dropped r.promise q c.pending e').0
          (v.mapped q s (find_dropped r.promise q c.pending e').1)

  settle_found-Mapped :
      (now p : ℕ) (a : Answer A) (found : Option (Request A)) (c : Cache A)
      → find_request p c.pending ≡ found
      → IsSingle c
      → Mapped (settle_found now a found c).0
  unfolding on_fulfilled on_rejected
  settle_found-Mapped now p a none c e v = v.mapped
  settle_found-Mapped now p (answered content) (some r) c e v =
      let (fl, pe, is) = write-fields now r.key content c in
      settled-Mapped p r c (on_fulfilled now content r c) e (ap (delete r.key) fl)
        (ap (drop_request r.promise) pe) v
  settle_found-Mapped now p failed (some r) c e v =
      settled-Mapped p r c (on_rejected r c) e refl refl v

  step-Mapped :
      (truthy : A → Bool) (o : Op A) (c : Cache A)
      → IsQuiet o
      → IsSingle c
      → Mapped (step truthy o c)
  unfolding step settle_promise
  step-Mapped truthy (load now key ttl true) c h v = absurd (ground arith)
  step-Mapped truthy (load now key ttl false) c h v = load-Mapped truthy now key ttl c v
  step-Mapped truthy (settle now p a) c h v =
      settle_found-Mapped now p a (find_request p c.pending) c refl v
  step-Mapped truthy (write now key content) c h v = λ p r e.
      let (fl, pe, is) = write-fields now key content c in
      ap (lookup r.key) fl ∙ v.mapped p r (ap (find_request p) (sym pe) ∙ e)
  step-Mapped truthy (invalidate prefix) c h v = absurd h

  -- Without forced loads and invalidations, no key ever has two requests under way: every pending
  -- request stays the one that its key is mapped to, so that a later call joins it.
  pub run-IsSingle :
      (truthy : A → Bool) (os : List (Op A)) (c : Cache A)
      → All IsQuiet os
      → IsSingle c
      → IsSingle (run truthy os c)
  unfolding run
  run-IsSingle truthy [] c h v = v
  run-IsSingle truthy (o ∷ os) c (h, hs) v =
      run-IsSingle truthy os (step truthy o c) hs
        (record { live = step-IsLive truthy o c v.live; mapped = step-Mapped truthy o c h v })
