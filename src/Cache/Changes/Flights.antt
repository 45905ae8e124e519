-- ===== src/Cache/Changes/Flights.antt =====
-- The fetches of lib/changesCache.js that are under way.
use klew.Base.{
  ℕ, ◌==◌, ◌≡◌, refl, sym, ap, ◌∙◌, Bool, true, false, not, ◌&&◌, ◌||◌, List, [], ◌∷◌, ◌++◌, map,
  Option, none, some, Str, codes, str_eq, str_eq_iff, str_eq_self, has, Unique, Dict, lookup,
  delete, has_key, has_key-insert, has_key-delete, has_key_of_none, Bool-cases, inl, inr, ◌⊎◌,
  ==_iff, subst, ◌or_else◌, arith,
}
use klew.Cache.Manifest.{Kept}
use klew.Cache.Changes.{store_changes}
use klew.Cache.Changes.Fetches.{
  Flight, Changes, find_flight, drop_flight, share_or_fly, dedupe, fetch_workload_changes,
  fetch_pod_revision, land_answer, settle_changes, ChangesOp, workload_fetch, pod_fetch, answers,
  changes_step, run_changes,
}

abbrev pub flight_keys : List Flight → List Str
flight_keys fs = map (λ (f : Flight). f.key) fs

-- Of one key there is one fetch under way at most, and it is the one in the map.
pub record IsDeduped {ℓ} {A : Type ℓ} (m : Changes A) : Type ℓ where
  pub single : Unique (flight_keys m.pending)
  pub filed : (k : Str) → has_key k m.inflight ≡ has (flight_keys m.pending) k

has_other :
    (x k : Str) (ks : List Str)
    → has ks x ≡ false
    → has ks k ≡ ((str_eq x k || has ks k) && not (str_eq x k))
has_other x k ks h = elim (Bool-cases (str_eq x k)) [
  | inl same ↦ rw same (sym (ap (has ks) ((str_eq_iff x k).0 same)) ∙ h)
  | inr differ ↦ rw differ (ground arith)
]

differs_of_has :
    (x y k : Str) (ks : List Str)
    → has ks x ≡ false
    → has ks y ≡ true
    → str_eq x k ≡ true
    → str_eq y k ≡ false
differs_of_has x y k ks h there e = elim (Bool-cases (str_eq y k)) [
  | inl same ↦
      let x_is_y : x ≡ y = (str_eq_iff x k).0 e ∙ sym ((str_eq_iff y k).0 same) in
      absurd (false_not_true (sym h ∙ ap (has ks) x_is_y ∙ there))
  | inr differ ↦ differ
]
  where
    false_not_true : false ≡ true → ⊥
    false_not_true e = ground arith

-- A promise that is found first, or later.
find_flight-cases :
    (p : ℕ) (g : Flight) (gs : List Flight) (f : Flight)
    → find_flight p (g ∷ gs) ≡ some f
    → ((g.promise == p) ≡ true) × (g ≡ f) ⊎ ((g.promise == p) ≡ false) × (find_flight p gs ≡ some f)
find_flight-cases p g gs f e = elim (Bool-cases (g.promise == p)) [
  | inl here ↦ inl (here, ap (λ (o : Option Flight). o or_else g) (rw here at e))
  | inr there ↦ inr (there, (rw there at e))
]

has-find_flight :
    (p : ℕ) (fs : List Flight) (f : Flight)
    → find_flight p fs ≡ some f
    → has (flight_keys fs) f.key ≡ true
unfolding has
has-find_flight p [] f e = absurd (ground arith)
has-find_flight p (g ∷ gs) f e = elim (find_flight-cases p g gs f e) [
  | inl (here, same) ↦
      subst (λ (x : Flight). has (flight_keys (g ∷ gs)) x.key ≡ true) same
        (rw (str_eq_self g.key) refl)
  | inr (there, later) ↦ ground (arith, has-find_flight p gs f later)
]

promise-find_flight :
    (p : ℕ) (fs : List Flight) (f : Flight) → find_flight p fs ≡ some f → f.promise ≡ p
promise-find_flight p [] f e = absurd (ground arith)
promise-find_flight p (g ∷ gs) f e = elim (find_flight-cases p g gs f e) [
  | inl (here, same) ↦ sym (ap (λ (x : Flight). x.promise) same) ∙ (==_iff g.promise p).0 here
  | inr (there, later) ↦ promise-find_flight p gs f later
]

-- What is left when a promise that was found is dropped.
has-drop_flight :
    (p : ℕ) (fs : List Flight) (f : Flight) (k : Str)
    → find_flight p fs ≡ some f
    → Unique (flight_keys fs)
    → has (flight_keys (drop_flight p fs)) k ≡ (has (flight_keys fs) k && not (str_eq f.key k))
unfolding has
has-drop_flight p [] f k e u = absurd (ground arith)
has-drop_flight p (g ∷ gs) f k e u = elim (find_flight-cases p g gs f e) [
  | inl (here, same) ↦ rw here (
      subst
        (λ (x : Flight).
          has (flight_keys gs) k
          ≡ ((str_eq g.key k || has (flight_keys gs) k) && not (str_eq x.key k)))
        same (has_other g.key k (flight_keys gs) u.0))
  | inr (there, later) ↦ rw there (
      ground (
        arith,
        has-drop_flight p gs f k later,
        differs_of_has g.key f.key k (flight_keys gs) u.0 (has-find_flight p gs f later),
      ))
]

has-drop_flight-le :
    (p : ℕ) (fs : List Flight) (k : Str)
    → has (flight_keys fs) k ≡ false
    → has (flight_keys (drop_flight p fs)) k ≡ false
unfolding has
has-drop_flight-le p [] k h = h
has-drop_flight-le p (g ∷ gs) k h = elim (Bool-cases (g.promise == p)) [
  | inl here ↦ rw here (ground arith)
  | inr there ↦ rw there (ground (arith, has-drop_flight-le p gs k))
]

drop_flight-Unique :
    (p : ℕ) (fs : List Flight) → Unique (flight_keys fs) → Unique (flight_keys (drop_flight p fs))
drop_flight-Unique p [] u = u
drop_flight-Unique p (g ∷ gs) u = elim (Bool-cases (g.promise == p)) [
  | inl here ↦ rw here u.1
  | inr there ↦ rw there (has-drop_flight-le p gs g.key u.0, drop_flight-Unique p gs u.1)
]

module _ {ℓ} {A : Type ℓ} where
  share_or_fly-IsDeduped :
      (key : Str) (o : Option ℕ) (m : Changes A)
      → lookup key m.inflight ≡ o
      → IsDeduped m
      → IsDeduped (share_or_fly key o m).0
  unfolding has
  share_or_fly-IsDeduped key (some p) m e v = v
  share_or_fly-IsDeduped key none m e v = record {
    single = (sym (v.filed key) ∙ has_key_of_none key m.inflight e, v.single);
    filed = λ k. has_key-insert key k m.issued m.inflight ∙ ap (λ b. str_eq key k || b) (v.filed k);
  }

  -- A flight that was found is dropped from the list and the map.
  landed :
      (p : ℕ) (f : Flight) (cache : Dict (Kept A)) (m : Changes A)
      → find_flight p m.pending ≡ some f
      → IsDeduped m
      → IsDeduped {A = A} (record m {
        cache = cache;
        inflight = delete f.key m.inflight;
        pending = drop_flight f.promise m.pending;
      })
  landed p f cache m e v =
      let same = promise-find_flight p m.pending f e in
      record {
        single = drop_flight-Unique f.promise m.pending v.single;
        filed = λ k.
            has_key-delete f.key k m.inflight
            ∙ rw (v.filed k) (and_comm (not (str_eq f.key k)) (has (flight_keys m.pending) k))
            ∙ sym (
                has-drop_flight f.promise m.pending f k
                  (subst (λ q. find_flight q m.pending ≡ some f) (sym same) e) v.single);
      }
    where
      and_comm : (a b : Bool) → (a && b) ≡ (b && a)
      and_comm a b = ground arith

  settle_changes-IsDeduped :
      (now p : ℕ) (answer : Option (Option A)) (m : Changes A)
      → IsDeduped m
      → IsDeduped (settle_changes now p answer m)
  unfolding settle_changes
  settle_changes-IsDeduped now p answer m v = by_case (find_flight p m.pending) answer refl
    where
      by_case :
          (o : Option Flight) (answer : Option (Option A))
          → find_flight p m.pending ≡ o
          → IsDeduped (land_answer now answer o m)
      by_case none answer e = v
      by_case (some f) none e = landed p f m.cache m e v
      by_case (some f) (some content) e = landed p f (store_changes f.key content now m.cache) m e v

  changes_step-IsDeduped :
      (o : ChangesOp A) (m : Changes A) → IsDeduped m → IsDeduped (changes_step o m)
  unfolding changes_step fetch_workload_changes fetch_pod_revision dedupe
  changes_step-IsDeduped (workload_fetch key) m v =
      share_or_fly-IsDeduped key (lookup key m.inflight) m refl v
  changes_step-IsDeduped (pod_fetch key) m v =
      share_or_fly-IsDeduped (codes "pod|" ++ key) (lookup (codes "pod|" ++ key) m.inflight) m refl
        v
  changes_step-IsDeduped (answers now p answer) m v = settle_changes-IsDeduped now p answer m v

  -- Until the cache is cleared, whatever is fetched and in whatever order the promises settle, no
  -- two fetches of one key are under way, and the map has the keys of those that are.
  pub run-IsDeduped :
      (os : List (ChangesOp A)) (m : Changes A) → IsDeduped m → IsDeduped (run_changes os m)
  unfolding run_changes
  run-IsDeduped [] m v = v
  run-IsDeduped (o ∷ os) m v = run-IsDeduped os (changes_step o m) (changes_step-IsDeduped o m v)
