-- ===== src/Matches/Agreement.antt =====
-- The status of an investigation's scope agrees with the rows that drive it.
use klew.Base.{
  ℕ, ◌==◌, ◌≡◌, refl, ap, sym, subst, ◌∙◌, Bool, true, false, not, List, [], ◌∷◌, ◌++◌, all, any,
  keep, length, ltb, leb, Bool-cases, inl, inr, arith, tests,
}
use klew.Matches.{Status, critical, degraded, healthy, warning, unknown, named, status_rank}
use klew.Matches.Critical.{is_critical, is_critical-status_rank}
use klew.Matches.Worst.{
  is_healthy, is_worse, IsWorst, pick_worst_row, pick_worst_row-IsWorst, all_of_implies, all-append,
}
use klew.Matches.Scope.{HealthRow, is_unhealthy, or_all, worst_of, status_from}

is_healthy-status_rank : (s : Status) → is_healthy s ≡ (status_rank s == 2)
is_healthy-status_rank critical = refl
is_healthy-status_rank degraded = refl
is_healthy-status_rank warning = refl
is_healthy-status_rank healthy = refl
is_healthy-status_rank unknown = refl
is_healthy-status_rank (named s) = refl

-- critical, degraded, warning or healthy
abbrev pub is_known : Status → Bool
is_known s = ltb (status_rank s) 3

is_unhealthy-status_rank : (s : Status) → is_known s ≡ true → is_unhealthy s ≡ ltb (status_rank s) 2
is_unhealthy-status_rank critical e = refl
is_unhealthy-status_rank degraded e = refl
is_unhealthy-status_rank warning e = refl
is_unhealthy-status_rank healthy e = refl
is_unhealthy-status_rank unknown e = absurd (ground arith)
is_unhealthy-status_rank (named s) e = absurd (ground arith)

module _ {ℓ} {A : Type ℓ} (p : A → Bool) where
  any_between : (xs : List A) (y : A) (ys : List A) → p y ≡ true → any p (xs ++ y ∷ ys) ≡ true
  any_between [] y ys e = ground arith
  any_between (x ∷ xs) y ys e = ground (arith, any_between xs y ys)

  any_of_all :
      (q : A → Bool) (xs : List A)
      → ((x : A) → q x ≡ true → p x ≡ false)
      → all q xs ≡ true
      → any p xs ≡ false
  any_of_all q [] h e = refl
  any_of_all q (x ∷ xs) h e = ground (arith, h x, any_of_all q xs h)

  pub length-keep-any : (xs : List A) → (length (keep p xs) == 0) ≡ not (any p xs)
  length-keep-any [] = refl
  length-keep-any (x ∷ xs) = ground (arith, length-keep-any xs)

abbrev rank_of : HealthRow → ℕ
rank_of r = status_rank r.status

module _ (pool : List HealthRow) (r : HealthRow)
    (w : IsWorst (λ (r : HealthRow). r.key) (λ r. r.status) (λ r. r.score) pool r) where
  abbrev worse_row : HealthRow → HealthRow → Bool
  worse_row = is_worse (λ (r : HealthRow). r.key) (λ r. r.status) (λ r. r.score)

  below : (a : HealthRow) → worse_row r a ≡ true → leb (rank_of r) (rank_of a) ≡ true
  below a e = grind tests

  not_above : (a : HealthRow) → not (worse_row a r) ≡ true → leb (rank_of r) (rank_of a) ≡ true
  not_above a e = grind tests

  lowest : all (λ a. leb (rank_of r) (rank_of a)) pool ≡ true
  lowest =
      subst (λ xs. all (λ a. leb (rank_of r) (rank_of a)) xs ≡ true) (sym w.split)
        (all-append _ w.earlier (r ∷ w.later) (all_of_implies _ _ w.earlier below w.worse_than) (
          ground (
            arith,
            all_of_implies (λ a. not (worse_row a r)) (λ a. leb (rank_of r) (rank_of a)) w.later
                not_above w.no_better,
          )))

  -- A test of the rows that holds of the worst one if it holds of any.
  any_of_worst :
      (p : HealthRow → Bool)
      → (p r ≡ false → (a : HealthRow) → leb (rank_of r) (rank_of a) ≡ true → p a ≡ false)
      → any p pool ≡ p r
  any_of_worst p h = elim (Bool-cases (p r)) [
    | inl holds ↦
        subst (λ xs. any p xs ≡ true) (sym w.split) (any_between p w.earlier r w.later holds)
        ∙ sym holds
    | inr fails ↦ any_of_all p (λ a. leb (rank_of r) (rank_of a)) pool (h fails) lowest ∙ sym fails
  ]

any_agree {ℓ} :
    {A : Type ℓ} (p q k : A → Bool) (xs : List A)
    → ((x : A) → k x ≡ true → p x ≡ q x)
    → all k xs ≡ true
    → any p xs ≡ any q xs
any_agree p q k [] h e = refl
any_agree p q k (x ∷ xs) h e = ground (arith, h x, any_agree p q k xs h)

pub all-keep {ℓ} :
    {A : Type ℓ} (k p : A → Bool) (xs : List A) → all k xs ≡ true → all k (keep p xs) ≡ true
all-keep k p [] e = refl
all-keep k p (x ∷ xs) e = ground (arith, all-keep k p xs)

abbrev pub status_known : HealthRow → Bool
status_known r = is_known r.status

pub all-or_all :
    (k : HealthRow → Bool) (rs rows : List HealthRow)
    → all k rs ≡ true
    → all k rows ≡ true
    → all k (or_all rs rows) ≡ true
all-or_all k [] rows e f = f
all-or_all k (r ∷ rs) rows e f = e

pub status_from-critical :
    (pool : List HealthRow)
    → is_critical (status_from pool (worst_of pool)).status ≡ any (λ r. is_critical r.status) pool
unfolding pick_worst_row
status_from-critical [] = refl
status_from-critical (x ∷ xs) =
    let (r, e, w) =
      pick_worst_row-IsWorst (λ (r : HealthRow). r.key) (λ r. r.status) (λ r. r.score) x xs in
    rw e (
      sym (
        any_of_worst (x ∷ xs) r w (λ a. is_critical a.status)
          (λ no a up.
            ground (arith, is_critical-status_rank r.status, is_critical-status_rank a.status))))

pub status_from-healthy :
    (x : HealthRow) (xs : List HealthRow)
    → all status_known (x ∷ xs) ≡ true
    → is_healthy (status_from (x ∷ xs) (worst_of (x ∷ xs))).status
      ≡ ((status_from (x ∷ xs) (worst_of (x ∷ xs))).unhealthy_count == 0)
unfolding pick_worst_row
status_from-healthy x xs known =
    let (r, e, w) =
      pick_worst_row-IsWorst (λ (r : HealthRow). r.key) (λ r. r.status) (λ r. r.score) x xs in
    let low = lowest (x ∷ xs) r w in
    let same = any_of_worst (x ∷ xs) r w (λ a. ltb (rank_of a) 2) (λ no a up. grind tests) in
    let agree =
      any_agree (λ (a : HealthRow). is_unhealthy a.status) (λ a. ltb (rank_of a) 2) status_known
        (x ∷ xs) (λ a. is_unhealthy-status_rank a.status) known in
    let count = length-keep-any (λ (a : HealthRow). is_unhealthy a.status) (x ∷ xs) in
    let own : is_healthy r.status ≡ not (ltb (rank_of r) 2) =
      healthy_of_known r x (is_healthy-status_rank r.status) low known in
    rw e (own ∙ ap not (sym (agree ∙ same)) ∙ sym count)
  where
    healthy_of_known :
        (r x : HealthRow)
        → is_healthy r.status ≡ (status_rank r.status == 2)
        → all (λ a. leb (rank_of r) (rank_of a)) (x ∷ xs) ≡ true
        → all status_known (x ∷ xs) ≡ true
        → is_healthy r.status ≡ not (ltb (rank_of r) 2)
    healthy_of_known r x h low known = rw h (ground arith)
