-- ===== src/Matches/Worst.antt =====
-- `pickWorstRow` and `pickDefaultFocus` of lib/matches.js: the first of the rows with the worst
-- status, and of these one with the highest score.
use mathlib.Core.Option
use klew.Base.{
  subst, sym, ℕ, ◌==◌, ◌≡◌, refl, ap, ◌∙◌, Bool, true, false, not, List, [], ◌∷◌, ◌++◌, Option,
  none, some, all, ltb, if◌then◌else◌, Str, is_empty, Bool-cases, inl, inr, arith, tests,
}
use klew.Matches.{Status, healthy, status_rank}

abbrev pub is_healthy : Status → Bool
is_healthy healthy = true
is_healthy _ = false

abbrev pub head? {ℓ} : {A : Type ℓ} → List A → Option A
head? [] = none
head? (x ∷ xs) = some x

-- `.sort(…)`, which is stable: `before a b` is that the comparison puts `a` before `b`.
module _ {ℓ} {A : Type ℓ} (before : A → A → Bool) where
  unfoldable pub place_row : A → List A → List A
  place_row x [] = x ∷ []
  place_row x (y ∷ ys) = if before y x then y ∷ place_row x ys else x ∷ y ∷ ys

  unfoldable pub sort : List A → List A
  unfolding place_row
  sort [] = []
  sort (x ∷ xs) = place_row x (sort xs)

head?-place_row {ℓ} :
    {A : Type ℓ} (before : A → A → Bool) (x y : A) (ys : List A)
    → head? ys ≡ some y
    → head? (place_row before x ys) ≡ some (if before y x then y else x)
unfolding place_row
head?-place_row before x y [] e = absurd (ground arith)
head?-place_row {A = A} before x y (z ∷ zs) e =
    subst
      (λ (o : Option A).
        head? (place_row before x (z ∷ zs)) ≡ Option.map (λ w. if before w x then w else x) o)
      e (if-head (before z x))
  where
    if-head :
        (b : Bool)
        → head? (if b then z ∷ place_row before x zs else x ∷ z ∷ zs) ≡ some (if b then z else x)
    if-head true = refl
    if-head false = refl

pub all_of_implies {ℓ} :
    {A : Type ℓ} (p q : A → Bool) (xs : List A)
    → ((x : A) → p x ≡ true → q x ≡ true)
    → all p xs ≡ true
    → all q xs ≡ true
all_of_implies p q [] h e = refl
all_of_implies p q (x ∷ xs) h e = ground (arith, h x, all_of_implies p q xs h)

pub all-append {ℓ} :
    {A : Type ℓ} (p : A → Bool) (xs ys : List A)
    → all p xs ≡ true
    → all p ys ≡ true
    → all p (xs ++ ys) ≡ true
all-append p [] ys e f = f
all-append p (x ∷ xs) ys e f = ground (arith, all-append p xs ys)

-- A row has a key, a status and a score, 0 where there is none.
module _ {ℓ} {R : Type ℓ} (key : R → Str) (status : R → Status) (score : R → ℕ) where
  abbrev pub is_worse : R → R → Bool
  is_worse a b =
      if not (status_rank (status a) == status_rank (status b))
      then ltb (status_rank (status a)) (status_rank (status b))
      else ltb (score b) (score a)

  unfoldable pub pick_worst_row : List R → Option R
  unfolding sort
  pick_worst_row rows = head? (sort is_worse rows)

  abbrev pub key_or_null : Option R → Option Str
  key_or_null none = none
  key_or_null (some r) = if is_empty (key r) then none else some (key r)

  abbrev pub top_key : List R → Option Str
  top_key rows = key_or_null (head? (sort (λ a b. ltb (score b) (score a)) rows))

  abbrev pub focus_on : List R → Option R → Option Str
  focus_on rows none = top_key rows
  focus_on rows (some r) = if not (is_healthy (status r)) then some (key r) else top_key rows

  unfoldable pub pick_default_focus : List R → Option Str
  unfolding pick_worst_row
  pick_default_focus rows = focus_on rows (pick_worst_row rows)

  -- The row, with those before and behind it: worse than all before it, and at least as bad as all
  -- behind it.
  pub record IsWorst (rows : List R) (r : R) : Type ℓ where
    pub earlier : List R
    pub later : List R
    pub split : rows ≡ earlier ++ r ∷ later
    pub worse_than : all (is_worse r) earlier ≡ true
    pub no_better : all (λ a. not (is_worse a r)) later ≡ true

  is_worse_trans : (a b c : R) → is_worse b a ≡ false → is_worse b c ≡ true → is_worse c a ≡ false
  is_worse_trans a b c e f = grind tests

  not_worse_trans : (a b c : R) → is_worse b a ≡ false → is_worse c b ≡ false → is_worse c a ≡ false
  not_worse_trans a b c e f = grind tests

  no_better_than :
      (a r : R) (xs ys : List R)
      → is_worse r a ≡ false
      → all (is_worse r) xs ≡ true
      → all (λ b. not (is_worse b r)) ys ≡ true
      → all (λ b. not (is_worse b a)) (xs ++ r ∷ ys) ≡ true
  no_better_than a r xs ys e f g =
      all-append _ xs (r ∷ ys) (all_of_implies _ _ xs (λ b h. ap not (is_worse_trans a r b e h)) f)
        (rw e (all_of_implies _ _ ys (λ b h. ap not (not_worse_trans a r b e (ground arith))) g))

  -- Of rows there is a worst one, which is the first of the worst.
  pub pick_worst_row-IsWorst :
      (a : R) (rows : List R)
      → (r : R) × (pick_worst_row (a ∷ rows) ≡ some r) × IsWorst (a ∷ rows) r
  unfolding pick_worst_row
  pick_worst_row-IsWorst a [] = (
    a,
    refl,
    record { earlier = []; later = []; split = refl; worse_than = refl; no_better = refl },
  )
  pick_worst_row-IsWorst a (b ∷ rows) =
      let (r, e, w) = pick_worst_row-IsWorst b rows in
      elim (Bool-cases (is_worse r a)) [
        | inl worse ↦ (
          r,
          head?-place_row is_worse a r (sort is_worse (b ∷ rows)) e ∙ ap some (rw worse refl),
          record {
            earlier = a ∷ w.earlier;
            later = w.later;
            split = ap (◌∷◌ a) w.split;
            worse_than = rw worse w.worse_than;
            no_better = w.no_better;
          },
        )
        | inr not_worse ↦ (
          a,
          head?-place_row is_worse a r (sort is_worse (b ∷ rows)) e ∙ ap some (rw not_worse refl),
          record {
            earlier = [];
            later = b ∷ rows;
            split = refl;
            worse_than = refl;
            no_better =
                subst (λ xs. all (λ c. not (is_worse c a)) xs ≡ true) (sym w.split)
                  (no_better_than a r w.earlier w.later not_worse w.worse_than w.no_better);
          },
        )
      ]
