-- ===== src/Findings/Ordered.antt =====
-- What lib/findingRanking.js shows, and in which order.
use mathlib.Core.Path.{ap₂}
use klew.Base.{
  ap, sym, str_eq, to_lower_case, has, codes, not, [], ◌<◌, ◌==◌, ==_iff, ltb, ltb→lt, leb, ℕ, ◌+◌,
  ◌≡◌, ◌⊎◌, inl, inr, refl, ◌∙◌, Bool, true, ◌&&◌, List, [], ◌∷◌, if◌then◌else◌, Str, keep,
  Bool-cases, arith,
}
use klew.Findings.Ranked.{
  count_of, LeadsAll, Ranked, Ranked-sort, count_of-sort_findings, count_of-keep,
}
use klew.Findings.{
  is_routine, severity_rank, rank_at, severity_ranks, Finding, is_key, leads, rank_findings,
}

-- The labels of a warning or more, in lower case.
abbrev pub alarming : List Str
alarming =
    codes "critical"
    ∷ codes "fatal"
    ∷ codes "error"
    ∷ codes "high"
    ∷ codes "warning"
    ∷ codes "warn"
    ∷ codes "degraded"
    ∷ []

-- Neither routine nor below a warning.
abbrev pub matters : Finding → Bool
matters f = not (is_routine f.reason f.title) && has alarming (to_lower_case f.severity)

warning_rank : severity_rank (codes "warning") ≡ 3
unfolding severity_rank to_lower_case str_eq
warning_rank = refl

rank_at-alarming : (s : Str) → leb 3 (rank_at severity_ranks s) ≡ has alarming s
unfolding has
rank_at-alarming s = ground arith

matters_lem : (f : Finding) → is_key f ≡ matters f
unfolding is_key severity_rank
matters_lem f =
    ap (λ n. not (is_routine f.reason f.title) && leb n (severity_rank f.severity)) warning_rank
    ∙ ap (λ b. not (is_routine f.reason f.title) && b) (rank_at-alarming (to_lower_case f.severity))

-- A finding stands rightly before another: it is more severe, or as severe and seen later, or seen
-- at the same time and more often, or as often and its title is not behind.
abbrev pub Precedes : (Str → Str → Bool) → Finding → Finding → Type 0
Precedes locale f g =
    (severity_rank g.severity < severity_rank f.severity)
    ⊎ (severity_rank f.severity ≡ severity_rank g.severity)
      × ((g.last_seen < f.last_seen)
          ⊎ (f.last_seen ≡ g.last_seen)
            × ((g.count < f.count) ⊎ (f.count ≡ g.count) × (locale f.title g.title ≡ true)))

-- One comparison, and what follows where it does not decide.
compare_first :
    (a b : ℕ) (rest : Bool) (P : Type 0)
    → (if not (b == a) then ltb b a else rest) ≡ true
    → (rest ≡ true → P)
    → (b < a) ⊎ (a ≡ b) × P
compare_first a b rest P h k = elim (Bool-cases (b == a)) [
  | inl same ↦ inr (sym ((==_iff b a).0 same), k (rw same at h))
  | inr other ↦ inl (ltb→lt b a (rw other at h))
]

Precedes-leads :
    (locale : Str → Str → Bool) (f g : Finding) → leads locale f g ≡ true → Precedes locale f g
unfolding leads
Precedes-leads locale f g h =
    compare_first (severity_rank f.severity) (severity_rank g.severity) _ _ h (λ i.
      compare_first f.last_seen g.last_seen _ _ i
        (λ j. compare_first f.count g.count _ _ j (λ k. k)))

module _ (locale : Str → Str → Bool) where
  -- The finding precedes all of the list, and they are in order.
  abbrev pub PrecedesAll : Finding → List Finding → Type 0
  PrecedesAll f [] = Unit
  PrecedesAll f (g ∷ gs) = Precedes locale f g × PrecedesAll f gs

  abbrev pub Ordered : List Finding → Type 0
  Ordered [] = Unit
  Ordered (f ∷ fs) = PrecedesAll f fs × Ordered fs

  LeadsAll-PrecedesAll : (f : Finding) (gs : List Finding) → LeadsAll locale f gs → PrecedesAll f gs
  LeadsAll-PrecedesAll f [] l = tt
  LeadsAll-PrecedesAll f (g ∷ gs) (l, ls) =
      (Precedes-leads locale f g l, LeadsAll-PrecedesAll f gs ls)

  Ranked-Ordered : (fs : List Finding) → Ranked locale fs → Ordered fs
  Ranked-Ordered [] r = tt
  Ranked-Ordered (f ∷ fs) (l, r) = (LeadsAll-PrecedesAll f fs l, Ranked-Ordered fs r)

count_of-matters :
    (p : Finding → Bool) (fs : List Finding)
    → count_of (λ f. is_key f && p f) fs ≡ count_of (λ f. matters f && p f) fs
count_of-matters p [] = refl
count_of-matters p (f ∷ fs) =
    ap₂ (λ b n. (if b && p f then 1 else 0) + n) (matters_lem f) (count_of-matters p fs)

-- Every finding that is shown precedes those behind it: it is more severe, or as severe and seen
-- later, or seen at the same time and more often, or as often and with a title that is not behind.
-- The candidates shown are those that are neither routine nor labelled below a warning, each as
-- often as it was given: as many of them pass a test as there are such candidates that pass it.
-- `localeCompare` is taken to order the titles.
pub rank_findings-Ordered :
    (locale : Str → Str → Bool)
    → ((a b : Str) → (locale a b ≡ true) ⊎ (locale b a ≡ true))
    → ((a b c : Str) → locale a b ≡ true → locale b c ≡ true → locale a c ≡ true)
    → (candidates : List Finding) (p : Finding → Bool)
    → Ordered locale (rank_findings locale candidates)
      × (count_of p (rank_findings locale candidates) ≡ count_of (λ f. matters f && p f) candidates)
unfolding rank_findings
rank_findings-Ordered locale total trans candidates p = (
  Ranked-Ordered locale _ (Ranked-sort locale total trans (keep is_key candidates)),
  count_of-sort_findings locale p (keep is_key candidates)
      ∙ count_of-keep locale total trans p candidates
      ∙ count_of-matters p candidates,
)
