-- ===== src/Findings/Ranked.antt =====
-- The order of lib/findingRanking.js.
use klew.Base.{
  [], ℕ, ◌+◌, ◌≡◌, ◌⊎◌, inl, inr, refl, Bool, true, false, ◌&&◌, List, [], ◌∷◌, if◌then◌else◌, Str,
  keep, if_both, Bool-cases, arith,
}
use klew.Findings.{Finding, is_key, leads, place_finding, sort_findings}

-- How many findings pass the test.
abbrev pub count_of : (Finding → Bool) → List Finding → ℕ
count_of p [] = 0
count_of p (f ∷ fs) = (if p f then 1 else 0) + count_of p fs

module _ (locale : Str → Str → Bool) where
  -- The first finding leads each of the others, and they are ranked.
  abbrev pub LeadsAll : Finding → List Finding → Type 0
  LeadsAll f [] = Unit
  LeadsAll f (g ∷ gs) = (leads locale f g ≡ true) × LeadsAll f gs

  abbrev pub Ranked : List Finding → Type 0
  Ranked [] = Unit
  Ranked (f ∷ fs) = LeadsAll f fs × Ranked fs

  count_of-place_finding :
      (p : Finding → Bool) (f : Finding) (fs : List Finding)
      → count_of p (place_finding locale f fs) ≡ (if p f then 1 else 0) + count_of p fs
  unfolding place_finding
  count_of-place_finding p f [] = refl
  count_of-place_finding p f (g ∷ gs) = ground (arith, count_of-place_finding p f gs)

  pub count_of-sort_findings :
      (p : Finding → Bool) (fs : List Finding)
      → count_of p (sort_findings locale fs) ≡ count_of p fs
  unfolding sort_findings
  count_of-sort_findings p [] = refl
  count_of-sort_findings p (f ∷ fs) =
      omega
        (arith, count_of-place_finding p f (sort_findings locale fs), count_of-sort_findings p fs)

  module _ (total : (a b : Str) → (locale a b ≡ true) ⊎ (locale b a ≡ true))
      (trans : (a b c : Str) → locale a b ≡ true → locale b c ≡ true → locale a c ≡ true) where
    leads_total : (f g : Finding) → leads locale f g ≡ false → leads locale g f ≡ true
    unfolding leads
    leads_total f g h = elim (total f.title g.title) [
      | inl e ↦ ground (arith, e, h)
      | inr e ↦ ground (arith, e, h)
    ]

    leads_trans :
        (f g k : Finding)
        → leads locale f g ≡ true
        → leads locale g k ≡ true
        → leads locale f k ≡ true
    unfolding leads
    leads_trans f g k h i = ground (arith, trans f.title g.title k.title, h, i)

    LeadsAll-weaken :
        (f g : Finding) (gs : List Finding)
        → leads locale f g ≡ true
        → LeadsAll g gs
        → LeadsAll f gs
    LeadsAll-weaken f g [] h l = tt
    LeadsAll-weaken f g (k ∷ gs) h (l, ls) = (leads_trans f g k h l, LeadsAll-weaken f g gs h ls)

    LeadsAll-place :
        (g f : Finding) (fs : List Finding)
        → leads locale g f ≡ true
        → LeadsAll g fs
        → LeadsAll g (place_finding locale f fs)
    unfolding place_finding
    LeadsAll-place g f [] h l = (h, tt)
    LeadsAll-place g f (k ∷ fs) h (l, ls) =
        if_both (LeadsAll g) (leads locale f k) (h, (l, ls)) (l, LeadsAll-place g f fs h ls)

    Ranked-place :
        (f : Finding) (fs : List Finding) → Ranked fs → Ranked (place_finding locale f fs)
    unfolding place_finding
    Ranked-place f [] r = (tt, tt)
    Ranked-place f (g ∷ gs) (l, r) = elim (Bool-cases (leads locale f g)) [
      | inl first ↦ rw first ((first, LeadsAll-weaken f g gs first l), (l, r))
      | inr later ↦ rw later (LeadsAll-place g f gs (leads_total f g later) l, Ranked-place f gs r)
    ]

    pub Ranked-sort : (fs : List Finding) → Ranked (sort_findings locale fs)
    unfolding sort_findings
    Ranked-sort [] = tt
    Ranked-sort (f ∷ fs) = Ranked-place f (sort_findings locale fs) (Ranked-sort fs)

    pub count_of-keep :
        (p : Finding → Bool) (fs : List Finding)
        → count_of p (keep is_key fs) ≡ count_of (λ f. is_key f && p f) fs
    count_of-keep p [] = refl
    count_of-keep p (f ∷ fs) = ground (arith, count_of-keep p fs)
