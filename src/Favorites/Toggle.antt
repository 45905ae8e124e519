-- ===== src/Favorites/Toggle.antt =====
-- Toggling a favourite of lib/clusterContexts.js.
use klew.Base.{
  has-append, ◌≡◌, refl, ap, ◌∙◌, true, false, not, ◌&&◌, ◌||◌, List, [], ◌∷◌, ◌++◌, inl, inr,
  arith, Str, str_eq, str_eq_iff, str_eq_self, is_empty, trim, trim_idem, has, if◌then◌else◌,
  if_both, Bool-cases,
}
use klew.Favorites.{
  favorites_from, normalize_favorite_contexts, without_first, toggle_favorite_context,
  is_favorite_context,
}

-- Trimmed, not empty and listed once: what the loop leaves, given the names that it has seen.
abbrev IsTidyFrom : List Str → List Str → Type 0
IsTidyFrom seen [] = Unit {0}
IsTidyFrom seen (n ∷ ns) =
    (trim n ≡ n) × (is_empty n ≡ false) × (has seen n ≡ false) × IsTidyFrom (n ∷ seen) ns

module _ (seen : List Str) (raw : Str) (list : List Str) where
  from_skipped :
      (is_empty (trim raw) || has seen (trim raw)) ≡ true
      → favorites_from seen (raw ∷ list) ≡ favorites_from seen list
  unfolding favorites_from
  from_skipped h = rw (h, favorites_from)

  from_taken :
      is_empty (trim raw) ≡ false
      → has seen (trim raw) ≡ false
      → favorites_from seen (raw ∷ list) ≡ trim raw ∷ favorites_from (trim raw ∷ seen) list
  unfolding favorites_from
  from_taken h k = rw (h, k, favorites_from)

favorites-IsTidyFrom : (seen list : List Str) → IsTidyFrom seen (favorites_from seen list)
favorites-IsTidyFrom seen [] = unfold favorites_from in tt
favorites-IsTidyFrom seen (raw ∷ list) =
    elim (Bool-cases (is_empty (trim raw) || has seen (trim raw))) [
      | inl skip ↦ rw (from_skipped seen raw list skip) (favorites-IsTidyFrom seen list)
      | inr keep ↦
          let e : is_empty (trim raw) ≡ false = ground arith in
          let h : has seen (trim raw) ≡ false = ground arith in
          rw (from_taken seen raw list e h)
            (trim_idem raw, e, h, favorites-IsTidyFrom (trim raw ∷ seen) list)
    ]

favorites_of_IsTidyFrom :
    (seen list : List Str) → IsTidyFrom seen list → favorites_from seen list ≡ list
favorites_of_IsTidyFrom seen [] t = unfold favorites_from in refl
favorites_of_IsTidyFrom seen (n ∷ ns) t =
    from_taken seen n ns (ap is_empty t.0 ∙ t.1) (ap (has seen) t.0 ∙ t.2)
    ∙ ap (λ m. m ∷ favorites_from (m ∷ seen) ns) t.0
    ∙ ap (◌∷◌ n) (favorites_of_IsTidyFrom (n ∷ seen) ns t.3)

-- fewer names seen before, the same list
tidy_weaken :
    (seen seen' ns : List Str)
    → ((m : Str) → has seen m ≡ false → has seen' m ≡ false)
    → IsTidyFrom seen ns
    → IsTidyFrom seen' ns
tidy_weaken seen seen' [] sub t = tt
tidy_weaken seen seen' (n ∷ ns) sub t =
    (t.0, t.1, sub n t.2, tidy_weaken (n ∷ seen) (n ∷ seen') ns (wider n) t.3)
  where
    wider : (n m : Str) → has (n ∷ seen) m ≡ false → has (n ∷ seen') m ≡ false
    wider n m h = unfold has in ground (arith, sub m)

has_seen :
    (seen ns : List Str) (m : Str) → has seen m ≡ true → IsTidyFrom seen ns → has ns m ≡ false
unfolding has
has_seen seen [] m h t = refl
has_seen seen (n ∷ ns) m h t =
    ground (arith, str_eq_iff n m, has_seen (n ∷ seen) ns m, str_eq_self n)

without-tidy :
    (seen ns : List Str) (n : Str) → IsTidyFrom seen ns → IsTidyFrom seen (without_first n ns)
unfolding without_first
without-tidy seen [] n t = tt
without-tidy seen (m ∷ ms) n t =
    if_both (IsTidyFrom seen) (str_eq m n)
      (tidy_weaken (m ∷ seen) seen ms (λ k h. unfold has in ground arith) t.3)
      (t.0, t.1, t.2, without-tidy (m ∷ seen) ms n t.3)

append-tidy :
    (seen ns : List Str) (n : Str)
    → trim n ≡ n
    → is_empty n ≡ false
    → has seen n ≡ false
    → has ns n ≡ false
    → IsTidyFrom seen ns
    → IsTidyFrom seen (ns ++ n ∷ [])
unfolding has
append-tidy seen [] n e f s h t = (e, f, s, tt)
append-tidy seen (m ∷ ms) n e f s h t =
    (t.0, t.1, t.2, append-tidy (m ∷ seen) ms n e f (ground arith) (ground arith) t.3)

has-without_first :
    (seen ns : List Str) (n m : Str)
    → IsTidyFrom seen ns
    → has (without_first n ns) m ≡ (not (str_eq n m) && has ns m)
unfolding has without_first
has-without_first seen [] n m t = ground arith
has-without_first seen (k ∷ ks) n m t = ground (
  arith,
  str_eq_iff k n,
  str_eq_iff k m,
  str_eq_iff n m,
  str_eq_self k,
  has_seen (k ∷ seen) ks k,
  has-without_first (k ∷ seen) ks n m t.3,
)

module _ (favorites : List Str) (name : Str) where
  abbrev list : List Str
  list = normalize_favorite_contexts favorites

  list-tidy : IsTidyFrom [] list
  unfolding normalize_favorite_contexts
  list-tidy = favorites-IsTidyFrom [] favorites

  toggled-tidy :
      is_empty (trim name) ≡ false → IsTidyFrom [] (toggle_favorite_context favorites name)
  unfolding toggle_favorite_context has
  toggled-tidy f = elim (Bool-cases (has list (trim name))) [
    | inl there ↦ rw (f, there) (without-tidy [] list (trim name) list-tidy)
    | inr new ↦ rw (f, new) (append-tidy [] list (trim name) (trim_idem name) f refl new list-tidy)
  ]

  has-toggled :
      (m : Str)
      → is_empty (trim name) ≡ false
      → has (toggle_favorite_context favorites name) m
        ≡ (if str_eq (trim name) m then not (has list (trim name)) else has list m)
  unfolding toggle_favorite_context
  has-toggled m f = elim (Bool-cases (has list (trim name))) [
    | inl there ↦ rw (f, there) (ground (arith, has-without_first [] list (trim name) m list-tidy))
    | inr new ↦
        rw (f, new) (ground (arith, has-append list (trim name) m, str_eq_iff (trim name) m))
  ]

  normal-toggled :
      is_empty (trim name) ≡ false
      → normalize_favorite_contexts (toggle_favorite_context favorites name)
        ≡ toggle_favorite_context favorites name
  unfolding normalize_favorite_contexts
  normal-toggled f = favorites_of_IsTidyFrom [] _ (toggled-tidy f)

-- A toggle turns the named context's star on or off, and leaves every other context's star.
pub is_favorite-toggle :
    (favorites : List Str) (name other : Str)
    → is_empty (trim name) ≡ false
    → is_favorite_context (toggle_favorite_context favorites name) other ≡ (
        if str_eq (trim name) (trim other)
        then not (is_favorite_context favorites name)
        else is_favorite_context favorites other)
unfolding is_favorite_context
is_favorite-toggle favorites name other f = elim (Bool-cases (is_empty (trim other))) [
  | inl blank ↦ rw (blank, f) (ground (arith, str_eq_iff (trim name) (trim other)))
  | inr named ↦
      rw (named, f, normal-toggled favorites name f) (has-toggled favorites name (trim other) f)
]
