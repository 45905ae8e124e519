-- ===== src/Inspect/Kinds.antt =====
-- The kinds of lib/matches.js under their aliases.
use klew.Base.{
  ℕ, ◌==◌, ◌≡◌, refl, ◌∙◌, Bool, true, not, ◌&&◌, List, [], ◌∷◌, ◌++◌, reverse, all, Str, ◌||◌,
  str_eq, str_eq_iff, is_empty, is_space, trim, trim_start, trim_idem, to_lower_case, ◌or◌, arith,
}
use mathlib.Core.List.{reverse-cons}
use klew.Inspect.{kind_aliases, alias_in, normalize_inspect_kind}

-- What holds of every unit of a text holds of every unit of the trimmed text.
module _ (p : ℕ → Bool) where
  all-snoc : (s : Str) (c : ℕ) → all p (s ++ c ∷ []) ≡ (all p s && p c)
  all-snoc [] c = ground arith
  all-snoc (d ∷ s) c = ground (arith, all-snoc s c)

  all-reverse : (s : Str) → all p (reverse s) ≡ all p s
  all-reverse [] = refl
  all-reverse (c ∷ s) =
      rw (reverse-cons c s) (all-snoc (reverse s) c ∙ ground (arith, all-reverse s))

  all-trim_start : (s : Str) → all p s ≡ true → all p (trim_start s) ≡ true
  unfolding trim_start
  all-trim_start [] h = refl
  all-trim_start (c ∷ s) h = ground (arith, all-trim_start s)

  pub all-trim : (s : Str) → all p s ≡ true → all p (trim s) ≡ true
  unfolding trim
  all-trim s h =
      all-reverse (trim_start (reverse (trim_start s)))
      ∙ all-trim_start (reverse (trim_start s)) (all-reverse (trim_start s) ∙ all-trim_start s h)

-- What a test says of every alias it says of every kind that is found.
alias_in-all :
    (p : Str → Bool) (as' : List (Str × Str)) (k : Str)
    → all (λ (a : Str × Str). p a.1) as' ≡ true
    → p [] ≡ true
    → p (alias_in as' k) ≡ true
alias_in-all p [] k h e = e
alias_in-all p ((a, kind) ∷ rest) k h e = ground (arith, alias_in-all p rest k)

-- A kind that an alias stands for stands for itself.
abbrev is_settled : Str → Bool
is_settled kind = is_empty kind || str_eq (normalize_inspect_kind kind) kind

aliases_settled : all (λ (a : Str × Str). is_settled a.1) kind_aliases ≡ true
unfolding normalize_inspect_kind trim trim_start is_space to_lower_case str_eq
aliases_settled = refl

normalized :
    (k found : Str)
    → alias_in kind_aliases (to_lower_case k) ≡ found
    → trim k ≡ k
    → is_settled found ≡ true
    → normalize_inspect_kind (found or k) ≡ found or k
unfolding normalize_inspect_kind
normalized k [] e t h = rw (t, e) refl
normalized k (c ∷ found) e t h = (str_eq_iff _ _).0 h

-- Normalising a kind twice is normalising it once.
pub normalize_inspect_kind_idem :
    (kind : Str)
    → normalize_inspect_kind (normalize_inspect_kind kind) ≡ normalize_inspect_kind kind
normalize_inspect_kind_idem kind =
    unfold normalize_inspect_kind in
    normalized (trim kind) (alias_in kind_aliases (to_lower_case (trim kind))) refl (trim_idem kind)
      (alias_in-all is_settled kind_aliases (to_lower_case (trim kind)) aliases_settled refl)

-- No `/` in the text.
abbrev pub no_slash : Str → Bool
no_slash s = all (λ c. not (c == 47)) s

aliases_no_slash : all (λ (a : Str × Str). no_slash a.1) kind_aliases ≡ true
aliases_no_slash = refl

no_slash-or : (s t : Str) → no_slash s ≡ true → no_slash t ≡ true → no_slash (s or t) ≡ true
no_slash-or [] t h k = k
no_slash-or (c ∷ s) t h k = h

pub no_slash-normalize :
    (kind : Str) → no_slash kind ≡ true → no_slash (normalize_inspect_kind kind) ≡ true
unfolding normalize_inspect_kind
no_slash-normalize kind h =
    no_slash-or (alias_in kind_aliases (to_lower_case (trim kind))) (trim kind)
      (alias_in-all no_slash kind_aliases (to_lower_case (trim kind)) aliases_no_slash refl)
      (all-trim (λ c. not (c == 47)) kind h)
