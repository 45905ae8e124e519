-- ===== src/Panels/Pods.antt =====
-- Which pods the stream shows: an empty selection stands for all of them (the comment on
-- `selectedPods` in hooks/useStreamPanel.js).
use klew.Base.{
  ◌≡◌, refl, ap, sym, Bool, true, false, not, ◌&&◌, ◌||◌, List, [], ◌∷◌, ◌++◌, Str, str_eq,
  str_eq_iff, has, has-append, has-keep_other, has_of_all, all, length, ltb, ◌==◌, if◌then◌else◌,
  inl, inr, Bool-cases, arith,
}
use klew.Panels.Stream.{toggle_selection, without, collapse_full}

abbrev pub is_none : List Str → Bool
is_none [] = true
is_none (s ∷ selected) = false

-- whether the selection shows a pod
abbrev pub shown : List Str → Str → Bool
shown selected p = is_none selected || has selected p

-- the pods that a selection stands for
abbrev pub effective : List Str → List Str → List Str
effective pods [] = pods
effective pods (s ∷ selected) = s ∷ selected

has_nil : (p : Str) → has [] p ≡ false
unfolding has
has_nil p = refl

shown_of_not_empty : (ns : List Str) (p : Str) → is_none ns ≡ false → shown ns p ≡ has ns p
shown_of_not_empty ns p e = ap (λ b. b || has ns p) e

shown-without :
    (ns : List Str) (n p : Str)
    → is_none (without n ns) ≡ false
    → shown (without n ns) p ≡ (if str_eq p n then false else has ns p)
shown-without ns n p e =
    ground (arith, shown_of_not_empty (without n ns) p e, has-keep_other ns n p)

is_none-append : (ns : List Str) (n : Str) → is_none (ns ++ n ∷ []) ≡ false
is_none-append [] n = refl
is_none-append (k ∷ ks) n = refl

-- Collapsing a selection of all listed pods to the empty one does not change what it shows of them.
shown-collapse_full :
    (pods next : List Str) (p : Str)
    → has pods p ≡ true
    → is_none next ≡ false
    → shown (collapse_full pods next) p ≡ has next p
shown-collapse_full pods next p i e =
    elim (Bool-cases (ltb 0 (length pods) && (length next == length pods && all (has next) pods))) [
      | inl t ↦ rw t (sym (has_of_all pods next p (ground arith) i))
      | inr f ↦ rw f (shown_of_not_empty next p e)
    ]

-- Toggling a pod that is not the only one shown changes whether that pod is shown and nothing
-- else: every other listed pod is shown afterwards if and only if it was before.
pub shown-toggle_selection :
    (name : Str) (pods selected : List Str) (p : Str)
    → is_none (without name (effective pods selected)) ≡ false
    → has pods p ≡ true
    → shown (toggle_selection name pods selected) p
      ≡ (if str_eq p name then not (shown selected p) else shown selected p)
unfolding toggle_selection
shown-toggle_selection name [] [] p e i = absurd (ground (arith, has_nil p))
shown-toggle_selection name (q ∷ pods) [] p e i = ground (arith, shown-without (q ∷ pods) name p e)
shown-toggle_selection name pods (s ∷ selected) p e i =
    elim (Bool-cases (has (s ∷ selected) name)) [
      | inl t ↦ rw t (ground (arith, shown-without (s ∷ selected) name p e, str_eq_iff p name))
      | inr f ↦ rw f (
          ground (
            arith,
            shown-collapse_full pods ((s ∷ selected) ++ name ∷ []) p i refl,
            has-append (s ∷ selected) name p,
            str_eq_iff p name,
            str_eq_iff name p,
          ))
    ]
