-- ===== src/Scope/Normal.antt =====
-- What normalisation in lib/browseScope.js gives, and when two scopes are equal.
use klew.Base.{
  ◌≡◌, ◌↔◌, refl, sym, ap, ◌∙◌, true, false, ◌&&◌, List, [], ◌∷◌, some, inl, inr, arith, Str, codes,
  str_eq, str_eq_iff, is_empty, trim, trim_idem, has, uniq, uniq-Unique, uniq_of_Unique, Unique,
  all-has_of_Unique, all, length, ◌==◌, Bool-cases, if_both, eq_of_implies, uniq_from,
  uniq_from_old, uniq_from_new, length-le_of_Unique, has_of_all, all_of_has,
}
use klew.Scope.{
  Mode, single, multi, all_mode, Scope, Raw, absent, text, object, single_browse_scope,
  all_browse_scope, trimmed_names, multi_browse_scope, normalize_browse_scope, mode_name, to_raw,
  modes_equal, browse_scopes_equal, browse_all_namespaces,
}

-- every name is trimmed and not empty
abbrev pub Clean : List Str → Type 0
Clean [] = Unit {0}
Clean (n ∷ ns) = (trim n ≡ n) × (is_empty n ≡ false) × Clean ns

trimmed_names-Clean : (ns : List Str) → Clean (trimmed_names ns)
unfolding trimmed_names
trimmed_names-Clean [] = tt
trimmed_names-Clean (n ∷ ns) = elim (Bool-cases (is_empty (trim n))) [
  | inl e ↦ rw e (trimmed_names-Clean ns)
  | inr f ↦ rw f (trim_idem n, f, trimmed_names-Clean ns)
]

pub trimmed_names_of_Clean : (ns : List Str) → Clean ns → trimmed_names ns ≡ ns
unfolding trimmed_names
trimmed_names_of_Clean [] c = refl
trimmed_names_of_Clean (n ∷ ns) c = rw (c.0, c.1) (ap (◌∷◌ n) (trimmed_names_of_Clean ns c.2))

-- The fields that the mode does not use are empty, and the ones that it uses are trimmed.
abbrev pub IsNormalFor : Mode → Scope → Type 0
IsNormalFor single s = (trim s.namespace ≡ s.namespace) × (s.namespaces ≡ [])
IsNormalFor multi s = (s.namespace ≡ []) × Unique s.namespaces × Clean s.namespaces
IsNormalFor all_mode s = (s.namespace ≡ browse_all_namespaces) × (s.namespaces ≡ [])

pub record IsNormal (s : Scope) : Type 0 where
  pub normal : IsNormalFor s.mode s

uniq_from-Clean : (seen ns : List Str) → Clean ns → Clean (uniq_from seen ns)
uniq_from-Clean seen [] c = unfold uniq_from in tt
uniq_from-Clean seen (n ∷ ns) c = elim (Bool-cases (has seen n)) [
  | inl old ↦ rw (uniq_from_old seen n ns old) (uniq_from-Clean seen ns c.2)
  | inr new ↦ rw (uniq_from_new seen n ns new) (c.0, c.1, uniq_from-Clean (n ∷ seen) ns c.2)
]

pub single-IsNormal : (s : Str) → IsNormal (single_browse_scope s)
unfolding single_browse_scope
single-IsNormal s = record { normal = (trim_idem s, refl) }

all-IsNormal : IsNormal all_browse_scope
all-IsNormal = record { normal = (refl, refl) }

multi-IsNormal : (ns : List Str) → IsNormal (multi_browse_scope ns)
unfolding multi_browse_scope uniq
multi-IsNormal ns = record {
  normal = (refl, uniq-Unique (trimmed_names ns), uniq_from-Clean [] _ (trimmed_names-Clean ns));
}

-- Whatever it is handed, normalisation gives a scope whose used fields are trimmed, with no
-- namespace empty or listed twice, and whose unused fields are blank.
pub normalize-IsNormal : (raw : Raw) → IsNormal (normalize_browse_scope raw)
unfolding normalize_browse_scope
normalize-IsNormal absent = single-IsNormal []
normalize-IsNormal (text s) =
    if_both IsNormal (str_eq s browse_all_namespaces) all-IsNormal (single-IsNormal s)
normalize-IsNormal (object mode namespace namespaces) =
    if_both IsNormal (str_eq mode (codes "all")) all-IsNormal
      (if_both IsNormal (str_eq mode (codes "multi")) (multi-IsNormal _) (single-IsNormal _))

normal_fixed :
    (m : Mode) (s : Scope)
    → s.mode ≡ m
    → IsNormalFor m s
    → normalize_browse_scope (object (mode_name m) (some s.namespace) (some s.namespaces)) ≡ s
unfolding normalize_browse_scope str_eq single_browse_scope multi_browse_scope
normal_fixed single s e n =
    λ i. record { mode = sym e i; namespace = n.0 i; namespaces = sym n.1 i }
normal_fixed all_mode s e n =
    λ i. record { mode = sym e i; namespace = sym n.0 i; namespaces = sym n.1 i }
normal_fixed multi s e n = λ i. record {
  mode = sym e i;
  namespace = sym n.0 i;
  namespaces =
      (ap uniq (trimmed_names_of_Clean s.namespaces n.2) ∙ uniq_of_Unique s.namespaces n.1) i;
}

-- Normalising a normalised scope gives it back.
pub normalize_idem :
    (raw : Raw)
    → normalize_browse_scope (to_raw (normalize_browse_scope raw)) ≡ normalize_browse_scope raw
normalize_idem raw =
    let s = normalize_browse_scope raw in normal_fixed s.mode s refl (normalize-IsNormal raw).normal

-- Two scopes make the same choice: both all namespaces, or both one and the same, or both lists with
-- the same members. One namespace and a list that has only that one are not the same choice.
abbrev pub SameChoice : Mode → Mode → Scope → Scope → Type 0
SameChoice all_mode all_mode a b = Unit {0}
SameChoice multi multi a b = (n : Str) → has a.namespaces n ≡ has b.namespaces n
SameChoice single single a b = a.namespace ≡ b.namespace
SameChoice _ _ a b = ⊥

same_members :
    (xs ys : List Str)
    → Unique xs
    → Unique ys
    → ((length xs == length ys && all (has ys) xs) ≡ true) ↔ ((n : Str) → has xs n ≡ has ys n)
same_members xs ys u w = (
  λ h n.
      let sub : all (has ys) xs ≡ true = ground arith in
      let back : all (has xs) ys ≡ true = all-has_of_Unique xs ys u sub (ground arith) in
      eq_of_implies _ _ (has_of_all xs ys n sub) (has_of_all ys xs n back),
  λ h.
      let sub : all (has ys) xs ≡ true = all_of_has xs ys (λ n e. sym (h n) ∙ e) in
      let back : all (has xs) ys ≡ true = all_of_has ys xs (λ n e. h n ∙ e) in
      ground (arith, length-le_of_Unique xs ys u sub, length-le_of_Unique ys xs w back),
)

modes_equal_iff :
    (m n : Mode) (a b : Scope)
    → IsNormalFor m a
    → IsNormalFor n b
    → (modes_equal m n a b ≡ true) ↔ SameChoice m n a b
modes_equal_iff all_mode all_mode a b u w = (λ _. tt, λ _. refl)
modes_equal_iff multi multi a b u w = same_members a.namespaces b.namespaces u.1 w.1
modes_equal_iff single single a b u w = str_eq_iff a.namespace b.namespace
modes_equal_iff _ _ a b u w = (λ h. cc, λ h. absurd h)

-- The comparison of scopes, which counts the namespaces of both and looks up those of one, is true
-- exactly when their modes are the same once they are normalized and, of that mode, both have the
-- same namespace or lists with the same members.
pub browse_scopes_equal_iff :
    (a b : Raw)
    → (browse_scopes_equal a b ≡ true)
      ↔ SameChoice
          (normalize_browse_scope a).mode
          (normalize_browse_scope b).mode
          (normalize_browse_scope a)
          (normalize_browse_scope b)
unfolding browse_scopes_equal
browse_scopes_equal_iff a b =
    modes_equal_iff _ _ _ _ (normalize-IsNormal a).normal (normalize-IsNormal b).normal
