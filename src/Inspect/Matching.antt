-- ===== src/Inspect/Matching.antt =====
-- Which inspect keys of lib/matches.js name the same object.
use klew.Base.{
  has, is_empty, ◌⊎◌, ◌↔◌, [], ◌∷◌, ◌||◌, if◌then◌else◌, trim, ◌≡◌, refl, sym, ap, ◌∙◌, subst, true,
  Option, none, some, Str, str_eq, str_eq_iff, str_eq_self, Bool-cases, inl, inr, arith,
}
use klew.Inspect.{
  cluster_scoped_kinds, normalize_inspect_kind, is_cluster_scoped, build_inspect_key, Parsed,
  parse_inspect_key, same_object, row_keys_match,
}
use klew.Inspect.Keys.{IsPlain, meant, parse-build_inspect_key, build_inspect_key_there}

same_object_self : (p : Parsed) → same_object (some p) (some p) ≡ true
same_object_self p = ground (arith, str_eq_self p.kind, str_eq_self p.name, str_eq_self p.namespace)

same_object_comm : (a b : Option Parsed) → same_object a b ≡ true → same_object b a ≡ true
same_object_comm none none h = h
same_object_comm none (some b) h = absurd (ground arith)
same_object_comm (some a) none h = absurd (ground arith)
same_object_comm (some a) (some b) h = ground (
  arith,
  str_eq_iff a.kind b.kind,
  str_eq_iff b.kind a.kind,
  str_eq_iff a.name b.name,
  str_eq_iff b.name a.name,
  str_eq_iff a.namespace b.namespace,
  str_eq_iff b.namespace a.namespace,
)

-- Equal keys that parse name the same object.
same_object_of_eq :
    (s t : Str) (a b : Parsed)
    → parse_inspect_key s ≡ some a
    → parse_inspect_key t ≡ some b
    → s ≡ t
    → same_object (some a) (some b) ≡ true
same_object_of_eq s t a b e f h =
    let same : some a ≡ some b = sym e ∙ ap parse_inspect_key h ∙ f in
    subst (λ (o : Option Parsed). same_object (some a) o ≡ true) same (same_object_self a)

-- The namespace that is meant is none for a kind of the cluster, and else the trimmed one.
abbrev pub namespace_of : Str → Str → Str
namespace_of k ns = if has cluster_scoped_kinds (normalize_inspect_kind k) then [] else trim ns

-- Both parts have a namespace only if they have the same.
abbrev pub Agree : Str → Str → Type 0
Agree ns ns' = (ns ≡ []) ⊎ (ns' ≡ []) ⊎ (ns ≡ ns')

is_empty_iff : (s : Str) → (is_empty s ≡ true) ↔ (s ≡ [])
is_empty_iff [] = (λ _. refl, λ _. refl)
is_empty_iff (c ∷ s) = (λ h. cc, λ h. cc)

Agree-iff : (s t : Str) → ((is_empty s || is_empty t || str_eq s t) ≡ true) ↔ Agree s t
Agree-iff s t = (there, agreed)
  where
    there : (is_empty s || is_empty t || str_eq s t) ≡ true → Agree s t
    there h = elim (Bool-cases (is_empty s)) [
      | inl e ↦ inl ((is_empty_iff s).0 e)
      | inr e ↦ elim (Bool-cases (is_empty t)) [
        | inl f ↦ inr (inl ((is_empty_iff t).0 f))
        | inr f ↦ inr (inr ((str_eq_iff s t).0 (rw (e, f) at h)))
      ]
    ]

    agreed : Agree s t → (is_empty s || is_empty t || str_eq s t) ≡ true
    agreed (inl e) = ground (arith, (is_empty_iff s).1 e)
    agreed (inr (inl e)) = ground (arith, (is_empty_iff t).1 e)
    agreed (inr (inr e)) = ground (arith, (str_eq_iff s t).1 e)

same_object_iff :
    (a b : Parsed)
    → (same_object (some a) (some b) ≡ true)
      ↔ ((a.kind ≡ b.kind) × (a.name ≡ b.name) × Agree a.namespace b.namespace)
same_object_iff a b = (
  λ h. (
    (str_eq_iff a.kind b.kind).0 (ground arith),
    (str_eq_iff a.name b.name).0 (ground arith),
    (Agree-iff a.namespace b.namespace).0 (ground arith),
  ),
  λ h. ground (
    arith,
    (str_eq_iff a.kind b.kind).1 h.0,
    (str_eq_iff a.name b.name).1 h.1,
    (Agree-iff a.namespace b.namespace).1 h.2,
  ),
)

row_keys_match-same_object :
    (k n ns k' n' ns' : Str)
    → IsPlain k n ns
    → IsPlain k' n' ns'
    → row_keys_match (build_inspect_key k n ns) (build_inspect_key k' n' ns')
      ≡ same_object (some (meant k n ns)) (some (meant k' n' ns'))
unfolding row_keys_match
row_keys_match-same_object k n ns k' n' ns' v w =
    let e = parse-build_inspect_key k n ns v in
    let f = parse-build_inspect_key k' n' ns' w in
    let s = build_inspect_key k n ns in
    let t = build_inspect_key k' n' ns' in
    elim (Bool-cases (str_eq s t)) [
      | inl same ↦
          rw (build_inspect_key_there k n ns v, build_inspect_key_there k' n' ns' w, same)
            (sym (same_object_of_eq s t _ _ e f ((str_eq_iff s t).0 same)))
      | inr other ↦
          rw (build_inspect_key_there k n ns v, build_inspect_key_there k' n' ns' w, other, e, f)
            refl
    ]

-- Two keys that were built from parts without a slash match exactly if the normalized kinds are
-- equal, the trimmed names are, and so are the trimmed namespaces, where both kinds have one and
-- neither namespace is blank.
pub row_keys_match-build :
    (k n ns k' n' ns' : Str)
    → IsPlain k n ns
    → IsPlain k' n' ns'
    → (row_keys_match (build_inspect_key k n ns) (build_inspect_key k' n' ns') ≡ true) ↔ (
        (normalize_inspect_kind k ≡ normalize_inspect_kind k')
        × (trim n ≡ trim n')
        × Agree (namespace_of k ns) (namespace_of k' ns'))
unfolding is_cluster_scoped
row_keys_match-build k n ns k' n' ns' v w =
    let e = row_keys_match-same_object k n ns k' n' ns' v w in
    let (f, g) = same_object_iff (meant k n ns) (meant k' n' ns') in
    (λ h. f (sym e ∙ h), λ h. e ∙ g h)
