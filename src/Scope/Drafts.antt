-- ===== src/Scope/Drafts.antt =====
-- The picker's drafts and the scope of an investigation, of lib/browseScope.js.
use klew.Base.{
  ◌≡◌, refl, sym, ap, ◌∙◌, true, List, [], ◌∷◌, Option, none, some, inl, inr, Str, str_eq_self,
  is_empty, trim, trim_idem, has, uniq, uniq_of_Unique, Unique, if◌then◌else◌, Bool-cases, if_both,
}
use klew.Scope.{
  Mode, single, multi, all_mode, Scope, Raw, single_browse_scope, trimmed_names, multi_browse_scope,
  normalize_browse_scope, normalize_investigation_scope, investigation_of, first_name,
  scope_of_names, draft_of, browse_draft_to_scope, browse_scope_to_draft,
}
use klew.Scope.Normal.{Clean, IsNormalFor, normalize-IsNormal, trimmed_names_of_Clean}

-- what the picker commits for a list of namespaces
abbrev pub committed_names : List Str → Scope → Option Scope
committed_names [] s = none
committed_names (n ∷ []) s = some (single_browse_scope n)
committed_names (n ∷ m ∷ ns) s = some s

abbrev pub committed : Mode → Scope → Option Scope
committed all_mode s = some s
committed single s = if is_empty s.namespace then none else some s
committed multi s = committed_names s.namespaces s

trip_single :
    (s : Scope)
    → s.mode ≡ single
    → IsNormalFor single s
    → scope_of_names (trimmed_names (s.namespace ∷ []))
      ≡ (if is_empty s.namespace then none else some s)
unfolding trimmed_names single_browse_scope
trip_single s e n = elim (Bool-cases (is_empty s.namespace)) [
  | inl blank ↦ rw (n.0, blank)
  | inr named ↦
      rw (n.0, named)
        (λ i. some (record { mode = sym e i; namespace = n.0 i; namespaces = sym n.1 i }))
]

trip_multi :
    (s : Scope) (ns : List Str)
    → s.mode ≡ multi
    → s.namespace ≡ []
    → s.namespaces ≡ ns
    → Unique ns
    → Clean ns
    → scope_of_names (trimmed_names ns) ≡ committed_names ns s
unfolding multi_browse_scope
trip_multi s [] e b l u c = rw (trimmed_names_of_Clean [] c)
trip_multi s (n ∷ []) e b l u c = rw (trimmed_names_of_Clean (n ∷ []) c)
trip_multi s (n ∷ m ∷ ns) e b l u c = rw (trimmed_names_of_Clean (n ∷ m ∷ ns) c) (λ i.
    some (record {
      mode = sym e i;
      namespace = sym b i;
      namespaces =
          (ap uniq (trimmed_names_of_Clean (n ∷ m ∷ ns) c) ∙ uniq_of_Unique (n ∷ m ∷ ns) u ∙ sym l)
            i;
    }))

trip :
    (m : Mode) (s : Scope) (names : List Str)
    → s.mode ≡ m
    → IsNormalFor m s
    → browse_draft_to_scope (some (draft_of m s names)) ≡ committed m s
unfolding browse_draft_to_scope
trip all_mode s names e n =
    λ i. some (record { mode = sym e i; namespace = sym n.0 i; namespaces = sym n.1 i })
trip single s names e n = elim (Bool-cases (is_empty s.namespace)) [
  | inl blank ↦ rw blank (ap scope_of_names (trimmed_names_of_Clean [] tt))
  | inr named ↦ rw named (trip_single s e n ∙ rw named)
]
trip multi s names e n =
    rw (uniq_of_Unique s.namespaces n.1) (trip_multi s s.namespaces e n.0 refl n.1 n.2)

-- A scope that is opened in the picker and committed unchanged comes back, with two exceptions: one
-- that names no namespace commits to nothing, and a list of one namespace to that namespace alone.
pub draft_trip :
    (raw : Raw) (names : List Str)
    → browse_draft_to_scope (some (browse_scope_to_draft raw names))
      ≡ committed (normalize_browse_scope raw).mode (normalize_browse_scope raw)
unfolding browse_scope_to_draft
draft_trip raw names =
    trip (normalize_browse_scope raw).mode (normalize_browse_scope raw) names refl
      (normalize-IsNormal raw).normal

-- The list, where there is one, holds the name.
abbrev pub DrawnFrom : List Str → Str → Type 0
DrawnFrom [] n = Unit {0}
DrawnFrom (m ∷ ms) n = has (m ∷ ms) n ≡ true

-- The namespace of an investigation: that of a single scope, one of a list, and the fallback where
-- the scope names none.
abbrev pub Offers : Mode → Scope → Str → Str → Type 0
Offers single s fallback n = n ≡ (if is_empty s.namespace then trim fallback else s.namespace)
Offers multi s fallback n = DrawnFrom s.namespaces n
Offers all_mode s fallback n = n ≡ trim fallback

abbrev Investigates : Mode → Scope → Str → Scope → Type 0
Investigates m s fallback r =
    (r.mode ≡ single) × (r.namespaces ≡ []) × Offers m s fallback r.namespace

offers_one :
    (ns : List Str) (fallback : Str)
    → Clean ns
    → DrawnFrom ns
        (if is_empty (first_name ns)
          then single_browse_scope (trim fallback)
          else single_browse_scope (first_name ns)).namespace
unfolding first_name has single_browse_scope
offers_one [] fallback c = tt
offers_one (n ∷ ns) fallback c = rw (c.1, c.1, c.0, str_eq_self n)

investigates :
    (m : Mode) (s : Scope) (fallback : Str)
    → s.mode ≡ m
    → IsNormalFor m s
    → Investigates m s fallback (investigation_of m s fallback)
unfolding single_browse_scope
investigates single s fallback e n = elim (Bool-cases (is_empty s.namespace)) [
  | inl blank ↦ rw blank (refl, refl, trim_idem fallback)
  | inr named ↦ rw named (e, n.1, refl)
]
investigates all_mode s fallback e n = (refl, refl, trim_idem fallback)
investigates multi s fallback e n = (
  if_both {A = Scope} (λ r. r.mode ≡ single) (is_empty (first_name s.namespaces)) refl refl,
  if_both {A = Scope} (λ r. r.namespaces ≡ []) (is_empty (first_name s.namespaces)) refl refl,
  offers_one s.namespaces fallback n.2,
)

-- An investigation looks at one namespace: the scope's own, one of its list, or the fallback.
pub investigation_single :
    (raw : Raw) (fallback : Str)
    → ((normalize_investigation_scope raw fallback).mode ≡ single)
      × ((normalize_investigation_scope raw fallback).namespaces ≡ [])
      × Offers
          (normalize_browse_scope raw).mode
          (normalize_browse_scope raw)
          fallback
          (normalize_investigation_scope raw fallback).namespace
unfolding normalize_investigation_scope
investigation_single raw fallback =
    investigates (normalize_browse_scope raw).mode (normalize_browse_scope raw) fallback refl
      (normalize-IsNormal raw).normal
