-- ===== src/Scope/Tests.antt =====
-- Scopes on concrete namespaces.
use klew.Base.{
  ◌≡◌, ◌↔◌, refl, true, false, List, [], ◌∷◌, none, some, Str, codes, str_eq, has, trim, uniq,
}
use klew.Scope.{
  Raw, absent, text, object, single_browse_scope, all_browse_scope, multi_browse_scope,
  trimmed_names, normalize_browse_scope, browse_scope_api_params, first_name,
  normalize_investigation_scope, scope_supports_investigate, investigation_lock_scope,
  investigation_namespace, browse_scopes_equal, browse_draft_to_scope, browse_scope_to_draft,
}
use klew.Scope.Drafts.{committed, draft_trip}
use klew.Scope.Normal.{IsNormal, SameChoice, normalize-IsNormal, browse_scopes_equal_iff}

program : Unit {0}
unfolding str_eq has trim uniq single_browse_scope multi_browse_scope trimmed_names
    normalize_browse_scope browse_scope_api_params first_name normalize_investigation_scope
    scope_supports_investigate investigation_lock_scope investigation_namespace browse_scopes_equal
    browse_draft_to_scope browse_scope_to_draft
program = tt

abbrev names : List Str → Raw
names ns = object (codes "multi") none (some ns)

abbrev ab : Raw
ab = names (codes " a" ∷ codes "b" ∷ codes "a " ∷ [] ∷ [])

abbrev ba : Raw
ba = names (codes "b" ∷ codes "a" ∷ [])

normalizes : (normalize_browse_scope ab).namespaces ≡ codes "a" ∷ codes "b" ∷ []
unfolding program
normalizes = refl

star_is_all : normalize_browse_scope (text (codes "*")) ≡ all_browse_scope
unfolding program
star_is_all = refl

same_in_any_order : browse_scopes_equal ab ba ≡ true
unfolding program
same_in_any_order = refl

asks_for_all : (browse_scope_api_params (text (codes "*"))).all_namespaces ≡ true
unfolding program
asks_for_all = refl

investigates_first : (normalize_investigation_scope ba (codes "z")).namespace ≡ codes "b"
unfolding program
investigates_first = refl

all_is_not_investigated : scope_supports_investigate (text (codes "*")) ≡ false
unfolding program
all_is_not_investigated = refl

locks_session : (investigation_lock_scope ba (codes "s")).namespace ≡ codes "s"
unfolding program
locks_session = refl

takes_a_match : investigation_namespace absent ([] ∷ codes "m" ∷ []) ≡ codes "m"
unfolding program
takes_a_match = refl

normalize-IsNormal_example : IsNormal (normalize_browse_scope ab)
normalize-IsNormal_example = normalize-IsNormal ab

browse_scopes_equal_iff_example :
    (browse_scopes_equal ab ba ≡ true)
    ↔ SameChoice
        (normalize_browse_scope ab).mode
        (normalize_browse_scope ba).mode
        (normalize_browse_scope ab)
        (normalize_browse_scope ba)
browse_scopes_equal_iff_example = browse_scopes_equal_iff ab ba

draft_trip_example :
    browse_draft_to_scope (some (browse_scope_to_draft ab []))
    ≡ committed (normalize_browse_scope ab).mode (normalize_browse_scope ab)
draft_trip_example = draft_trip ab []
