-- ===== src/Access.antt =====
-- lib/rbacAccess.js: which errors of the API server mean that access is denied.
use klew.Base.{
  Bool, false, ◌&&◌, ◌||◌, List, [], ◌∷◌, ◌++◌, if◌then◌else◌, Str, codes, str_eq, is_empty, trim,
  includes, to_lower_case, any, ◌or◌,
}

abbrev pub forbidden_hints : List Str
forbidden_hints =
    codes "forbidden"
    ∷ codes "access denied"
    ∷ codes "accessdenied"
    ∷ codes "not authorized"
    ∷ codes "don't have permission"
    ∷ codes "do not have permission"
    ∷ codes "cannot get resource"
    ∷ codes "cannot get "
    ∷ codes "cannot list resource"
    ∷ codes "cannot list "
    ∷ codes "cannot watch resource"
    ∷ codes "cannot watch "
    ∷ codes "is forbidden:"
    ∷ []

unfoldable pub is_rbac_forbidden_message : Str → Bool
is_rbac_forbidden_message raw =
    let text = to_lower_case (trim raw) in
    if is_empty text then false else any (includes text) forbidden_hints

-- the `action` of the two texts
pub data AccessAction : Type 0 where
  get_action list_action : AccessAction

unfoldable pub rbac_access_denied_title : AccessAction → Str
rbac_access_denied_title get_action = codes "Access denied (get)"
rbac_access_denied_title list_action = codes "Access denied"

abbrev pub denied_text : AccessAction → Str → Str → Str
denied_text get_action label name =
    codes "Access denied — you cannot get "
    ++ (if is_empty name then label else label ++ codes " \"" ++ name ++ codes "\"")
    ++ codes " with the current identity."
denied_text list_action label name =
    codes "Access denied — you cannot list " ++ label ++ codes " with the current identity."

unfoldable pub format_rbac_access_error : Str → AccessAction → Str → Str → Str
unfolding is_rbac_forbidden_message
format_rbac_access_error raw action kind name =
    if is_rbac_forbidden_message raw
    then denied_text action (kind or codes "resource") name
    else trim raw

abbrev pub forbidden : Str
forbidden = codes "forbidden"

unfoldable pub normalize_catalog_access_state : Str → Str → Str
unfolding is_rbac_forbidden_message
normalize_catalog_access_state access_state error_message =
    if str_eq access_state forbidden || is_rbac_forbidden_message error_message
    then forbidden
    else if str_eq access_state (codes "allowed") || str_eq access_state (codes "unavailable")
    then access_state
    else if str_eq access_state (codes "error") && is_rbac_forbidden_message error_message
    then forbidden
    else access_state or codes "unknown"
