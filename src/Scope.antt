-- ===== src/Scope.antt =====
-- lib/browseScope.js: which namespaces the Resources view and an investigation look at.
pub mod Normal
pub mod Drafts
mod Tests
use klew.Base.{
  ℕ, Bool, true, false, not, ◌&&◌, List, [], ◌∷◌, Option, none, some, Str, codes, str_eq, is_empty,
  trim, has, uniq, keep, map, all, length, if◌then◌else◌, ◌==◌, ◌or◌, ◌or_else◌, find_elem?,
}

pub data Mode : Type 0 where
  single multi all_mode : Mode

pub record Scope : Type 0 where
  pub mode : Mode
  pub namespace : Str
  pub namespaces : List Str

-- What `normalizeBrowseScope` is handed: nothing, a string, or an object whose `mode` may be any
-- string; `null` fields are `none`.
pub data Raw : Type 0 where
  absent : Raw
  text : Str → Raw
  object : (mode : Str) (namespace : Option Str) (namespaces : Option (List Str)) → Raw

abbrev pub browse_all_namespaces : Str
browse_all_namespaces = codes "*"

unfoldable pub single_browse_scope : Str → Scope
single_browse_scope namespace = record {
  mode = single;
  namespace = trim namespace;
  namespaces = [];
}

abbrev pub all_browse_scope : Scope
all_browse_scope = record { mode = all_mode; namespace = browse_all_namespaces; namespaces = [] }

-- `.map((n) => String(n).trim()).filter(Boolean)`
unfoldable pub trimmed_names : List Str → List Str
trimmed_names names = keep (λ n. not (is_empty n)) (map trim names)

unfoldable pub multi_browse_scope : List Str → Scope
multi_browse_scope names = record {
  mode = multi;
  namespace = [];
  namespaces = uniq (trimmed_names names);
}

unfoldable pub normalize_browse_scope : Raw → Scope
normalize_browse_scope absent = single_browse_scope []
normalize_browse_scope (text s) =
    if str_eq s browse_all_namespaces then all_browse_scope else single_browse_scope s
normalize_browse_scope (object mode namespace namespaces) =
    if str_eq mode (codes "all")
    then all_browse_scope
    else if str_eq mode (codes "multi")
    then multi_browse_scope (namespaces or_else [])
    else single_browse_scope (namespace or_else [])

abbrev pub mode_name : Mode → Str
mode_name single = codes "single"
mode_name multi = codes "multi"
mode_name all_mode = codes "all"

-- A scope handed back to a function that takes a raw one.
abbrev pub to_raw : Scope → Raw
to_raw s = object (mode_name s.mode) (some s.namespace) (some s.namespaces)

pub record ApiParams : Type 0 where
  pub namespace : Str
  pub all_namespaces : Bool
  pub namespaces : List Str

abbrev pub api_params_of : Mode → Scope → ApiParams
api_params_of all_mode s = record { namespace = []; all_namespaces = true; namespaces = [] }
api_params_of multi s = record { namespace = []; all_namespaces = false; namespaces = s.namespaces }
api_params_of single s = record { namespace = s.namespace; all_namespaces = false; namespaces = [] }

unfoldable pub browse_scope_api_params : Raw → ApiParams
browse_scope_api_params raw = let s = normalize_browse_scope raw in api_params_of s.mode s

-- `s.namespaces.find(Boolean) || ''`
unfoldable pub first_name : List Str → Str
first_name [] = []
first_name (n ∷ ns) = if is_empty n then first_name ns else n

abbrev pub investigation_of : Mode → Scope → Str → Scope
investigation_of single s fallback =
    if is_empty s.namespace then single_browse_scope (trim fallback) else s
investigation_of multi s fallback =
    let ns = first_name s.namespaces in
    if is_empty ns then single_browse_scope (trim fallback) else single_browse_scope ns
investigation_of all_mode s fallback = single_browse_scope (trim fallback)

unfoldable pub normalize_investigation_scope : Raw → Str → Scope
normalize_investigation_scope raw fallback =
    let s = normalize_browse_scope raw in investigation_of s.mode s fallback

unfoldable pub scope_supports_investigate : Raw → Bool
scope_supports_investigate raw = not (is_empty (normalize_investigation_scope raw []).namespace)

unfoldable pub investigation_lock_scope : Raw → Str → Scope
investigation_lock_scope raw session_ns =
    single_browse_scope (session_ns or (normalize_investigation_scope raw session_ns).namespace)

-- the first element, or the empty string
abbrev pub head_or_empty : List Str → Str
head_or_empty [] = []
head_or_empty (n ∷ ns) = n

-- `namespaces` are those of the matches
unfoldable pub investigation_namespace : Raw → List Str → Str
investigation_namespace raw namespaces =
    (normalize_investigation_scope raw []).namespace
    or head_or_empty (uniq (keep (λ n. not (is_empty n)) namespaces))

abbrev pub modes_equal : Mode → Mode → Scope → Scope → Bool
modes_equal all_mode all_mode a b = true
modes_equal multi multi a b =
    length a.namespaces == length b.namespaces && all (has b.namespaces) a.namespaces
modes_equal single single a b = str_eq a.namespace b.namespace
modes_equal _ _ a b = false

unfoldable pub browse_scopes_equal : Raw → Raw → Bool
browse_scopes_equal a b =
    let left = normalize_browse_scope a in
    let right = normalize_browse_scope b in modes_equal left.mode right.mode left right

-- The picker's draft; `selected` is a `Set`.
pub record Draft : Type 0 where
  pub mode : Mode
  pub selected : List Str

abbrev pub scope_of_names : List Str → Option Scope
scope_of_names [] = none
scope_of_names (n ∷ []) = some (single_browse_scope n)
scope_of_names (n ∷ m ∷ ns) = some (multi_browse_scope (n ∷ m ∷ ns))

abbrev pub draft_scope : Mode → List Str → Option Scope
draft_scope all_mode selected = some all_browse_scope
draft_scope _ selected = scope_of_names (trimmed_names selected)

unfoldable pub browse_draft_to_scope : Option Draft → Option Scope
browse_draft_to_scope none = some all_browse_scope
browse_draft_to_scope (some d) = draft_scope d.mode d.selected

abbrev pub draft_of : Mode → Scope → List Str → Draft
draft_of all_mode s names = record { mode = all_mode; selected = uniq names }
draft_of multi s names = record { mode = multi; selected = uniq s.namespaces }
draft_of single s names =
    if is_empty s.namespace
    then record { mode = multi; selected = [] }
    else record { mode = single; selected = s.namespace ∷ [] }

unfoldable pub browse_scope_to_draft : Raw → List Str → Draft
browse_scope_to_draft raw names = let s = normalize_browse_scope raw in draft_of s.mode s names
