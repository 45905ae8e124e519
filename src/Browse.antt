-- ===== src/Browse.antt =====
-- lib/resourceNavigation.js: the categories of resources, and the kind that is shown.
pub mod Selected
pub mod Entries
mod Tests
use klew.Base.{
  ℕ, ltb, Bool, true, false, not, ◌&&◌, ◌||◌, List, [], ◌∷◌, ◌++◌, Option, none, some,
  if◌then◌else◌, Str, codes, str_eq, is_empty, has, keep, length, find_elem?, trim, to_lower_case,
  includes, ◌or◌,
}

-- A missing text is empty, and so is `null`.
pub record Row : Type 0 where
  pub name : Str
  pub key : Str

pub data CountState : Type 0 where
  loaded : ℕ → CountState
  unknown : CountState
  other_state : CountState

pub record KindGroup : Type 0 where
  pub kind : Str
  pub resource_id : Str
  pub virtual_flag : Bool
  pub discovered_only : Bool
  pub discovered : Bool
  pub builtin : Bool
  pub access_state : Str
  pub match_count : ℕ
  pub count_state : CountState
  -- the `row` of each node
  pub items : List (Option Row)

pub record Category : Type 0 where
  pub id : Str
  pub kinds : List KindGroup

-- A tree is its categories; no tree has none.
abbrev pub Tree : Type 0
Tree = List Category

pub record Selection : Type 0 where
  pub group_id : Str
  pub kind : Str
  pub resource_id : Str

abbrev pub category_overview_kind : Str
category_overview_kind = codes "__overview__"

unfoldable pub is_category_overview : Str → Bool
is_category_overview kind = str_eq kind category_overview_kind

unfoldable pub category_supports_overview : Str → Bool
category_supports_overview id = str_eq id (codes "workloads")

unfoldable pub toggle_expanded_group : List Str → Str → List Str
toggle_expanded_group expanded group_id =
    if has expanded group_id
    then keep (λ g. not (str_eq g group_id)) expanded
    else expanded ++ group_id ∷ []

unfoldable pub expand_group : List Str → Str → List Str
expand_group expanded group_id =
    if is_empty group_id || has expanded group_id then expanded else expanded ++ group_id ∷ []

abbrev pub by_count : CountState → Str → Bool
by_count (loaded n) access = ltb 0 n
by_count unknown access = false
by_count other_state access = not (str_eq access (codes "unavailable"))

unfoldable pub is_visible : Bool → KindGroup → Bool
is_visible show_empty k =
    if k.virtual_flag
    then true
    else if k.discovered_only && not k.discovered
    then false
    else if k.builtin && not k.discovered_only
    then true
    else if not k.discovered
    then false
    else if show_empty
    then true
    else if str_eq k.access_state (codes "forbidden")
    then true
    else if ltb 0 k.match_count
    then true
    else by_count k.count_state k.access_state

unfoldable pub visible_categories : Tree → Bool → Tree
unfolding is_visible
visible_categories [] show_empty = []
visible_categories (cat ∷ cats) show_empty =
    let kinds = keep (is_visible show_empty) cat.kinds in
    let rest = visible_categories cats show_empty in
    if ltb 0 (length kinds) then record cat { kinds = kinds } ∷ rest else rest

abbrev pub present_rows : List (Option Row) → List Row
present_rows [] = []
present_rows (none ∷ rows) = present_rows rows
present_rows (some r ∷ rows) = r ∷ present_rows rows

abbrev pub find_kind : Str → Str → List KindGroup → Option KindGroup
find_kind kind resource_id kinds =
    find_elem?
      (λ (k : KindGroup).
        if is_empty resource_id then str_eq k.kind kind else str_eq k.resource_id resource_id)
      kinds

abbrev pub find_category : Str → Tree → Option Category
find_category group_id tree = find_elem? (λ (c : Category). str_eq c.id group_id) tree

abbrev pub or_kind : Option KindGroup → Option KindGroup → Option KindGroup
or_kind none k = k
or_kind (some j) k = some j

abbrev pub rows_of : Option KindGroup → List Row
rows_of none = []
rows_of (some k) = present_rows k.items

abbrev pub rows_in : Str → Str → Option Category → List Row
rows_in kind resource_id none = []
rows_in kind resource_id (some cat) =
    rows_of (or_kind (find_kind kind resource_id cat.kinds) (find_kind kind [] cat.kinds))

unfoldable pub entities_for_kind : Tree → Str → Str → Str → List Row
unfolding is_category_overview
entities_for_kind tree group_id kind resource_id =
    if is_empty group_id || is_empty kind || is_category_overview kind
    then []
    else rows_in kind resource_id (find_category group_id tree)

unfoldable pub filter_entities_by_search : List Row → Str → List Row
filter_entities_by_search entities query =
    let q = to_lower_case (trim query) in
    if is_empty q
    then entities
    else keep (λ (row : Row). includes (to_lower_case (row.name ++ codes " " ++ row.key)) q)
        entities

abbrev pub no_selection : Selection
no_selection = record { group_id = []; kind = []; resource_id = [] }

abbrev pub first_overview : Tree → Option Selection
first_overview [] = none
first_overview (cat ∷ cats) =
    if category_supports_overview cat.id
    then some (record { group_id = cat.id; kind = category_overview_kind; resource_id = [] })
    else first_overview cats

abbrev pub select_kind : Str → KindGroup → Selection
select_kind id k = record { group_id = id; kind = k.kind; resource_id = k.resource_id }

abbrev pub first_match_in : Str → List KindGroup → Option Selection
first_match_in id [] = none
first_match_in id (k ∷ ks) =
    if ltb 0 k.match_count then some (select_kind id k) else first_match_in id ks

abbrev pub or_selection : Option Selection → Option Selection → Option Selection
or_selection none s = s
or_selection (some t) s = some t

abbrev pub first_match : Tree → Option Selection
first_match [] = none
first_match (cat ∷ cats) = or_selection (first_match_in cat.id cat.kinds) (first_match cats)

abbrev pub first_kind : Tree → Selection
first_kind [] = no_selection
first_kind (cat ∷ cats) = elim cat.kinds [ [] ↦ no_selection | k ∷ ks ↦ select_kind cat.id k ]

abbrev pub selection_or : Option Selection → Selection → Selection
selection_or none s = s
selection_or (some t) s = t

unfoldable pub pick_default_kind_selection : Tree → Bool → Selection
unfolding visible_categories category_supports_overview
pick_default_kind_selection tree show_empty =
    let visible = visible_categories tree show_empty in
    selection_or (or_selection (first_overview visible) (first_match visible)) (first_kind tree)

abbrev pub has_category : Option Category → Bool
has_category none = false
has_category (some c) = true

abbrev pub kind_in : Str → Str → Option Category → Option KindGroup
kind_in kind resource_id none = none
kind_in kind resource_id (some cat) = find_kind kind resource_id cat.kinds

-- The kind that a selection names, where it names one.
unfoldable pub kind_group_of : Tree → Selection → Option KindGroup
kind_group_of tree s =
    if is_empty s.group_id || is_empty s.kind
    then none
    else kind_in s.kind s.resource_id (find_category s.group_id tree)

-- The selection is an overview that the tree has.
unfoldable pub is_overview_of : Tree → Selection → Bool
unfolding is_category_overview category_supports_overview
is_overview_of tree s =
    not (is_empty s.group_id)
    && is_category_overview s.kind
    && has_category (find_category s.group_id tree)
    && category_supports_overview s.group_id

abbrev pub keep_kind : Selection → Option KindGroup → Selection → Selection
keep_kind s none default = default
keep_kind s (some k) default = record s { resource_id = k.resource_id or s.resource_id }

unfoldable pub resolve_kind_selection : Tree → Selection → Bool → Selection
unfolding is_overview_of kind_group_of pick_default_kind_selection
resolve_kind_selection tree prev show_empty =
    if is_overview_of tree prev
    then record prev { kind = category_overview_kind; resource_id = [] }
    else keep_kind prev (kind_group_of tree prev) (pick_default_kind_selection tree show_empty)

unfoldable pub entity_search_placeholder : Str → Str → Str
unfolding is_category_overview
entity_search_placeholder kind label =
    if is_category_overview kind
    then codes "Overview"
    else if not (is_empty label)
    then codes "Search " ++ to_lower_case label ++ codes "…"
    else if is_empty kind
    then codes "Search resources…"
    else codes "Search " ++ to_lower_case (kind ++ codes "s") ++ codes "…"

-- What the loops of `flattenTreeEntities` have seen and put out.
abbrev pub visit_row : Option Row → List Str × List Row → List Str × List Row
visit_row none s = s
visit_row (some r) (seen, out) =
    if is_empty r.key || has seen r.key then (seen, out) else (r.key ∷ seen, out ++ r ∷ [])

abbrev pub visit_items : List (Option Row) → List Str × List Row → List Str × List Row
visit_items [] s = s
visit_items (i ∷ is) s = visit_items is (visit_row i s)

abbrev pub visit_kinds : List KindGroup → List Str × List Row → List Str × List Row
visit_kinds [] s = s
visit_kinds (k ∷ ks) s = visit_kinds ks (visit_items k.items s)

abbrev pub visit_categories : Tree → List Str × List Row → List Str × List Row
visit_categories [] s = s
visit_categories (c ∷ cs) s = visit_categories cs (visit_kinds c.kinds s)

unfoldable pub flatten_tree_entities : Tree → List Row
flatten_tree_entities tree = (visit_categories tree ([], [])).1
