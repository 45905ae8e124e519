-- ===== src/Overview/Path.antt =====
-- `buildRelationshipPath` of lib/investigationOverview.js: the path of the first object that has one.
use klew.Base.{
  Bool, true, false, ◌&&◌, ◌||◌, List, [], ◌∷◌, ◌++◌, map, Option, none, some, leb, length, keep,
  find_elem?, if◌then◌else◌, Str, codes, str_eq, is_empty, has,
}
use klew.Overview.{Node, Edge, Step, by_id_from, walk_ownership_path}

-- What is read of a row, and an element of `anchorCandidates`.
pub record Anchor : Type 0 where
  pub kind : Str
  pub name : Str

pub record PathStep : Type 0 where
  pub kind : Str
  pub name : Str
  pub health : Str
  pub via : Option Str

abbrev pub or_null : Option Node → Option Str
or_null none = none
or_null (some n) = if is_empty n.id then none else some n.id

abbrev pub id_or : Option Str → Option Node → Option Str
id_or other none = other
id_or other (some n) = some n.id

unfoldable pub find_node_id : List Node → Str → Str → Option Str
find_node_id nodes kind name =
    id_or (or_null (find_elem? (λ (n : Node). str_eq n.name name) nodes))
      (find_elem? (λ (n : Node). str_eq n.kind kind && str_eq n.name name) nodes)

-- The elements after one whose `via` is given.
unfoldable pub format_from : Option Str → List Step → List PathStep
format_from before [] = []
format_from before (s ∷ rest) =
    record { kind = s.kind; name = s.name; health = s.health; via = before }
    ∷ format_from s.via rest

unfoldable pub format_relationship_path : List Step → List PathStep
unfolding format_from
format_relationship_path path = format_from none path

abbrev pub is_pod : Node → Bool
is_pod n = str_eq n.kind (codes "Pod")

abbrev pub is_failing_pod : Node → Bool
is_failing_pod n =
    is_pod n && (str_eq n.health (codes "critical") || str_eq n.health (codes "warning"))

abbrev pub anchor_at : Node → Anchor
anchor_at n = record { kind = n.kind; name = n.name }

abbrev pub worst_anchor : Option Anchor → List Anchor
worst_anchor none = []
worst_anchor (some a) = a ∷ []

abbrev pub anchor_candidates : Option Anchor → List Node → List Anchor → List Anchor
anchor_candidates worst nodes rows =
    worst_anchor worst
    ++ map anchor_at (keep is_failing_pod nodes)
    ++ map anchor_at (keep is_pod nodes)
    ++ rows

abbrev pub anchor_key : Anchor → Str
anchor_key a = a.kind ++ 47 ∷ a.name

-- What comes of the walk from one object; `rest` is what the loop gives after it. Of the two
-- levels, the outer one is missing if the fuel ran out, the inner one if there is no path.
abbrev pub take_path :
    Option (Option (List PathStep)) → Option (List Step) → Option (Option (List PathStep))
take_path rest none = none
take_path rest (some path) =
    if leb 2 (length path) then some (some (format_relationship_path path)) else rest

module _ (nodes : List Node) (edges : List Edge) where
  unfoldable pub walk_from : Str → Option (List Step)
  unfolding walk_ownership_path by_id_from
  walk_from id = walk_ownership_path id edges (by_id_from [] nodes)

  abbrev pub try_id : Option (Option (List PathStep)) → Option Str → Option (Option (List PathStep))
  try_id rest none = rest
  try_id rest (some id) = if is_empty id then rest else take_path rest (walk_from id)

  abbrev pub try_anchor : Option (Option (List PathStep)) → Anchor → Option (Option (List PathStep))
  try_anchor rest a = try_id rest (find_node_id nodes a.kind a.name)

  unfoldable pub first_path : List Str → List Anchor → Option (Option (List PathStep))
  unfolding walk_from find_node_id format_relationship_path
  first_path seen [] = some none
  first_path seen (a ∷ rest) = elim (has seen (anchor_key a)) [
    | true ↦ first_path seen rest
    | false ↦ try_anchor (first_path (anchor_key a ∷ seen) rest) a
  ]

  unfoldable pub build_relationship_path :
      Option Anchor → List Anchor → Option (Option (List PathStep))
  unfolding first_path
  build_relationship_path worst rows =
      if leb (length nodes) 0 || leb (length edges) 0
      then some none
      else first_path [] (anchor_candidates worst nodes rows)
