-- ===== src/Browse/Tests.antt =====
-- The navigation of resources on a concrete tree.
use klew.Base.{
  ◌≡◌, refl, true, false, [], ◌∷◌, Option, none, some, Str, codes, str_eq, has, uniq, uniq_from,
}
use klew.Browse.{
  Row, loaded, unknown, KindGroup, Tree, Selection, no_selection, is_category_overview,
  category_supports_overview, toggle_expanded_group, is_visible, visible_categories,
  entities_for_kind, pick_default_kind_selection, kind_group_of, is_overview_of,
  resolve_kind_selection, flatten_tree_entities,
}
use klew.Browse.Entries.{keys, item_keys, tree_items, keys-flatten_tree_entities}

program : Unit {0}
unfolding str_eq has uniq uniq_from is_category_overview category_supports_overview is_visible
    visible_categories entities_for_kind pick_default_kind_selection kind_group_of is_overview_of
    resolve_kind_selection flatten_tree_entities toggle_expanded_group
program = tt

abbrev row : Str → Option Row
row k = some (record { name = k; key = k })

abbrev services : KindGroup
services = record {
  kind = codes "Service";
  resource_id = codes "v1/services";
  virtual_flag = false;
  discovered_only = false;
  discovered = true;
  builtin = false;
  access_state = codes "allowed";
  match_count = 2;
  count_state = loaded 2;
  items = row (codes "b") ∷ none ∷ row (codes "a") ∷ row (codes "b") ∷ [];
}

abbrev routes : KindGroup
routes = record services {
  kind = codes "Route";
  resource_id = codes "r/routes";
  match_count = 0;
  count_state = unknown;
  items = row (codes "a") ∷ row [] ∷ row (codes "c") ∷ [];
}

abbrev tree : Tree
tree = record { id = codes "network"; kinds = routes ∷ services ∷ [] } ∷ []

abbrev chosen : Selection
chosen = record { group_id = codes "network"; kind = codes "Route"; resource_id = [] }

flattened : keys (flatten_tree_entities tree) ≡ codes "a" ∷ codes "c" ∷ codes "b" ∷ []
unfolding program
flattened = refl

-- A kind whose count is not known is hidden, and the default is the first kind with matches.
defaults : resolve_kind_selection tree no_selection false ≡ record {
  group_id = codes "network";
  kind = codes "Service";
  resource_id = codes "v1/services";
}
unfolding program
defaults = refl

keys-flatten_tree_entities_example :
    keys (flatten_tree_entities tree) ≡ uniq (item_keys (tree_items tree))
keys-flatten_tree_entities_example = keys-flatten_tree_entities tree

chosen_there : kind_group_of tree chosen ≡ some routes
unfolding program
chosen_there = refl
