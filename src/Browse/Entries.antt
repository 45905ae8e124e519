-- ===== src/Browse/Entries.antt =====
-- The rows that `flattenTreeEntities` of lib/resourceNavigation.js puts out.
use klew.Base.{
  ◌≡◌, refl, sym, ap, ◌∙◌, List, [], ◌∷◌, ◌++◌, append-nil, map, Option, none, some, if◌then◌else◌,
  Str, is_empty, has, uniq, uniq_from, uniq_from_old, uniq_from_new, Bool-cases, inl, inr,
}
use klew.Browse.{
  Row, KindGroup, Tree, visit_row, visit_items, visit_kinds, visit_categories,
  flatten_tree_entities,
}

abbrev pub keys : List Row → List Str
keys rows = map (λ (r : Row). r.key) rows

-- The keys of the rows, those that are missing or empty left out.
abbrev pub item_keys : List (Option Row) → List Str
item_keys [] = []
item_keys (none ∷ is) = item_keys is
item_keys (some r ∷ is) = if is_empty r.key then item_keys is else r.key ∷ item_keys is

abbrev pub kind_items : List KindGroup → List (Option Row)
kind_items [] = []
kind_items (k ∷ ks) = k.items ++ kind_items ks

-- All rows of the tree, in its order.
abbrev pub tree_items : Tree → List (Option Row)
tree_items [] = []
tree_items (c ∷ cs) = kind_items c.kinds ++ tree_items cs

visit_items-append :
    (is js : List (Option Row)) (s : List Str × List Row)
    → visit_items (is ++ js) s ≡ visit_items js (visit_items is s)
visit_items-append [] js s = refl
visit_items-append (i ∷ is) js s = visit_items-append is js (visit_row i s)

visit_kinds-items :
    (ks : List KindGroup) (s : List Str × List Row)
    → visit_kinds ks s ≡ visit_items (kind_items ks) s
visit_kinds-items [] s = refl
visit_kinds-items (k ∷ ks) s =
    visit_kinds-items ks (visit_items k.items s)
    ∙ sym (visit_items-append k.items (kind_items ks) s)

visit_categories-items :
    (t : Tree) (s : List Str × List Row) → visit_categories t s ≡ visit_items (tree_items t) s
visit_categories-items [] s = refl
visit_categories-items (c ∷ cs) s =
    visit_categories-items cs (visit_kinds c.kinds s)
    ∙ ap (visit_items (tree_items cs)) (visit_kinds-items c.kinds s)
    ∙ sym (visit_items-append (kind_items c.kinds) (tree_items cs) s)

keys-snoc :
    (rows : List Row) (r : Row) (ks : List Str)
    → keys (rows ++ r ∷ []) ++ ks ≡ keys rows ++ r.key ∷ ks
keys-snoc [] r ks = refl
keys-snoc (q ∷ rows) r ks = ap (λ (l : List Str). q.key ∷ l) (keys-snoc rows r ks)

keys-visit_items :
    (is : List (Option Row)) (seen : List Str) (out : List Row)
    → keys (visit_items is (seen, out)).1 ≡ keys out ++ uniq_from seen (item_keys is)
keys-visit_items [] seen out = unfold uniq_from in sym (append-nil (keys out))
keys-visit_items (none ∷ is) seen out = keys-visit_items is seen out
keys-visit_items (some r ∷ is) seen out = elim (Bool-cases (is_empty r.key)) [
  | inl none_there ↦
      same_after (seen, out) (rw none_there refl) (rw none_there (keys-visit_items is seen out))
  | inr there ↦ elim (Bool-cases (has seen r.key)) [
    | inl old ↦
        same_after (seen, out) (rw (there, old) refl)
          (rw (there, uniq_from_old seen r.key (item_keys is) old) (keys-visit_items is seen out))
    | inr new ↦
        same_after (r.key ∷ seen, out ++ r ∷ []) (rw (there, new) refl)
          (rw (there, uniq_from_new seen r.key (item_keys is) new)
            (keys-visit_items is (r.key ∷ seen) (out ++ r ∷ [])
              ∙ keys-snoc out r (uniq_from (r.key ∷ seen) (item_keys is))))
  ]
]
  where
    same_after :
        (s : List Str × List Row) {ks : List Str}
        → visit_row (some r) (seen, out) ≡ s
        → keys (visit_items is s).1 ≡ ks
        → keys (visit_items is (visit_row (some r) (seen, out))).1 ≡ ks
    same_after s e h = ap (λ (q : List Str × List Row). keys (visit_items is q).1) e ∙ h

-- The flattened tree has each key that is not empty once, at its first place in the tree.
pub keys-flatten_tree_entities :
    (tree : Tree) → keys (flatten_tree_entities tree) ≡ uniq (item_keys (tree_items tree))
unfolding flatten_tree_entities uniq
keys-flatten_tree_entities tree =
    ap (λ (s : List Str × List Row). keys s.1) (visit_categories-items tree ([], []))
    ∙ keys-visit_items (tree_items tree) [] []
