-- ===== src/Browse/Selected.antt =====
-- The selection of lib/resourceNavigation.js over several refreshes of the tree.
use klew.Base.{
  ◌≡◌, refl, sym, Bool, true, false, ◌||◌, List, [], ◌∷◌, Option, none, some, Str, is_empty, str_eq,
  str_eq_iff, str_eq_self, find_elem?, ◌or◌, ◌⊎◌, Bool-cases, inl, inr, arith,
}
use klew.Browse.{
  KindGroup, Category, Tree, Selection, category_overview_kind, is_category_overview, find_kind,
  find_category, kind_in, kind_group_of, is_overview_of, resolve_kind_selection,
}

module _ {ℓ} {A : Type ℓ} where
  find_elem?-holds : (p : A → Bool) (xs : List A) {x : A} → find_elem? p xs ≡ some x → p x ≡ true
  find_elem?-holds p [] e = absurd (ground arith)
  find_elem?-holds p (y ∷ ys) {x = x} e = elim (Bool-cases (p y)) [
    | inl here ↦ ground (arith, here)
    | inr there ↦ find_elem?-holds p ys {x = x} (ground (arith, there))
  ]

  -- Where one test finds an element that passes another, the other finds one.
  find_elem?-other :
      (p q : A → Bool) (xs : List A) {x : A}
      → find_elem? p xs ≡ some x
      → q x ≡ true
      → (y : A) × (find_elem? q xs ≡ some y) × (q y ≡ true)
  find_elem?-other p q [] e h = absurd (ground arith)
  find_elem?-other p q (y ∷ ys) {x = x} e h = elim (Bool-cases (q y)) [
    | inl here ↦ (y, rw here refl, here)
    | inr there ↦
        let not_here : p y ≡ false = ground (arith, there, h, e) in
        let (z, found, holds) = find_elem?-other p q ys {x = x} (ground (arith, not_here)) h in
        (z, rw there found, holds)
  ]

or-nonempty : (s t : Str) → is_empty s ≡ false → s or t ≡ s
or-nonempty [] t e = absurd (ground arith)
or-nonempty (c ∷ s) t e = refl

or-empty : (s t : Str) → is_empty s ≡ true → s or t ≡ t
or-empty [] t e = refl
or-empty (c ∷ s) t e = absurd (ground arith)

-- A kind that was found is found again by its own resource id, if it has one.
find_kind-again :
    (kind rid : Str) (ks : List KindGroup) (k : KindGroup)
    → find_kind kind rid ks ≡ some k
    → (j : KindGroup) × (find_kind kind (k.resource_id or rid) ks ≡ some j)
      × ((j.resource_id or (k.resource_id or rid)) ≡ (k.resource_id or rid))
find_kind-again kind rid ks k e = elim (Bool-cases (is_empty k.resource_id)) [
  | inl bare ↦ let same = or-empty k.resource_id rid bare in (k, rw same e, rw (same, same) refl)
  | inr named ↦
      let same = or-nonempty k.resource_id rid named in
      let (j, found, holds) =
        find_elem?-other _ (λ (i : KindGroup). str_eq i.resource_id k.resource_id) ks {x = k} e
          (str_eq_self k.resource_id) in
      let id_same : j.resource_id ≡ k.resource_id =
        (str_eq_iff j.resource_id k.resource_id).0 holds in
      (
        j,
        rw (same, named) found,
        rw (same, id_same, or-nonempty k.resource_id k.resource_id named) refl,
      )
]

kind_in-again :
    (kind rid : Str) (c : Option Category) (k : KindGroup)
    → kind_in kind rid c ≡ some k
    → (j : KindGroup) × (kind_in kind (k.resource_id or rid) c ≡ some j)
      × ((j.resource_id or (k.resource_id or rid)) ≡ (k.resource_id or rid))
kind_in-again kind rid none k e = absurd (ground arith)
kind_in-again kind rid (some c) k e = find_kind-again kind rid c.kinds k e

kind_group_of-again :
    (tree : Tree) (s : Selection) (k : KindGroup)
    → kind_group_of tree s ≡ some k
    → (j : KindGroup) × (kind_group_of tree
          (record s { resource_id = k.resource_id or s.resource_id })
        ≡ some j)
      × ((j.resource_id or (k.resource_id or s.resource_id)) ≡ (k.resource_id or s.resource_id))
unfolding kind_group_of
kind_group_of-again tree s k e = elim (Bool-cases (is_empty s.group_id || is_empty s.kind)) [
  | inl none_named ↦ absurd (ground (arith, none_named, e))
  | inr named ↦
      let (j, found, holds) =
        kind_in-again s.kind s.resource_id (find_category s.group_id tree) k
          (ground (arith, named, e)) in
      (j, rw named found, holds)
]

overview-again :
    (tree : Tree) (s : Selection)
    → is_overview_of tree s ≡ true
    → is_overview_of tree (record s { kind = category_overview_kind; resource_id = [] }) ≡ true
unfolding is_overview_of is_category_overview
overview-again tree s e = ground (arith, e, str_eq_self category_overview_kind)

-- The selection stays, and resolving it once more changes nothing.
record IsSettledAs (tree : Tree) (show_empty : Bool) (s t : Selection) : Type 0 where
  same_group : t.group_id ≡ s.group_id
  same_kind : t.kind ≡ s.kind
  again : resolve_kind_selection tree t show_empty ≡ t

resolve_kind_lem :
    (tree : Tree) (s : Selection) (show_empty : Bool) (k : KindGroup)
    → is_overview_of tree s ≡ false
    → kind_group_of tree s ≡ some k
    → IsSettledAs tree show_empty s (resolve_kind_selection tree s show_empty)
unfolding resolve_kind_selection is_overview_of
resolve_kind_lem tree s show_empty k other e =
    let (j, found, same) = kind_group_of-again tree s k e in
    rw (other, e)
      (record { same_group = refl; same_kind = refl; again = rw (other, found, same) refl })

overview_kind :
    (tree : Tree) (s : Selection) → is_overview_of tree s ≡ true → category_overview_kind ≡ s.kind
unfolding is_overview_of is_category_overview
overview_kind tree s e =
    let here : str_eq s.kind category_overview_kind ≡ true = ground (arith, e) in
    sym ((str_eq_iff s.kind category_overview_kind).0 here)

resolve_overview_lem :
    (tree : Tree) (s : Selection) (show_empty : Bool)
    → is_overview_of tree s ≡ true
    → IsSettledAs tree show_empty s (resolve_kind_selection tree s show_empty)
unfolding resolve_kind_selection
resolve_overview_lem tree s show_empty e = rw e (record {
  same_group = refl;
  same_kind = overview_kind tree s e;
  again = rw (overview-again tree s e) refl;
})

-- A selection of an overview or a kind that the tree has keeps its group and kind, and resolving it
-- once more changes nothing.
pub resolve-again :
    (tree : Tree) (s : Selection) (show_empty : Bool)
    → (is_overview_of tree s ≡ true) ⊎ ((k : KindGroup) × (kind_group_of tree s ≡ some k))
    → ((resolve_kind_selection tree s show_empty).group_id ≡ s.group_id)
      × ((resolve_kind_selection tree s show_empty).kind ≡ s.kind)
      × (resolve_kind_selection tree (resolve_kind_selection tree s show_empty) show_empty
          ≡ resolve_kind_selection tree s show_empty)
resolve-again tree s show_empty h = let r = resolve_lem h in (r.same_group, r.same_kind, r.again)
  where
    resolve_lem :
        (is_overview_of tree s ≡ true) ⊎ ((k : KindGroup) × (kind_group_of tree s ≡ some k))
        → IsSettledAs tree show_empty s (resolve_kind_selection tree s show_empty)
    resolve_lem (inl e) = resolve_overview_lem tree s show_empty e
    resolve_lem (inr (k, e)) = elim (Bool-cases (is_overview_of tree s)) [
      | inl o ↦ resolve_overview_lem tree s show_empty o
      | inr other ↦ resolve_kind_lem tree s show_empty k other e
    ]
