-- ===== src/Overview/Search.antt =====
-- The search of `buildRelationshipPath` gives the path of the first object that has one.
use klew.Base.{
  if_both, lookup, ◌≡◌, refl, sym, ap, ◌∙◌, subst, true, false, ◌||◌, List, [], ◌∷◌, Option, none,
  some, leb, length, if◌then◌else◌, Str, str_eq, str_eq_iff, is_empty, has, Free, split_unique,
  Bool-cases, Option-cases, inl, inr, arith,
}
use klew.Overview.{
  Node, Edge, Step, unshift_node, climb, set_via, parent_map_from, by_id_from, ownership_chain,
  walk_ownership_path,
}
use klew.Overview.Climb.{walk_ownership_path-Tops}
use klew.Overview.Path.{
  Anchor, PathStep, find_node_id, format_relationship_path, anchor_candidates, anchor_key,
  walk_from, try_id, first_path, build_relationship_path,
}

-- No kind holds the `/` that parts it from the name.
abbrev pub KindsFree : List Anchor → Type 0
KindsFree [] = Unit {0}
KindsFree (a ∷ anchors) = Free 47 a.kind × KindsFree anchors

abbrev pub first_some {ℓ κ} : {A : Type ℓ} {B : Type κ} → (A → Option B) → List A → Option B
first_some f [] = none
first_some f (x ∷ xs) = elim (f x) [ none ↦ first_some f xs | some y ↦ some y ]

module _ {ℓ κ} {A : Type ℓ} {B : Type κ} (f : A → Option B) (x : A) (xs : List A) where
  first_some_skip : f x ≡ none → first_some f (x ∷ xs) ≡ first_some f xs
  first_some_skip e = rw (first_some, e) refl

  first_some_here : {y : B} → f x ≡ some y → first_some f (x ∷ xs) ≡ some y
  first_some_here {y = y} e = rw (first_some, e) refl

has_later :
    (xs : List Str) (x y : Str) → str_eq x y ≡ false → has (x ∷ xs) y ≡ true → has xs y ≡ true
unfolding has
has_later xs x y other h = ground arith

anchor_key-injective :
    (a b : Anchor) → Free 47 a.kind → Free 47 b.kind → anchor_key a ≡ anchor_key b → a ≡ b
anchor_key-injective a b f g e =
    let (kinds, names) = split_unique 47 a.kind b.kind a.name b.name f g e in
    λ i. record { kind = kinds i; name = names i }

-- A path of two elements or more.
abbrev long_path : Option (List Step) → Option (List PathStep)
long_path none = none
long_path (some path) = if leb 2 (length path) then some (format_relationship_path path) else none

module _ (nodes : List Node) (edges : List Edge) where
  abbrev path_at : Option Str → Option (List PathStep)
  path_at none = none
  path_at (some id) = if is_empty id then none else long_path (walk_from nodes edges id)

  -- The path of one object alone.
  abbrev pub path_of : Anchor → Option (List PathStep)
  path_of a = path_at (find_node_id nodes a.kind a.name)

  walk_total : (id : Str) → (path : List Step) × (walk_from nodes edges id ≡ some path)
  unfolding walk_from
  walk_total id = let (ids, u, t, e) = walk_ownership_path-Tops nodes edges id in (_, e)

  try_id_lem :
      (o : Option Str) (later : Option (Option (List PathStep)))
      → try_id nodes edges later o ≡ elim (path_at o) [ none ↦ later | some p ↦ some (some p) ]
  try_id_lem none later = refl
  try_id_lem (some id) later =
      let (path, e) = walk_total id in
      elim (Bool-cases (is_empty id)) [
        | inl empty ↦ rw empty refl
        | inr there ↦ elim (Bool-cases (leb 2 (length path))) [
          | inl long ↦ rw (there, e, long) refl
          | inr short ↦ rw (there, e, short) refl
        ]
      ]

  -- Nothing that was tried has a path.
  abbrev TriedNone : List Str → Type 0
  TriedNone seen = (b : Anchor) → Free 47 b.kind → has seen (anchor_key b) ≡ true → path_of b ≡ none

  first_path_lem :
      (seen : List Str) (anchors : List Anchor)
      → TriedNone seen
      → KindsFree anchors
      → first_path nodes edges seen anchors ≡ some (first_some path_of anchors)
  unfolding first_path
  first_path_lem seen [] tried free = refl
  first_path_lem seen (a ∷ anchors) tried (f, free) = elim (Bool-cases (has seen (anchor_key a))) [
    | inl again ↦
        rw (first_path, again, first_path_lem seen anchors tried free)
          (ap some (sym (first_some_skip path_of a anchors (tried a f again))))
    | inr new ↦ elim (Option-cases (path_of a)) [
      | inl no_path ↦
          rw
            (
              first_path,
              new,
              first_path_lem (anchor_key a ∷ seen) anchors (tried_more no_path) free,
            )
            (try_id_lem (find_node_id nodes a.kind a.name) _
              ∙ rw no_path (ap some (sym (first_some_skip path_of a anchors no_path))))
      | inr (p, found) ↦
          rw (first_path, new)
            (try_id_lem (find_node_id nodes a.kind a.name) _
              ∙ rw found (ap some (sym (first_some_here path_of a anchors found))))
    ]
  ]
    where
      tried_more : path_of a ≡ none → TriedNone (anchor_key a ∷ seen)
      tried_more no_path b g h = elim (Bool-cases (str_eq (anchor_key a) (anchor_key b))) [
        | inl same ↦
            subst (λ (c : Anchor). path_of c ≡ none)
              (anchor_key-injective a b f g ((str_eq_iff _ _).0 same)) no_path
        | inr other ↦ tried b g (has_later seen _ _ other h)
      ]

none_seen : (x : Str) → has [] x ≡ true → ⊥
unfolding has
none_seen x h = ground arith

first_some-none {ℓ κ} :
    {A : Type ℓ} {B : Type κ} (f : A → Option B) (xs : List A)
    → ((x : A) → f x ≡ none)
    → first_some f xs ≡ none
first_some-none f [] h = refl
first_some-none f (x ∷ xs) h = first_some_skip f x xs (h x) ∙ first_some-none f xs h

-- Without an edge a chain has one element at most.
no_edges : (nodes : List Node) (id : Str) → long_path (walk_from nodes [] id) ≡ none
unfolding walk_from walk_ownership_path ownership_chain parent_map_from climb has lookup set_via
no_edges nodes [] = refl
no_edges nodes (c ∷ cs) =
    elim (lookup (c ∷ cs) (by_id_from [] nodes))
      as (λ (o : Option Node). long_path (some (set_via [] (unshift_node o []))) ≡ none) [
        | none ↦ refl
        | some n ↦ refl
      ]

path_of_empty :
    (nodes : List Node) (edges : List Edge)
    → (leb (length nodes) 0 || leb (length edges) 0) ≡ true
    → (a : Anchor) → path_of nodes edges a ≡ none
unfolding find_node_id
path_of_empty [] edges e a = refl
path_of_empty (n ∷ ns) [] e a =
    elim (find_node_id (n ∷ ns) a.kind a.name)
      as (λ (o : Option Str). path_at (n ∷ ns) [] o ≡ none) [
        | none ↦ refl
        | some id ↦
            if_both (λ (o : Option (List PathStep)). o ≡ none) (is_empty id) refl
              (no_edges (n ∷ ns) id)
      ]
path_of_empty (n ∷ ns) (d ∷ ds) e a = absurd (ground arith)

-- The search returns, and gives the path of the first candidate that has one, so that nothing is
-- lost with a candidate whose kind and name came before, if no kind holds a `/`.
pub build_relationship_path-first :
    (nodes : List Node) (edges : List Edge) (worst : Option Anchor) (rows : List Anchor)
    → KindsFree (anchor_candidates worst nodes rows)
    → build_relationship_path nodes edges worst rows
      ≡ some (first_some (path_of nodes edges) (anchor_candidates worst nodes rows))
unfolding build_relationship_path
build_relationship_path-first nodes edges worst rows free =
    elim (Bool-cases (leb (length nodes) 0 || leb (length edges) 0)) [
      | inl empty ↦ rw empty (
          ap some (
            sym (
              first_some-none (path_of nodes edges) (anchor_candidates worst nodes rows)
                (path_of_empty nodes edges empty))))
      | inr there ↦ rw there (
          first_path_lem nodes edges [] (anchor_candidates worst nodes rows)
            (λ b g h. absurd (none_seen (anchor_key b) h)) free)
    ]
