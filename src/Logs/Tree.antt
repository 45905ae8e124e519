-- ===== src/Logs/Tree.antt =====
-- The tree of lib/drain.js: from the first tokens of a message to the places of its clusters.
use klew.Base.{
  ℕ, zero, suc, ◌≤◌, ◌≡◌, refl, leb, str_eq_iff, str_eq_self, Bool, false, ◌&&◌, ◌||◌, List, [],
  ◌∷◌, if◌then◌else◌, Str, codes, str_eq, is_empty, not, all, arith, if_both,
}

abbrev pub drain_wildcard : Str
drain_wildcard = codes "***"

abbrev pub is_digit : ℕ → Bool
is_digit c = leb 48 c && leb c 57

unfoldable pub token_key : Str → Str
token_key t =
    if str_eq t drain_wildcard
    then drain_wildcard
    else if not (is_empty t) && all is_digit t
    then drain_wildcard
    else t

-- `{ children, clusters }`; the map of children is a chain in insertion order.
mutual
  pub data Node : Type 0 where
    node : Children → List ℕ → Node

  pub data Children : Type 0 where
    end : Children
    child : Str → Node → Children → Children

abbrev pub empty_node : Node
empty_node = node end []

-- `children.size`
abbrev pub size : Children → ℕ
size end = 0
size (child k n ch) = suc (size ch)

abbrev pub has_child : Str → Children → Bool
has_child key end = false
has_child key (child k n ch) = str_eq k key || has_child key ch

-- `children.get(key)`, a new node where there is none
abbrev pub child_at : Str → Children → Node
child_at key end = empty_node
child_at key (child k n ch) = if str_eq k key then n else child_at key ch

-- `children.set(key, n)`
abbrev pub put_child : Str → Node → Children → Children
put_child key n end = child key n end
put_child key n (child k old ch) =
    if str_eq k key then child k n ch else child k old (put_child key n ch)

-- The key under which the walk goes on.
abbrev pub layer_key : ℕ → Str → Children → Str
layer_key max_children t ch =
    let key = token_key t in
    if has_child key ch then key else if leb max_children (size ch) then drain_wildcard else key

-- The clusters of the node at the end of the walk.
unfoldable pub leaf_of : ℕ → ℕ → List Str → Node → List ℕ
unfolding token_key
leaf_of max_children zero ts (node ch ids) = ids
leaf_of max_children (suc l) [] (node ch ids) = ids
leaf_of max_children (suc l) (t ∷ ts) (node ch ids) =
    leaf_of max_children l ts (child_at (layer_key max_children t ch) ch)

-- The tree after the walk, which makes the nodes that are missing, where the last node's clusters
-- have become `new`.
unfoldable pub set_leaf : ℕ → ℕ → List Str → List ℕ → Node → Node
unfolding token_key
set_leaf max_children zero ts new (node ch ids) = node ch new
set_leaf max_children (suc l) [] new (node ch ids) = node ch new
set_leaf max_children (suc l) (t ∷ ts) new (node ch ids) =
    let key = layer_key max_children t ch in
    node (put_child key (set_leaf max_children l ts new (child_at key ch)) ch) ids

abbrev pub AllIds : (ℕ → Type 0) → List ℕ → Type 0
AllIds P [] = Unit
AllIds P (i ∷ ids) = P i × AllIds P ids

-- No node has more than `b` children beside the one of the wildcard.
abbrev pub Fits : ℕ → Children → Type 0
Fits b ch = size ch ≤ (if has_child drain_wildcard ch then suc b else b)

-- Every cluster of the tree satisfies `P`, and every node fits.
mutual
  pub NodeOk : (ℕ → Type 0) → ℕ → Node → Type 0
  NodeOk P b (node ch ids) = AllIds P ids × Fits b ch × ChildrenOk P b ch

  pub ChildrenOk : (ℕ → Type 0) → ℕ → Children → Type 0
  ChildrenOk P b end = Unit
  ChildrenOk P b (child k n ch) = NodeOk P b n × ChildrenOk P b ch

has_child-put :
    (key other : Str) (n : Node) (ch : Children)
    → has_child other (put_child key n ch) ≡ (has_child other ch || str_eq key other)
has_child-put key other n end = ground arith
has_child-put key other n (child k old ch) =
    ground (arith, has_child-put key other n ch, str_eq_iff k key)

size-put_child :
    (key : Str) (n : Node) (ch : Children)
    → size (put_child key n ch) ≡ (if has_child key ch then size ch else suc (size ch))
size-put_child key n end = refl
size-put_child key n (child k old ch) = ground (arith, size-put_child key n ch)

-- A full node gets a new child only under the wildcard.
layer_key-Fits :
    (b : ℕ) (t : Str) (n : Node) (ch : Children)
    → Fits b ch
    → Fits b (put_child (layer_key b t ch) n ch)
layer_key-Fits b t n ch h = ground (
  arith,
  size-put_child (layer_key b t ch) n ch,
  has_child-put (layer_key b t ch) drain_wildcard n ch,
  str_eq_self drain_wildcard,
)

pub AllIds-weaken :
    (P Q : ℕ → Type 0) (ids : List ℕ) → ((i : ℕ) → P i → Q i) → AllIds P ids → AllIds Q ids
AllIds-weaken P Q [] f h = tt
AllIds-weaken P Q (i ∷ ids) f (h, t) = (f i h, AllIds-weaken P Q ids f t)

mutual
  unfolding NodeOk ChildrenOk

  pub NodeOk-weaken :
      (P Q : ℕ → Type 0) (b : ℕ) (n : Node) → ((i : ℕ) → P i → Q i) → NodeOk P b n → NodeOk Q b n
  NodeOk-weaken P Q b (node ch ids) f (h, le, t) =
      (AllIds-weaken P Q ids f h, le, ChildrenOk-weaken P Q b ch f t)

  pub ChildrenOk-weaken :
      (P Q : ℕ → Type 0) (b : ℕ) (ch : Children)
      → ((i : ℕ) → P i → Q i)
      → ChildrenOk P b ch
      → ChildrenOk Q b ch
  ChildrenOk-weaken P Q b end f h = tt
  ChildrenOk-weaken P Q b (child k n ch) f (h, t) =
      (NodeOk-weaken P Q b n f h, ChildrenOk-weaken P Q b ch f t)

module _ (P : ℕ → Type 0) (b : ℕ) where
  pub empty_node-Ok : NodeOk P b empty_node
  unfolding NodeOk ChildrenOk
  empty_node-Ok = (tt, omega arith, tt)

  child_at-Ok : (key : Str) (ch : Children) → ChildrenOk P b ch → NodeOk P b (child_at key ch)
  unfolding ChildrenOk
  child_at-Ok key end h = empty_node-Ok
  child_at-Ok key (child k n ch) (h, t) =
      if_both (NodeOk P b) (str_eq k key) h (child_at-Ok key ch t)

  put_child-Ok :
      (key : Str) (n : Node) (ch : Children)
      → NodeOk P b n
      → ChildrenOk P b ch
      → ChildrenOk P b (put_child key n ch)
  unfolding ChildrenOk
  put_child-Ok key n end h t = (h, tt)
  put_child-Ok key n (child k old ch) h (o, t) =
      if_both (ChildrenOk P b) (str_eq k key) (h, t) (o, put_child-Ok key n ch h t)

  pub leaf_of-Ok : (l : ℕ) (ts : List Str) (n : Node) → NodeOk P b n → AllIds P (leaf_of b l ts n)
  unfolding leaf_of NodeOk
  leaf_of-Ok zero ts (node ch ids) (h, le, r) = h
  leaf_of-Ok (suc l) [] (node ch ids) (h, le, r) = h
  leaf_of-Ok (suc l) (t ∷ ts) (node ch ids) (h, le, r) =
      leaf_of-Ok l ts (child_at (layer_key b t ch) ch) (child_at-Ok (layer_key b t ch) ch r)

  pub set_leaf-Ok :
      (l : ℕ) (ts : List Str) (new : List ℕ) (n : Node)
      → AllIds P new
      → NodeOk P b n
      → NodeOk P b (set_leaf b l ts new n)
  unfolding set_leaf NodeOk
  set_leaf-Ok zero ts new (node ch ids) a (h, le, r) = (a, le, r)
  set_leaf-Ok (suc l) [] new (node ch ids) a (h, le, r) = (a, le, r)
  set_leaf-Ok (suc l) (t ∷ ts) new (node ch ids) a (h, le, r) =
      let key = layer_key b t ch in
      let n = set_leaf b l ts new (child_at key ch) in
      (
        h,
        layer_key-Fits b t n ch le,
        put_child-Ok key n ch (set_leaf-Ok l ts new (child_at key ch) a (child_at-Ok key ch r)) r,
      )
