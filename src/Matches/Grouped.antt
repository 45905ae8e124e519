-- ===== src/Matches/Grouped.antt =====
-- The groups of `groupRowsByKind` part the rows.
use mathlib.Core.Path.{ap₂}
use klew.Base.{
  ◌≡◌, refl, ap, sym, subst, ◌∙◌, Bool, true, false, not, ◌&&◌, ◌||◌, List, [], ◌∷◌, ◌++◌,
  append_assoc, append-nil, map, any, keep, length, leb, Str, str_eq, str_eq_iff, str_eq_self, has,
  Dict, lookup, insert, has_key, Distinct, lookup-insert, has_key-insert, insert-Distinct, Unique,
  uniq, uniq-Unique, Bool-cases, inl, inr, arith,
}
use klew.Matches.Groups.{
  kind_order, dict_keys, RowGroup, rows_at, by_kind_from, known_group, other_group, groups_of,
  group_rows_by_kind,
}
use klew.Matches.Agreement.{length-keep-any}

has-dict_keys {ℓ} : {V : Type ℓ} (d : Dict V) (k : Str) → has (dict_keys d) k ≡ has_key k d
unfolding has has_key
has-dict_keys [] k = refl
has-dict_keys ((j, v) ∷ d) k = ground (arith, has-dict_keys d k)

dict_keys-Unique {ℓ} : {V : Type ℓ} (d : Dict V) → Distinct d → Unique (dict_keys d)
dict_keys-Unique [] u = tt
dict_keys-Unique ((j, v) ∷ d) u = (has-dict_keys d j ∙ u.0, dict_keys-Unique d u.1)

has-keep : (p : Str → Bool) (xs : List Str) (k : Str) → has (keep p xs) k ≡ (has xs k && p k)
unfolding has
has-keep p [] k = refl
has-keep p (x ∷ xs) k = elim (Bool-cases (str_eq x k)) [
  | inl same ↦
      let e = (str_eq_iff x k).0 same in
      subst (λ y. has (keep p (x ∷ xs)) y ≡ (has (x ∷ xs) y && p y)) e
        (ground (arith, has-keep p xs x, str_eq_self x))
  | inr differ ↦ ground (arith, has-keep p xs k)
]

keep-Unique : (p : Str → Bool) (xs : List Str) → Unique xs → Unique (keep p xs)
keep-Unique p [] u = tt
keep-Unique p (x ∷ xs) u = ground (arith, has-keep p xs x, keep-Unique p xs)

has-both : (xs ys : List Str) (k : Str) → has (xs ++ ys) k ≡ (has xs k || has ys k)
unfolding has
has-both [] ys k = refl
has-both (x ∷ xs) ys k = ground (arith, has-both xs ys k)

append-Unique :
    (xs ys : List Str)
    → Unique xs
    → Unique ys
    → ((k : Str) → has xs k ≡ true → has ys k ≡ false)
    → Unique (xs ++ ys)
unfolding has
append-Unique [] ys u v h = v
append-Unique (x ∷ xs) ys u v h = (
  ground (arith, has-both xs ys x, h x, str_eq_self x),
  append-Unique xs ys u.1 v (λ k e. h k (ground arith)),
)

kind_order-Unique : Unique kind_order
unfolding has str_eq uniq
kind_order-Unique = uniq-Unique kind_order

module _ {ℓ} {R : Type ℓ} (kind_of : R → Str) where
  -- The rows of a kind.
  abbrev pub of_kind : Str → List R → List R
  of_kind k rows = keep (λ r. str_eq (kind_of r) k) rows

  rows_at-insert :
      (k : Str) (r : R) (d : Dict (List R))
      → rows_at kind_of k (insert (kind_of r) (rows_at kind_of (kind_of r) d ++ r ∷ []) d)
        ≡ rows_at kind_of k d ++ of_kind k (r ∷ [])
  rows_at-insert k r d = elim (Bool-cases (str_eq (kind_of r) k)) [
    | inl same ↦
        rw (lookup-insert (kind_of r) k (rows_at kind_of (kind_of r) d ++ r ∷ []) d, same)
          (ap (λ j. rows_at kind_of j d ++ r ∷ []) ((str_eq_iff (kind_of r) k).0 same))
    | inr differ ↦
        rw (lookup-insert (kind_of r) k (rows_at kind_of (kind_of r) d ++ r ∷ []) d, differ)
          (sym (append-nil _))
  ]

  of_kind-cons :
      (k : Str) (r : R) (rs : List R) → of_kind k (r ∷ []) ++ of_kind k rs ≡ of_kind k (r ∷ rs)
  of_kind-cons k r rs = elim (Bool-cases (str_eq (kind_of r) k)) [
    | inl same ↦ rw same refl
    | inr differ ↦ rw differ refl
  ]

  rows_at-by_kind :
      (k : Str) (d : Dict (List R)) (rows : List R)
      → rows_at kind_of k (by_kind_from kind_of d rows) ≡ rows_at kind_of k d ++ of_kind k rows
  unfolding by_kind_from
  rows_at-by_kind k d [] = sym (append-nil _)
  rows_at-by_kind k d (r ∷ rs) =
      rows_at-by_kind k (insert (kind_of r) (rows_at kind_of (kind_of r) d ++ r ∷ []) d) rs
      ∙ ap (λ xs. xs ++ of_kind k rs) (rows_at-insert k r d)
      ∙ append_assoc (rows_at kind_of k d) (of_kind k (r ∷ [])) (of_kind k rs)
      ∙ ap (λ xs. rows_at kind_of k d ++ xs) (of_kind-cons k r rs)

  has_key-by_kind :
      (k : Str) (d : Dict (List R)) (rows : List R)
      → has_key k (by_kind_from kind_of d rows)
        ≡ (has_key k d || any (λ r. str_eq (kind_of r) k) rows)
  unfolding by_kind_from
  has_key-by_kind k d [] = ground arith
  has_key-by_kind k d (r ∷ rs) =
      let d' = insert (kind_of r) (rows_at kind_of (kind_of r) d ++ r ∷ []) d in
      ground (
        arith,
        has_key-by_kind k d' rs,
        has_key-insert (kind_of r) k (rows_at kind_of (kind_of r) d ++ r ∷ []) d,
      )

  by_kind-Distinct :
      (d : Dict (List R)) (rows : List R) → Distinct d → Distinct (by_kind_from kind_of d rows)
  unfolding by_kind_from
  by_kind-Distinct d [] u = u
  by_kind-Distinct d (r ∷ rs) u =
      by_kind-Distinct (insert (kind_of r) (rows_at kind_of (kind_of r) d ++ r ∷ []) d) rs
        (insert-Distinct (kind_of r) (rows_at kind_of (kind_of r) d ++ r ∷ []) d u)

  abbrev pub group_kinds : List (RowGroup R) → List Str
  group_kinds gs = map (λ (g : RowGroup R). g.kind) gs

  -- Every group has all the rows of its kind, in their order.
  abbrev pub Filled : List R → List (RowGroup R) → Type ℓ
  Filled rows [] = Unit {ℓ}
  Filled rows (g ∷ gs) = (g.items ≡ of_kind g.kind rows) × Filled rows gs

  group_kinds-append :
      (gs hs : List (RowGroup R)) → group_kinds (gs ++ hs) ≡ group_kinds gs ++ group_kinds hs
  group_kinds-append [] hs = refl
  group_kinds-append (g ∷ gs) hs = ap (◌∷◌ g.kind) (group_kinds-append gs hs)

  Filled-append :
      (rows : List R) (gs hs : List (RowGroup R))
      → Filled rows gs
      → Filled rows hs
      → Filled rows (gs ++ hs)
  Filled-append rows [] hs e f = f
  Filled-append rows (g ∷ gs) hs e f = (e.0, Filled-append rows gs hs e.1 f)

  module _ (rows : List R) where
    abbrev dict : Dict (List R)
    dict = by_kind_from kind_of [] rows

    rows_at-dict : (k : Str) → rows_at kind_of k dict ≡ of_kind k rows
    rows_at-dict k = unfold lookup in rows_at-by_kind k [] rows

    Filled-known : (ks : List Str) → Filled rows (map (known_group kind_of dict) ks)
    Filled-known [] = tt
    Filled-known (k ∷ ks) = (rows_at-dict k, Filled-known ks)

    Filled-other : (ks : List Str) → Filled rows (map (other_group kind_of dict) ks)
    Filled-other [] = tt
    Filled-other (k ∷ ks) = (rows_at-dict k, Filled-other ks)

    kinds-known : (ks : List Str) → group_kinds (map (known_group kind_of dict) ks) ≡ ks
    kinds-known [] = refl
    kinds-known (k ∷ ks) = ap (◌∷◌ k) (kinds-known ks)

    kinds-other : (ks : List Str) → group_kinds (map (other_group kind_of dict) ks) ≡ ks
    kinds-other [] = refl
    kinds-other (k ∷ ks) = ap (◌∷◌ k) (kinds-other ks)

    -- There are rows of a kind exactly where the dictionary has it.
    abbrev pub is_there : Str → Bool
    is_there k = any (λ r. str_eq (kind_of r) k) rows

    has_key-dict : (k : Str) → has (dict_keys dict) k ≡ is_there k
    has_key-dict k = has-dict_keys dict k ∙ (unfold has_key in has_key-by_kind k [] rows)

    nonempty : (k : Str) → not (leb (length (rows_at kind_of k dict)) 0) ≡ is_there k
    nonempty k =
        rw (rows_at-dict k) (ground (arith, length-keep-any (λ r. str_eq (kind_of r) k) rows))

  -- The groups of rows have different kinds, a kind has one exactly if there are rows of it, and a
  -- group has all the rows of its kind, in their order.
  pub group_rows_by_kind-Filled :
      (rows : List R)
      → Unique (group_kinds (group_rows_by_kind kind_of rows))
        × ((k : Str) → has (group_kinds (group_rows_by_kind kind_of rows)) k ≡ is_there rows k)
        × Filled rows (group_rows_by_kind kind_of rows)
  unfolding group_rows_by_kind
  group_rows_by_kind-Filled rows =
      let p : Str → Bool = λ k. not (leb (length (rows_at kind_of k (dict rows))) 0) in
      let q : Str → Bool = λ k. not (has kind_order k) in
      let ks = keep p kind_order in
      let js = keep q (dict_keys (dict rows)) in
      let kinds : group_kinds (groups_of kind_of (dict rows)) ≡ ks ++ js =
        group_kinds-append (map (known_group kind_of (dict rows)) ks)
          (map (other_group kind_of (dict rows)) js)
        ∙ ap₂ ◌++◌ (kinds-known rows ks) (kinds-other rows js) in
      let distinct : Distinct (dict rows) = by_kind-Distinct [] rows tt in
      let unique =
        append-Unique ks js (keep-Unique p kind_order kind_order-Unique)
          (keep-Unique q (dict_keys (dict rows)) (dict_keys-Unique (dict rows) distinct))
          (λ k e. ground (arith, has-keep p kind_order k, has-keep q (dict_keys (dict rows)) k)) in
      (
        subst Unique (sym kinds) unique,
        (λ k.
            ap (λ xs. has xs k) kinds
            ∙ has-both ks js k
            ∙ ground (
              arith,
              has-keep p kind_order k,
              has-keep q (dict_keys (dict rows)) k,
              nonempty rows k,
              has_key-dict rows k,
            )),
        Filled-append rows (map (known_group kind_of (dict rows)) ks)
            (map (other_group kind_of (dict rows)) js) (Filled-known rows ks)
            (Filled-other rows js),
      )
