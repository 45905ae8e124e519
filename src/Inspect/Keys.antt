-- ===== src/Inspect/Keys.antt =====
-- Inspect keys that are built and parsed, of lib/matches.js.
use klew.Base.{
  ◌≡◌, refl, true, false, not, ◌&&◌, [], ◌∷◌, ◌++◌, some, if◌then◌else◌, Str, is_empty, join, trim,
  trim_idem, if_both, Bool-cases, inl, inr, arith,
}
use klew.Inspect.{
  normalize_inspect_kind, build_inspect_key, is_cluster_scoped, key_of, Parsed, split_key,
  key_parts, parse_inspect_key,
}
use klew.Inspect.Kinds.{no_slash, no_slash-normalize, normalize_inspect_kind_idem, all-trim}

split_key-one : (s : Str) → no_slash s ≡ true → split_key s ≡ s ∷ []
unfolding split_key
split_key-one [] h = refl
split_key-one (c ∷ s) h = ground (arith, split_key-one s)

split_key-slash : (s t : Str) → no_slash s ≡ true → split_key (s ++ 47 ∷ t) ≡ s ∷ split_key t
unfolding split_key
split_key-slash [] t h = refl
split_key-slash (c ∷ s) t h = ground (arith, split_key-slash s t)

-- A kind, a name and a namespace as they stand in a key.
module _ (k n : Str) (k_there : is_empty k ≡ false) (n_there : is_empty n ≡ false)
    (k_plain : no_slash k ≡ true) (n_plain : no_slash n ≡ true) where
  parts_short : key_parts (k ++ 47 ∷ n) ≡ k ∷ n ∷ []
  parts_short = rw (split_key-slash k n k_plain, split_key-one n n_plain, k_there, n_there) refl

  parts_long :
      (ns : Str)
      → is_empty ns ≡ false
      → no_slash ns ≡ true
      → key_parts (k ++ 47 ∷ (ns ++ 47 ∷ n)) ≡ k ∷ ns ∷ n ∷ []
  parts_long ns there plain =
      rw
        (
          split_key-slash k (ns ++ 47 ∷ n) k_plain,
          split_key-slash ns n plain,
          split_key-one n n_plain,
          k_there,
          n_there,
          there,
        )
        refl

  -- A kind, a name and a namespace that are normal stand in the key that they make.
  module _ (k_normal : normalize_inspect_kind k ≡ k) (n_normal : trim n ≡ n) where
    build_normal : (ns : Str) → trim ns ≡ ns → build_inspect_key k n ns ≡ key_of k n ns
    unfolding build_inspect_key
    build_normal ns e = rw (k_normal, n_normal, e, k_there, n_there) refl

    parse_short :
        parse_inspect_key (k ++ 47 ∷ n)
        ≡ some (record { kind = k; name = n; namespace = []; key = k ++ 47 ∷ n })
    unfolding parse_inspect_key trim
    parse_short = rw (parts_short, k_normal, k_there, build_normal [] refl) refl

    parse_long :
        (ns : Str)
        → is_empty ns ≡ false
        → no_slash ns ≡ true
        → is_cluster_scoped k ≡ false
        → build_inspect_key k n ns ≡ k ++ 47 ∷ (ns ++ 47 ∷ n)
        → parse_inspect_key (k ++ 47 ∷ (ns ++ 47 ∷ n))
          ≡ some (record { kind = k; name = n; namespace = ns; key = k ++ 47 ∷ (ns ++ 47 ∷ n) })
    unfolding parse_inspect_key join
    parse_long ns there plain other built =
        rw (parts_long ns there plain, k_normal, k_there, other, built) refl

    parse-key_of :
        (ns : Str)
        → trim ns ≡ ns
        → no_slash ns ≡ true
        → parse_inspect_key (key_of k n ns)
          ≡ some (record {
            kind = k;
            name = n;
            namespace = if is_cluster_scoped k then [] else ns;
            key = key_of k n ns;
          })
    parse-key_of [] e plain = elim (Bool-cases (is_cluster_scoped k)) [
      | inl cluster ↦ rw cluster parse_short
      | inr other ↦ rw other parse_short
    ]
    parse-key_of (c ∷ ns) e plain = elim (Bool-cases (is_cluster_scoped k)) [
      | inl cluster ↦ rw cluster parse_short
      | inr other ↦
          let built : build_inspect_key k n (c ∷ ns) ≡ k ++ 47 ∷ ((c ∷ ns) ++ 47 ∷ n) =
            rw (build_normal (c ∷ ns) e, other) refl in
          rw other (parse_long (c ∷ ns) refl plain other built)
    ]

-- A kind, a name and a namespace without `/`, of which the first two are not blank.
pub record IsPlain (kind name namespace : Str) : Type 0 where
  pub kind_plain : no_slash kind ≡ true
  pub name_plain : no_slash name ≡ true
  pub namespace_plain : no_slash namespace ≡ true
  pub kind_there : is_empty (normalize_inspect_kind kind) ≡ false
  pub name_there : is_empty (trim name) ≡ false

-- What the key of a kind, a name and a namespace stands for.
abbrev pub meant : Str → Str → Str → Parsed
meant kind name namespace = record {
  kind = normalize_inspect_kind kind;
  name = trim name;
  namespace = if is_cluster_scoped (normalize_inspect_kind kind) then [] else trim namespace;
  key = build_inspect_key kind name namespace;
}

-- A key that was built is parsed into the kind that is meant, the trimmed name and the trimmed
-- namespace, if the kind has one, with that key.
pub parse-build_inspect_key :
    (kind name namespace : Str)
    → IsPlain kind name namespace
    → parse_inspect_key (build_inspect_key kind name namespace) ≡ some (meant kind name namespace)
unfolding build_inspect_key
parse-build_inspect_key kind name namespace v =
    rw (v.kind_there, v.name_there)
      (parse-key_of (normalize_inspect_kind kind) (trim name) v.kind_there v.name_there
        (no_slash-normalize kind v.kind_plain) (all-trim _ name v.name_plain)
        (normalize_inspect_kind_idem kind) (trim_idem name) (trim namespace) (trim_idem namespace)
        (all-trim _ namespace v.namespace_plain))

pub build_inspect_key_there :
    (kind name namespace : Str)
    → IsPlain kind name namespace
    → is_empty (build_inspect_key kind name namespace) ≡ false
unfolding build_inspect_key
build_inspect_key_there kind name namespace v =
    rw (v.kind_there, v.name_there) (append_there (normalize_inspect_kind kind) v.kind_there)
  where
    append_there :
        (k : Str) → is_empty k ≡ false → is_empty (key_of k (trim name) (trim namespace)) ≡ false
    append_there [] e = absurd (ground arith)
    append_there (c ∷ k) e =
        if_both (λ (s : Str). is_empty s ≡ false)
          (not (is_empty (trim namespace)) && not (is_cluster_scoped (c ∷ k))) refl refl
