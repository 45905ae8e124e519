-- ===== src/Inspect/Tests.antt =====
-- Tests of the inspect keys, at concrete keys.
use klew.Base.{
  ◌↔◌, str_eq, to_lower_case, has, join, ◌≡◌, refl, true, false, [], none, some, codes, trim,
}
use klew.Inspect.{
  normalize_inspect_kind, build_inspect_key, parse_inspect_key, row_keys_match,
  canonical_inspect_key,
}
use klew.Inspect.Keys.{IsPlain, meant, parse-build_inspect_key}
use klew.Inspect.Matching.{Agree, namespace_of, row_keys_match-build}

test_alias :
    build_inspect_key (codes " Deploy") (codes "api") (codes "shop") ≡ codes "Deployment/shop/api"
unfolding build_inspect_key str_eq to_lower_case trim has join
test_alias = refl

test_cluster : build_inspect_key (codes "Node") (codes "n1") (codes "shop") ≡ codes "Node/n1"
unfolding build_inspect_key str_eq to_lower_case trim has join
test_cluster = refl

test_canonical :
    canonical_inspect_key (codes "pvc/data") (codes " shop ")
    ≡ codes "PersistentVolumeClaim/shop/data"
unfolding canonical_inspect_key str_eq to_lower_case trim has join
test_canonical = refl

test_bad : parse_inspect_key (codes "/ /x") ≡ none
unfolding parse_inspect_key str_eq to_lower_case trim has join
test_bad = refl

-- A key without a namespace matches those of two namespaces, which do not match.
test_between : row_keys_match (codes "Pod/a/x") (codes "Pod/x") ≡ true
unfolding row_keys_match str_eq to_lower_case trim has join
test_between = refl

test_between_other : row_keys_match (codes "Pod/x") (codes "Pod/b/x") ≡ true
unfolding row_keys_match str_eq to_lower_case trim has join
test_between_other = refl

test_not_transitive : row_keys_match (codes "Pod/a/x") (codes "Pod/b/x") ≡ false
unfolding row_keys_match str_eq to_lower_case trim has join
test_not_transitive = refl

deployment : IsPlain (codes " Deploy") (codes "api") (codes "shop")
unfolding normalize_inspect_kind trim to_lower_case str_eq
deployment = record {
  kind_plain = refl;
  name_plain = refl;
  namespace_plain = refl;
  kind_there = refl;
  name_there = refl;
}

deployment_short : IsPlain (codes "Deployment") (codes "api ") []
unfolding normalize_inspect_kind trim to_lower_case str_eq
deployment_short = record {
  kind_plain = refl;
  name_plain = refl;
  namespace_plain = refl;
  kind_there = refl;
  name_there = refl;
}

parse-build_inspect_key_example :
    parse_inspect_key (build_inspect_key (codes " Deploy") (codes "api") (codes "shop"))
    ≡ some (meant (codes " Deploy") (codes "api") (codes "shop"))
parse-build_inspect_key_example =
    parse-build_inspect_key (codes " Deploy") (codes "api") (codes "shop") deployment

row_keys_match-build_example :
    (row_keys_match
        (build_inspect_key (codes " Deploy") (codes "api") (codes "shop"))
        (build_inspect_key (codes "Deployment") (codes "api ") [])
      ≡ true)
    ↔ ((normalize_inspect_kind (codes " Deploy") ≡ normalize_inspect_kind (codes "Deployment"))
        × (trim (codes "api") ≡ trim (codes "api "))
        × Agree
            (namespace_of (codes " Deploy") (codes "shop"))
            (namespace_of (codes "Deployment") []))
row_keys_match-build_example =
    row_keys_match-build (codes " Deploy") (codes "api") (codes "shop") (codes "Deployment")
      (codes "api ") [] deployment deployment_short
