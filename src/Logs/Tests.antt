-- ===== src/Logs/Tests.antt =====
-- The clustering of lib/drain.js on concrete messages.
use klew.Base.{
  ◌≡◌, ◌≤◌, refl, List, [], ◌∷◌, none, some, map, Str, codes, str_eq, uniq, length, has,
}
use klew.Logs.{
  Cluster, Meta, default_options, empty_drain, sev_rank, absorb_meta, cluster_similarity,
  merge_template, merged, new_cluster, best_from, place, add, add_all,
}
use klew.Logs.Tree.{token_key, leaf_of, set_leaf}
use klew.Logs.Templates.{total}
use klew.Logs.Adds.{
  AnswersOk, DrainOk, all_weight, add_all-AnswersOk, total-add_all, add_all-DrainOk,
}
use klew.Logs.Merge.{
  jaccard_reaches, merge_unequal_templates, merge_clusters, sort_by_count, similar, absorb_rest,
  merge_from, merge_similar_clusters,
}
use klew.Logs.Totals.{merge_similar_clusters-totals}

program : Unit {0}
unfolding str_eq sev_rank absorb_meta cluster_similarity merge_template merged new_cluster best_from
    place add add_all token_key leaf_of set_leaf
program = tt

abbrev from_web : Meta
from_web = record {
  weight = 0;
  pod = codes "web";
  ts = 7;
  sample = codes "line";
  severity = codes "error";
}

abbrev plain : Meta
plain = record { weight = 3; pod = []; ts = 0; sample = []; severity = [] }

abbrev messages : List (List Str × Meta)
messages =
    (codes "get" ∷ codes "user" ∷ codes "42" ∷ codes "ok" ∷ [], from_web)
    ∷ ([] ∷ [], plain)
    ∷ (codes "get" ∷ codes "user" ∷ codes "43" ∷ codes "late" ∷ [], plain)
    ∷ (codes "get" ∷ codes "user" ∷ codes "44" ∷ codes "ok" ∷ codes "now" ∷ [], plain)
    ∷ []

-- The second message has no token, and the third joins the cluster of the first.
answers : (add_all default_options messages empty_drain).1 ≡ some 0 ∷ none ∷ some 0 ∷ some 1 ∷ []
unfolding program
answers = refl

templates :
    map (λ (c : Cluster). c.template) (add_all default_options messages empty_drain).0.clusters
    ≡ (codes "get" ∷ codes "user" ∷ codes "***" ∷ codes "***" ∷ [])
      ∷ (codes "get" ∷ codes "user" ∷ codes "44" ∷ codes "ok" ∷ codes "now" ∷ [])
      ∷ []
unfolding program
templates = refl

add_all-AnswersOk_example :
    AnswersOk
      (add_all default_options messages empty_drain).0.clusters
      messages
      (add_all default_options messages empty_drain).1
add_all-AnswersOk_example = add_all-AnswersOk default_options messages

total-add_all_example :
    total (add_all default_options messages empty_drain).0.clusters ≡ all_weight messages
total-add_all_example = total-add_all default_options messages

add_all-DrainOk_example : DrainOk 80 (add_all default_options messages empty_drain).0
add_all-DrainOk_example = add_all-DrainOk default_options messages

abbrev two_clusters : List Cluster
two_clusters =
    record {
      number = 0;
      first_length = 2;
      template = codes "pod" ∷ codes "failed" ∷ [];
      count = 4;
      severity = codes "info";
      pods = codes "a" ∷ [];
      samples = [];
      times = 1 ∷ [];
    }
    ∷ record {
      number = 1;
      first_length = 2;
      template = codes "failed" ∷ codes "pod" ∷ [];
      count = 9;
      severity = codes "error";
      pods = codes "b" ∷ [];
      samples = [];
      times = 2 ∷ [];
    }
    ∷ []

-- Two templates of one length with the same tokens in another order become wildcards only.
merged_templates :
    map (λ (c : Cluster). c.template) (merge_similar_clusters 72 100 two_clusters)
    ≡ (codes "***" ∷ codes "***" ∷ []) ∷ []
unfolding program jaccard_reaches uniq has merge_unequal_templates merge_clusters sort_by_count
    similar absorb_rest merge_from merge_similar_clusters
merged_templates = refl

merge_similar_clusters-totals_example :
    (total (merge_similar_clusters 72 100 two_clusters) ≡ 13)
    × (length (merge_similar_clusters 72 100 two_clusters) ≤ 2)
merge_similar_clusters-totals_example = merge_similar_clusters-totals 72 100 two_clusters
