-- ===== src/Logs/Merge.antt =====
-- `mergeSimilarClusters` of lib/drain.js.
use klew.Base.{
  ℕ, suc, ◌+◌, ◌*◌, ◌-◌, leb, ltb, ◌==◌, Bool, not, ◌&&◌, ◌||◌, List, [], ◌∷◌, ◌++◌, map,
  if◌then◌else◌, Str, str_eq, is_empty, length, keep, any, has, uniq,
}
use klew.Logs.{Cluster, merge_template, add_pod, push_sample, worse}
use klew.Logs.Tree.{drain_wildcard}

abbrev pub content_tokens : List Str → List Str
content_tokens ts = keep (λ t. not (is_empty t) && not (str_eq t drain_wildcard)) ts

-- How many of the tokens of `xs` are in `ys`.
abbrev pub inter_size : List Str → List Str → ℕ
inter_size xs ys = length (keep (has ys) xs)

-- `jaccard(a, b) >= num / den`; two empty sets have the index 1
unfoldable pub jaccard_reaches : ℕ → ℕ → List Str → List Str → Bool
unfolding uniq
jaccard_reaches num den a b =
    let xs = uniq a in
    let ys = uniq b in
    if length xs == 0 && length ys == 0
    then leb num den
    else leb (num * (length xs + length ys - inter_size xs ys)) (inter_size xs ys * den)

abbrev pub kept_token : List Str → Str → Str
kept_token short t =
    if str_eq t drain_wildcard then drain_wildcard else if has short t then t else drain_wildcard

unfoldable pub merge_unequal_templates : List Str → List Str → List Str
unfolding merge_template
merge_unequal_templates a b =
    if length a == length b
    then merge_template a b
    else if leb (length b) (length a)
    then map (kept_token (content_tokens b)) a
    else map (kept_token (content_tokens a)) b

abbrev pub add_pods : List Str → List Str → List Str
add_pods [] ps = ps
add_pods (p ∷ more) ps = add_pods more (add_pod p ps)

abbrev pub push_samples : List Str → List Str → List Str
push_samples [] ss = ss
push_samples (s ∷ more) ss = push_samples more (push_sample s ss)

-- What `base` becomes when it takes up `other`.
unfoldable pub merge_clusters : Cluster → Cluster → Cluster
unfolding merge_unequal_templates
merge_clusters base other = record base {
  template = merge_unequal_templates base.template other.template;
  count = base.count + other.count;
  pods = add_pods other.pods base.pods;
  times = base.times ++ other.times;
  samples = push_samples other.samples base.samples;
  severity = worse other.severity base.severity;
}

-- `|a - b| > 3`
abbrev pub far_lengths : ℕ → ℕ → Bool
far_lengths a b = ltb 3 (a - b) || ltb 3 (b - a)

unfoldable pub similar : ℕ → ℕ → Cluster → Cluster → Bool
unfolding jaccard_reaches
similar num den base other =
    not (far_lengths (length base.template) (length other.template))
    && jaccard_reaches num den (content_tokens base.template) (content_tokens other.template)

-- `sort((a, b) => b.count - a.count)`, which is stable
abbrev pub insert_by_count : Cluster → List Cluster → List Cluster
insert_by_count c [] = c ∷ []
insert_by_count c (d ∷ ds) = if leb d.count c.count then c ∷ d ∷ ds else d ∷ insert_by_count c ds

unfoldable pub sort_by_count : List Cluster → List Cluster
sort_by_count [] = []
sort_by_count (c ∷ cs) = insert_by_count c (sort_by_count cs)

abbrev pub is_used : List ℕ → ℕ → Bool
is_used used i = any (λ j. i == j) used

-- One turn of the inner loop, at the place `j`.
abbrev pub absorb_one : ℕ → ℕ → ℕ → Cluster → Cluster × List ℕ → Cluster × List ℕ
absorb_one num den j other (base, used) =
    if is_used used j
    then (base, used)
    else if similar num den base other
    then (merge_clusters base other, j ∷ used)
    else (base, used)

-- The inner loop, from the place `j` on: the base, and the places used.
unfoldable pub absorb_rest : ℕ → ℕ → ℕ → List Cluster → Cluster × List ℕ → Cluster × List ℕ
unfolding similar merge_clusters
absorb_rest num den j [] s = s
absorb_rest num den j (other ∷ rest) s =
    absorb_rest num den (suc j) rest (absorb_one num den j other s)

-- The outer loop, from the place `i` on.
unfoldable pub merge_from : ℕ → ℕ → ℕ → List Cluster → List ℕ → List Cluster
unfolding absorb_rest
merge_from num den i [] used = []
merge_from num den i (c ∷ cs) used =
    let fresh = not (is_used used i) in
    let r = absorb_rest num den (suc i) cs (c, i ∷ used) in
    let rest = merge_from num den (suc i) cs (if fresh then r.1 else used) in
    if fresh then r.0 ∷ rest else rest

-- `num / den` is the Jaccard threshold, 0.72 where none is given.
unfoldable pub merge_similar_clusters : ℕ → ℕ → List Cluster → List Cluster
unfolding merge_from sort_by_count
merge_similar_clusters num den cs = merge_from num den 0 (sort_by_count cs) []
