-- ===== src/Logs/Totals.antt =====
-- What `mergeSimilarClusters` of lib/drain.js keeps.
use klew.Base.{
  ℕ, suc, ◌+◌, ◌≤◌, ◌<◌, ◌≡◌, refl, ◌∙◌, List, [], ◌∷◌, if◌then◌else◌, length, Bool-cases, inl, inr,
  arith,
}
use klew.Logs.{Cluster}
use klew.Logs.Merge.{
  merge_clusters, is_used, absorb_one, absorb_rest, merge_from, insert_by_count, sort_by_count,
  merge_similar_clusters,
}
use klew.Logs.Templates.{total}

-- The counts of the clusters from the place `i` on that are not used.
abbrev unused : ℕ → List Cluster → List ℕ → ℕ
unused i [] used = 0
unused i (c ∷ cs) used = (if is_used used i then 0 else c.count) + unused (suc i) cs used

unused-below :
    (i j : ℕ) (cs : List Cluster) (used : List ℕ)
    → j < i
    → unused i cs (j ∷ used) ≡ unused i cs used
unused-below i j [] used h = refl
unused-below i j (c ∷ cs) used h = ground (arith, unused-below (suc i) j cs used (omega arith))

unused-nothing : (i : ℕ) (cs : List Cluster) → unused i cs [] ≡ total cs
unused-nothing i [] = refl
unused-nothing i (c ∷ cs) = omega (arith, unused-nothing (suc i) cs)

module _ (num den : ℕ) where
  absorb_one-below :
      (i j : ℕ) (other : Cluster) (s : Cluster × List ℕ)
      → i < j
      → is_used (absorb_one num den j other s).1 i ≡ is_used s.1 i
  absorb_one-below i j other (base, used) h = ground arith

  -- The loop marks no place that it has passed.
  absorb_rest-below :
      (i j : ℕ) (cs : List Cluster) (s : Cluster × List ℕ)
      → i < j
      → is_used (absorb_rest num den j cs s).1 i ≡ is_used s.1 i
  unfolding absorb_rest
  absorb_rest-below i j [] s h = refl
  absorb_rest-below i j (c ∷ cs) s h =
      absorb_rest-below i (suc j) cs (absorb_one num den j c s) (omega arith)
      ∙ absorb_one-below i j c s h

  -- A turn moves the count of a cluster that it marks to the base.
  absorb_one-count :
      (j : ℕ) (c : Cluster) (s : Cluster × List ℕ)
      → (absorb_one num den j c s).0.count
          + (if is_used (absorb_one num den j c s).1 j then 0 else c.count)
        ≡ s.0.count + (if is_used s.1 j then 0 else c.count)
  unfolding merge_clusters
  absorb_one-count j c (base, used) = ground arith

  absorb_one-unused :
      (j : ℕ) (c : Cluster) (cs : List Cluster) (s : Cluster × List ℕ)
      → unused (suc j) cs (absorb_one num den j c s).1 ≡ unused (suc j) cs s.1
  absorb_one-unused j c cs (base, used) =
      ground (arith, unused-below (suc j) j cs used (omega arith))

  absorb_rest-count :
      (j : ℕ) (cs : List Cluster) (s : Cluster × List ℕ)
      → (absorb_rest num den j cs s).0.count + unused j cs (absorb_rest num den j cs s).1
        ≡ s.0.count + unused j cs s.1
  unfolding absorb_rest
  absorb_rest-count j [] s = refl
  absorb_rest-count j (c ∷ cs) s =
      let s' = absorb_one num den j c s in
      let a = absorb_rest-count (suc j) cs s' in
      let b = absorb_rest-below j (suc j) cs s' (omega arith) in
      let d = absorb_one-count j c s in
      let e = absorb_one-unused j c cs s in rw b (omega (arith, a, d, e))

  total-merge_from :
      (i : ℕ) (cs : List Cluster) (used : List ℕ)
      → total (merge_from num den i cs used) ≡ unused i cs used
  unfolding merge_from
  total-merge_from i [] used = refl
  total-merge_from i (c ∷ cs) used = elim (Bool-cases (is_used used i)) [
    | inl old ↦ rw (old, total-merge_from (suc i) cs used) (omega arith)
    | inr fresh ↦
        let r = absorb_rest num den (suc i) cs (c, i ∷ used) in
        let a = absorb_rest-count (suc i) cs (c, i ∷ used) in
        let b = unused-below (suc i) i cs used (omega arith) in
        rw (fresh, total-merge_from (suc i) cs r.1) (omega (arith, a, b))
  ]

  length-merge_from :
      (i : ℕ) (cs : List Cluster) (used : List ℕ)
      → length (merge_from num den i cs used) ≤ length cs
  unfolding merge_from
  length-merge_from i [] used = omega arith
  length-merge_from i (c ∷ cs) used = elim (Bool-cases (is_used used i)) [
    | inl old ↦ rw old (omega (arith, length-merge_from (suc i) cs used))
    | inr fresh ↦
        let r = absorb_rest num den (suc i) cs (c, i ∷ used) in
        rw fresh (omega (arith, length-merge_from (suc i) cs r.1))
  ]

total-insert_by_count :
    (c : Cluster) (cs : List Cluster) → total (insert_by_count c cs) ≡ c.count + total cs
total-insert_by_count c [] = refl
total-insert_by_count c (d ∷ ds) = ground (arith, total-insert_by_count c ds)

length-insert_by_count :
    (c : Cluster) (cs : List Cluster) → length (insert_by_count c cs) ≡ suc (length cs)
length-insert_by_count c [] = refl
length-insert_by_count c (d ∷ ds) = ground (arith, length-insert_by_count c ds)

length-sort_by_count : (cs : List Cluster) → length (sort_by_count cs) ≡ length cs
unfolding sort_by_count
length-sort_by_count [] = refl
length-sort_by_count (c ∷ cs) =
    omega (arith, length-insert_by_count c (sort_by_count cs), length-sort_by_count cs)

total-sort_by_count : (cs : List Cluster) → total (sort_by_count cs) ≡ total cs
unfolding sort_by_count
total-sort_by_count [] = refl
total-sort_by_count (c ∷ cs) =
    omega (arith, total-insert_by_count c (sort_by_count cs), total-sort_by_count cs)

-- Merging similar clusters keeps the sum of the counts and adds no cluster, whatever the threshold.
pub merge_similar_clusters-totals :
    (num den : ℕ) (cs : List Cluster)
    → (total (merge_similar_clusters num den cs) ≡ total cs)
      × (length (merge_similar_clusters num den cs) ≤ length cs)
unfolding merge_similar_clusters
merge_similar_clusters-totals num den cs = (
  total-merge_from num den 0 (sort_by_count cs) []
      ∙ unused-nothing 0 (sort_by_count cs)
      ∙ total-sort_by_count cs,
  omega (arith, length-merge_from num den 0 (sort_by_count cs) [], length-sort_by_count cs),
)
