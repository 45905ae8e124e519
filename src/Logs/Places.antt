-- ===== src/Logs/Places.antt =====
-- Where lib/drain.js puts a message.
use klew.Base.{
  ℕ, ◌+◌, ◌*◌, ◌≡◌, refl, List, [], ◌∷◌, ◌++◌, Option, none, some, leb, ltb, ◌==◌, Str, length,
  if_both, Bool-cases, inl, inr, arith, subst,
}
use klew.Logs.{
  Cluster, Meta, Options, Placed, place, place_best, begin_cluster, best_from, better, merged,
  modify, new_cluster, weight_of, node_at, put_node, absorb_meta,
}
use klew.Logs.Tree.{Node, AllIds, NodeOk, NodeOk-weaken, AllIds-weaken, empty_node-Ok}
use klew.Logs.Templates.{
  Covers-self, CoversAt, SizedAt, total, total-append, total-modify, CoversAt-modify,
  SizedAt-modify, CoversAt-merged, get_elem?-append_old, get_elem?-append_new,
}

-- What placing a message keeps and gives.
pub record IsPlaced (seq : List Str) (m : Meta) (cs : List Cluster) (r : Placed) : Type 0 where
  pub covered : (i : ℕ) (s : List Str) → CoversAt cs i s → CoversAt r.clusters i s
  pub kept : (l i : ℕ) → SizedAt cs l i → SizedAt r.clusters l i
  pub members : AllIds (SizedAt r.clusters (length seq)) r.ids
  pub chosen : CoversAt r.clusters r.chosen seq
  pub counted : total r.clusters ≡ total cs + weight_of m

AllIds-append :
    (P : ℕ → Type 0) (ids : List ℕ) (i : ℕ) → AllIds P ids → P i → AllIds P (ids ++ i ∷ [])
AllIds-append P [] i h p = (p, tt)
AllIds-append P (j ∷ ids) i (h, t) p = (h, AllIds-append P ids i t p)

abbrev OfBest : (ℕ → Type 0) → Option (ℕ × ℕ) → Type 0
OfBest P none = Unit
OfBest P (some (i, sim)) = P i

better-OfBest :
    (P : ℕ → Type 0) (best : Option (ℕ × ℕ)) (i sim : ℕ)
    → OfBest P best
    → P i
    → OfBest P (better best i sim)
better-OfBest P none i sim h p = p
better-OfBest P (some (j, b)) i sim h p = if_both (OfBest P) (ltb b sim) p h

best_from-OfBest :
    (P : ℕ → Type 0) (cs : List Cluster) (seq : List Str) (ids : List ℕ) (best : Option (ℕ × ℕ))
    → AllIds P ids
    → OfBest P best
    → OfBest P (best_from cs seq ids best)
unfolding best_from
best_from-OfBest P cs seq [] best h b = b
best_from-OfBest P cs seq (i ∷ ids) best (h, t) b =
    best_from-OfBest P cs seq ids _ t (better-OfBest P best i _ b h)

module _ (seq : List Str) (m : Meta) where
  begin-CoversAt :
      (cs : List Cluster) → CoversAt (cs ++ new_cluster (length cs) seq m ∷ []) (length cs) seq
  unfolding new_cluster absorb_meta
  begin-CoversAt cs = record {
    cluster = new_cluster (length cs) seq m;
    here = get_elem?-append_new cs (new_cluster (length cs) seq m);
    covers = Covers-self seq;
  }

  begin-SizedAt :
      (cs : List Cluster)
      → SizedAt (cs ++ new_cluster (length cs) seq m ∷ []) (length seq) (length cs)
  unfolding new_cluster absorb_meta
  begin-SizedAt cs = record {
    cluster = new_cluster (length cs) seq m;
    here = get_elem?-append_new cs (new_cluster (length cs) seq m);
    sized = refl;
  }

  begin-IsPlaced :
      (cs : List Cluster) (ids : List ℕ)
      → AllIds (SizedAt cs (length seq)) ids
      → IsPlaced seq m cs (begin_cluster seq m cs ids)
  unfolding new_cluster absorb_meta
  begin-IsPlaced cs ids h = record {
    covered = λ i s c. record {
      cluster = c.cluster;
      here = get_elem?-append_old cs i (new_cluster (length cs) seq m) c.here;
      covers = c.covers;
    };
    kept = λ l i c. record {
      cluster = c.cluster;
      here = get_elem?-append_old cs i (new_cluster (length cs) seq m) c.here;
      sized = c.sized;
    };
    members =
        AllIds-append (SizedAt (cs ++ new_cluster (length cs) seq m ∷ []) (length seq)) ids
          (length cs)
          (AllIds-weaken (SizedAt cs (length seq)) _ ids
            (λ i c. record {
              cluster = c.cluster;
              here = get_elem?-append_old cs i (new_cluster (length cs) seq m) c.here;
              sized = c.sized;
            })
            h)
          (begin-SizedAt cs);
    chosen = begin-CoversAt cs;
    counted = total-append cs (new_cluster (length cs) seq m);
  }

  merge-IsPlaced :
      (cs : List Cluster) (ids : List ℕ) (i : ℕ)
      → AllIds (SizedAt cs (length seq)) ids
      → SizedAt cs (length seq) i
      → IsPlaced seq m cs (record { clusters = modify i (merged seq m) cs; ids = ids; chosen = i })
  merge-IsPlaced cs ids i h c = record {
    covered = λ j s. CoversAt-modify seq m i j cs s;
    kept = λ l j. SizedAt-modify seq m i j l cs;
    members =
        AllIds-weaken (SizedAt cs (length seq)) _ ids
          (λ j. SizedAt-modify seq m i j (length seq) cs) h;
    chosen = CoversAt-merged seq m i cs c;
    counted = total-modify seq m i cs c.here;
  }

  place_best-IsPlaced :
      (o : Options) (cs : List Cluster) (ids : List ℕ) (best : Option (ℕ × ℕ))
      → AllIds (SizedAt cs (length seq)) ids
      → OfBest (SizedAt cs (length seq)) best
      → IsPlaced seq m cs (place_best o seq m cs ids best)
  place_best-IsPlaced o cs ids none h b = begin-IsPlaced cs ids h
  place_best-IsPlaced o cs ids (some (i, sim)) h b =
      if_both (IsPlaced seq m cs) (leb (o.threshold_num * length seq) (sim * o.threshold_den))
        (merge-IsPlaced cs ids i h b) (begin-IsPlaced cs ids h)

  pub place-IsPlaced :
      (o : Options) (cs : List Cluster) (ids : List ℕ)
      → AllIds (SizedAt cs (length seq)) ids
      → IsPlaced seq m cs (place o seq m cs ids)
  unfolding place
  place-IsPlaced o cs ids h =
      place_best-IsPlaced o cs ids (best_from cs seq ids none) h
        (best_from-OfBest (SizedAt cs (length seq)) cs seq ids none h tt)

-- Under a length stand the clusters whose templates have it, and every node fits.
abbrev pub RootOk : ℕ → List Cluster → List (ℕ × Node) → Type 0
RootOk b cs [] = Unit
RootOk b cs ((l, n) ∷ root) = NodeOk (SizedAt cs l) b n × RootOk b cs root

module _ (b : ℕ) where
  pub node_at-Ok :
      (cs : List Cluster) (len : ℕ) (root : List (ℕ × Node))
      → RootOk b cs root
      → NodeOk (SizedAt cs len) b (node_at len root)
  node_at-Ok cs len [] h = empty_node-Ok (SizedAt cs len) b
  node_at-Ok cs len ((l, n) ∷ root) (h, t) = elim (Bool-cases (l == len)) [
    | inl same ↦ rw same (subst (λ i. NodeOk (SizedAt cs i) b n) {x = l} {y = len} (ground arith) h)
    | inr other ↦ rw other (node_at-Ok cs len root t)
  ]

  pub put_node-Ok :
      (cs : List Cluster) (len : ℕ) (n : Node) (root : List (ℕ × Node))
      → NodeOk (SizedAt cs len) b n
      → RootOk b cs root
      → RootOk b cs (put_node len n root)
  put_node-Ok cs len n [] h t = (h, tt)
  put_node-Ok cs len n ((l, old) ∷ root) h (o, t) = elim (Bool-cases (l == len)) [
    | inl same ↦
        rw same (subst (λ i. NodeOk (SizedAt cs i) b n) {x = len} {y = l} (ground arith) h, t)
    | inr other ↦ rw other (o, put_node-Ok cs len n root h t)
  ]

  pub RootOk-weaken :
      (cs cs' : List Cluster) (root : List (ℕ × Node))
      → ((l i : ℕ) → SizedAt cs l i → SizedAt cs' l i)
      → RootOk b cs root
      → RootOk b cs' root
  RootOk-weaken cs cs' [] f h = tt
  RootOk-weaken cs cs' ((l, n) ∷ root) f (h, t) =
      (NodeOk-weaken (SizedAt cs l) (SizedAt cs' l) b n (f l) h, RootOk-weaken cs cs' root f t)
