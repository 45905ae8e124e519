-- ===== src/Logs/Templates.antt =====
-- What the templates of lib/drain.js stand for.
use klew.Base.{
  ℕ, zero, suc, ◌+◌, ◌≡◌, ◌⊎◌, inl, inr, refl, ap, ◌∙◌, true, false, List, [], ◌∷◌, ◌++◌, some,
  if◌then◌else◌, Str, str_eq, str_eq_iff, length, get_elem?, Bool-cases, if_both, arith, ◌==◌,
}
use klew.Logs.{Cluster, Meta, merge_template, absorb_meta, merged, modify, weight_of}
use klew.Logs.Tree.{drain_wildcard}

-- The template has as many tokens as the message, each the message's or the wildcard.
abbrev pub Covers : List Str → List Str → Type 0
Covers [] [] = Unit
Covers [] (s ∷ ss) = ⊥
Covers (t ∷ ts) [] = ⊥
Covers (t ∷ ts) (s ∷ ss) = ((t ≡ drain_wildcard) ⊎ (t ≡ s)) × Covers ts ss

pub Covers-self : (ts : List Str) → Covers ts ts
Covers-self [] = tt
Covers-self (t ∷ ts) = (inr refl, Covers-self ts)

pub length-merge_template : (ts ss : List Str) → length (merge_template ts ss) ≡ length ts
unfolding merge_template
length-merge_template [] ss = refl
length-merge_template (t ∷ ts) [] = ap suc (length-merge_template ts [])
length-merge_template (t ∷ ts) (s ∷ ss) = ap suc (length-merge_template ts ss)

-- A merge covers the new message, and what was covered before.
pub merge_template-new :
    (ts ss : List Str) → length ts ≡ length ss → Covers (merge_template ts ss) ss
unfolding merge_template
merge_template-new [] [] e = tt
merge_template-new [] (s ∷ ss) e = absurd (omega arith)
merge_template-new (t ∷ ts) [] e = absurd (omega arith)
merge_template-new (t ∷ ts) (s ∷ ss) e = (merged_token, merge_template-new ts ss (omega arith))
  where
    merged_token :
        ((if str_eq t s then t else drain_wildcard) ≡ drain_wildcard)
        ⊎ ((if str_eq t s then t else drain_wildcard) ≡ s)
    merged_token = elim (Bool-cases (str_eq t s)) [
      | inl same ↦ inr (rw same ((str_eq_iff t s).0 same))
      | inr other ↦ inl (rw other refl)
    ]

pub merge_template-old : (ts ss os : List Str) → Covers ts os → Covers (merge_template ts ss) os
unfolding merge_template
merge_template-old [] ss [] h = tt
merge_template-old [] ss (o ∷ os) h = absurd h
merge_template-old (t ∷ ts) ss [] h = absurd h
merge_template-old (t ∷ ts) [] (o ∷ os) (h, r) = (inl refl, merge_template-old ts [] os r)
merge_template-old (t ∷ ts) (s ∷ ss) (o ∷ os) (h, r) = (
  if_both (λ x. (x ≡ drain_wildcard) ⊎ (x ≡ o)) (str_eq t s) h (inl refl),
  merge_template-old ts ss os r,
)

pub template-absorb : (m : Meta) (c : Cluster) → (absorb_meta m c).template ≡ c.template
unfolding absorb_meta
template-absorb m c = refl

pub count-absorb : (m : Meta) (c : Cluster) → (absorb_meta m c).count ≡ c.count
unfolding absorb_meta
count-absorb m c = refl

-- The cluster at a place of the list has a template that covers the message.
pub record CoversAt (cs : List Cluster) (i : ℕ) (s : List Str) : Type 0 where
  pub cluster : Cluster
  pub here : get_elem? cs i ≡ some cluster
  pub covers : Covers cluster.template s

-- The template there has so many tokens.
pub record SizedAt (cs : List Cluster) (l i : ℕ) : Type 0 where
  pub cluster : Cluster
  pub here : get_elem? cs i ≡ some cluster
  pub sized : length cluster.template ≡ l

abbrev pub total : List Cluster → ℕ
total [] = 0
total (c ∷ cs) = c.count + total cs

get_elem?-modify_same :
    (i : ℕ) (f : Cluster → Cluster) (cs : List Cluster) {c : Cluster}
    → get_elem? cs i ≡ some c
    → get_elem? (modify i f cs) i ≡ some (f c)
get_elem?-modify_same i f [] e = absurd (ground arith)
get_elem?-modify_same zero f (d ∷ cs) e = ground (arith, e)
get_elem?-modify_same (suc i) f (d ∷ cs) {c = c} e = get_elem?-modify_same i f cs {c = c} e

get_elem?-modify_other :
    (i j : ℕ) (f : Cluster → Cluster) (cs : List Cluster)
    → (i == j) ≡ false
    → get_elem? (modify i f cs) j ≡ get_elem? cs j
get_elem?-modify_other i j f [] e = refl
get_elem?-modify_other zero zero f (d ∷ cs) e = absurd (ground arith)
get_elem?-modify_other zero (suc j) f (d ∷ cs) e = refl
get_elem?-modify_other (suc i) zero f (d ∷ cs) e = refl
get_elem?-modify_other (suc i) (suc j) f (d ∷ cs) e = get_elem?-modify_other i j f cs (ground arith)

pub get_elem?-append_old :
    (cs : List Cluster) (i : ℕ) (c : Cluster) {d : Cluster}
    → get_elem? cs i ≡ some d
    → get_elem? (cs ++ c ∷ []) i ≡ some d
get_elem?-append_old [] i c e = absurd (ground arith)
get_elem?-append_old (x ∷ cs) zero c e = e
get_elem?-append_old (x ∷ cs) (suc i) c {d = d} e = get_elem?-append_old cs i c {d = d} e

pub get_elem?-append_new :
    (cs : List Cluster) (c : Cluster) → get_elem? (cs ++ c ∷ []) (length cs) ≡ some c
get_elem?-append_new [] c = refl
get_elem?-append_new (x ∷ cs) c = get_elem?-append_new cs c

pub total-append : (cs : List Cluster) (c : Cluster) → total (cs ++ c ∷ []) ≡ total cs + c.count
total-append [] c = omega arith
total-append (x ∷ cs) c = omega (arith, total-append cs c)

module _ (seq : List Str) (m : Meta) where
  pub total-modify :
      (i : ℕ) (cs : List Cluster) {c : Cluster}
      → get_elem? cs i ≡ some c
      → total (modify i (merged seq m) cs) ≡ total cs + weight_of m
  unfolding merged absorb_meta
  total-modify i [] e = absurd (ground arith)
  total-modify zero (d ∷ cs) e = omega arith
  total-modify (suc i) (d ∷ cs) {c = c} e = omega (arith, total-modify i cs {c = c} e)

  -- After a merge every cluster covers what it covered.
  pub CoversAt-modify :
      (i j : ℕ) (cs : List Cluster) (s : List Str)
      → CoversAt cs j s
      → CoversAt (modify i (merged seq m) cs) j s
  unfolding merged absorb_meta
  CoversAt-modify i j cs s h = elim (Bool-cases (i == j)) [
    | inl same ↦ record {
      cluster = merged seq m h.cluster;
      here =
          rw (← same_place same)
            (get_elem?-modify_same i (merged seq m) cs (rw (same_place same) h.here));
      covers = merge_template-old h.cluster.template seq s h.covers;
    }
    | inr other ↦ record {
      cluster = h.cluster;
      here = get_elem?-modify_other i j (merged seq m) cs other ∙ h.here;
      covers = h.covers;
    }
  ]
    where
      same_place : (i == j) ≡ true → i ≡ j
      same_place e = ground arith

  pub SizedAt-modify :
      (i j l : ℕ) (cs : List Cluster) → SizedAt cs l j → SizedAt (modify i (merged seq m) cs) l j
  unfolding merged absorb_meta
  SizedAt-modify i j l cs h = elim (Bool-cases (i == j)) [
    | inl same ↦ record {
      cluster = merged seq m h.cluster;
      here =
          rw (← same_place same)
            (get_elem?-modify_same i (merged seq m) cs (rw (same_place same) h.here));
      sized = length-merge_template h.cluster.template seq ∙ h.sized;
    }
    | inr other ↦ record {
      cluster = h.cluster;
      here = get_elem?-modify_other i j (merged seq m) cs other ∙ h.here;
      sized = h.sized;
    }
  ]
    where
      same_place : (i == j) ≡ true → i ≡ j
      same_place e = ground arith

  pub CoversAt-merged :
      (i : ℕ) (cs : List Cluster)
      → SizedAt cs (length seq) i
      → CoversAt (modify i (merged seq m) cs) i seq
  unfolding merged absorb_meta
  CoversAt-merged i cs h = record {
    cluster = merged seq m h.cluster;
    here = get_elem?-modify_same i (merged seq m) cs h.here;
    covers = merge_template-new h.cluster.template seq h.sized;
  }
