-- ===== src/Logs/Adds.antt =====
-- Runs of `add` of lib/drain.js.
use klew.Base.{ℕ, ◌+◌, ◌≡◌, List, [], ◌∷◌, Option, none, some, Str, length, arith}
use klew.Logs.{
  Cluster, Meta, Options, Drain, empty_drain, Placed, place, node_at, add_seq, add, add_all,
  max_layer, present_tokens, weight_of,
}
use klew.Logs.Tree.{Node, leaf_of, set_leaf, NodeOk, NodeOk-weaken, leaf_of-Ok, set_leaf-Ok}
use klew.Logs.Templates.{CoversAt, SizedAt, total}
use klew.Logs.Places.{IsPlaced, place-IsPlaced, RootOk, node_at-Ok, put_node-Ok, RootOk-weaken}

abbrev pub DrainOk : ℕ → Drain → Type 0
DrainOk b d = RootOk b d.clusters d.root

-- What `add` may return: nothing where there are no tokens, and else a cluster whose template covers
-- them.
abbrev pub AnswerOk : List Cluster → List Str → Option ℕ → Type 0
AnswerOk cs [] none = Unit
AnswerOk cs [] (some i) = ⊥
AnswerOk cs (t ∷ ts) none = ⊥
AnswerOk cs (t ∷ ts) (some i) = CoversAt cs i (t ∷ ts)

abbrev pub seq_weight : List Str → Meta → ℕ
seq_weight [] m = 0
seq_weight (t ∷ ts) m = weight_of m

-- The weights of the messages that have a token.
abbrev pub all_weight : List (List Str × Meta) → ℕ
all_weight [] = 0
all_weight ((tokens, m) ∷ ms) = seq_weight (present_tokens tokens) m + all_weight ms

abbrev pub AnswersOk : List Cluster → List (List Str × Meta) → List (Option ℕ) → Type 0
AnswersOk cs [] [] = Unit
AnswersOk cs [] (i ∷ is) = ⊥
AnswersOk cs (m ∷ ms) [] = ⊥
AnswersOk cs ((tokens, m) ∷ ms) (i ∷ is) =
    AnswerOk cs (present_tokens tokens) i × AnswersOk cs ms is

record IsAdded (b : ℕ) (seq : List Str) (m : Meta) (d : Drain) (r : Drain × Option ℕ) : Type 0 where
  ok : DrainOk b r.0
  covered : (i : ℕ) (s : List Str) → CoversAt d.clusters i s → CoversAt r.0.clusters i s
  answer : AnswerOk r.0.clusters seq r.1
  counted : total r.0.clusters ≡ total d.clusters + seq_weight seq m

add_seq-IsAdded :
    (o : Options) (seq : List Str) (m : Meta) (d : Drain)
    → DrainOk o.max_children d
    → IsAdded o.max_children seq m d (add_seq o seq m d)
add_seq-IsAdded o [] m d h = record {
  ok = h;
  covered = λ i s c. c;
  answer = tt;
  counted = omega arith;
}
add_seq-IsAdded o (t ∷ ts) m d h = record {
  ok =
      put_node-Ok b r.clusters len (set_leaf b l seq r.ids n) d.root
        (set_leaf-Ok (SizedAt r.clusters len) b l seq r.ids n p.members
          (NodeOk-weaken (SizedAt d.clusters len) (SizedAt r.clusters len) b n (p.kept len) n-Ok))
        (RootOk-weaken b d.clusters r.clusters d.root p.kept h);
  covered = p.covered;
  answer = p.chosen;
  counted = p.counted;
}
  where
    seq : List Str
    seq = t ∷ ts

    len : ℕ
    len = length (t ∷ ts)

    b : ℕ
    b = o.max_children

    l : ℕ
    l = max_layer o

    n : Node
    n = node_at len d.root

    n-Ok : NodeOk (SizedAt d.clusters len) b n
    n-Ok = node_at-Ok b d.clusters len d.root h

    r : Placed
    r = place o seq m d.clusters (leaf_of b l seq n)

    p : IsPlaced seq m d.clusters (place o seq m d.clusters (leaf_of b l seq n))
    p = place-IsPlaced seq m o d.clusters _ (leaf_of-Ok (SizedAt d.clusters len) b l seq n n-Ok)

AnswerOk-keep :
    (cs cs' : List Cluster) (seq : List Str) (i : Option ℕ)
    → ((j : ℕ) (s : List Str) → CoversAt cs j s → CoversAt cs' j s)
    → AnswerOk cs seq i
    → AnswerOk cs' seq i
AnswerOk-keep cs cs' [] none f h = tt
AnswerOk-keep cs cs' [] (some i) f h = h
AnswerOk-keep cs cs' (t ∷ ts) none f h = h
AnswerOk-keep cs cs' (t ∷ ts) (some i) f h = f i (t ∷ ts) h

pub record AreAdded (b : ℕ) (ms : List (List Str × Meta)) (d : Drain) (r : Drain × List (Option ℕ))
    : Type 0 where
  pub ok : DrainOk b r.0
  pub covered : (i : ℕ) (s : List Str) → CoversAt d.clusters i s → CoversAt r.0.clusters i s
  pub answers : AnswersOk r.0.clusters ms r.1
  pub counted : total r.0.clusters ≡ total d.clusters + all_weight ms

add_all-AreAdded :
    (o : Options) (ms : List (List Str × Meta)) (d : Drain)
    → DrainOk o.max_children d
    → AreAdded o.max_children ms d (add_all o ms d)
unfolding add_all add
add_all-AreAdded o [] d h = record {
  ok = h;
  covered = λ i s c. c;
  answers = tt;
  counted = omega arith;
}
add_all-AreAdded o ((tokens, m) ∷ ms) d h =
    let first = add_seq-IsAdded o (present_tokens tokens) m d h in
    let rest = add_all-AreAdded o ms (add_seq o (present_tokens tokens) m d).0 first.ok in
    let same = first.counted in
    let more = rest.counted in
    record {
      ok = rest.ok;
      covered = λ i s c. rest.covered i s (first.covered i s c);
      answers =
          (AnswerOk-keep _ _ (present_tokens tokens) _ rest.covered first.answer, rest.answers);
      counted = omega (arith, same, more);
    }

-- After any messages, each that has a token was answered with a cluster whose template still covers
-- it: it has as many tokens, each the message's own or the wildcard. One without was answered with
-- none.
pub add_all-AnswersOk :
    (o : Options) (ms : List (List Str × Meta))
    → AnswersOk (add_all o ms empty_drain).0.clusters ms (add_all o ms empty_drain).1
add_all-AnswersOk o ms = (add_all-AreAdded o ms empty_drain tt).answers

-- The counts of the clusters add up to the weights of the messages that have a token.
pub total-add_all :
    (o : Options) (ms : List (List Str × Meta))
    → total (add_all o ms empty_drain).0.clusters ≡ all_weight ms
total-add_all o ms = omega (arith, (add_all-AreAdded o ms empty_drain tt).counted)

-- No node of the tree has more children than the bound, but for one more under the wildcard, and a
-- cluster stands only under the length that its template has.
pub add_all-DrainOk :
    (o : Options) (ms : List (List Str × Meta))
    → DrainOk o.max_children (add_all o ms empty_drain).0
add_all-DrainOk o ms = (add_all-AreAdded o ms empty_drain tt).ok
