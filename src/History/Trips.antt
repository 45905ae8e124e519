-- ===== src/History/Trips.antt =====
-- Round trips through the callbacks of useNavigationHistory.js.
use klew.Base.{
  ℕ, zero, suc, ◌+◌, ◌-◌, ◌<◌, ◌≡◌, refl, ap, ◌∙◌, false, List, [], ◌∷◌, ◌++◌, some, arith, str_eq,
  length, get_elem?, take, length-append, length-take,
}
use klew.History.{
  Entry, Partial, Nav, current, pushed, push_entry, push, back, forward, nav_entry_key,
}
use klew.History.Zipper.{arrive, back_lands, forward_lands, push_heard}

get_elem?-take_append {ℓ} :
    {A : Type ℓ} (xs ys : List A) (i : ℕ)
    → i < length xs
    → get_elem? (take (suc i) xs ++ ys) i ≡ get_elem? xs i
get_elem?-take_append [] ys i h = elim h [ ]
get_elem?-take_append (x ∷ xs) ys zero h = refl
get_elem?-take_append (x ∷ xs) ys (suc i) h = get_elem?-take_append xs ys i (omega arith)

module _ (n : Nav) where
  abbrev trimmed : Entry → List Entry
  trimmed e = take (n.index + 1) n.stack ++ e ∷ []

  length-trimmed : n.index < length n.stack → (e : Entry) → length (trimmed e) ≡ n.index + 2
  length-trimmed h e = omega (
    arith,
    length-append (take (n.index + 1) n.stack) (e ∷ []),
    length-take (n.index + 1) n.stack (omega arith),
  )

  visited : Entry → Nav
  visited e = record {
    stack = trimmed e;
    index = length (trimmed e) - 1;
    skip_push = n.skip_push;
    revision = n.revision + 1;
  }

  push_new :
      (p : Partial)
      → n.skip_push ≡ false
      → str_eq (nav_entry_key (current n)) (nav_entry_key (some (pushed n p))) ≡ false
      → push n p ≡ visited (pushed n p)
  unfolding push_entry visited
  push_new p heard other = push_heard n p heard ∙ rw other

  -- A visit to a new place, where the visit is not skipped (`skip_push` is not set, as it is from a
  -- step back or forward until the next visit), is followed by a step back to where the user was:
  -- `back` returns the entry that was current, and the index is the old one.
  pub back-push :
      (p : Partial)
      → n.index < length n.stack
      → n.skip_push ≡ false
      → str_eq (nav_entry_key (current n)) (nav_entry_key (some (pushed n p))) ≡ false
      → ((back (push n p)).1 ≡ current n) × ((back (push n p)).0.index ≡ n.index)
  unfolding visited
  back-push p h heard other =
      let l = length-trimmed h (pushed n p) in
      rw
        (
          push_new p heard other,
          back_lands (visited (pushed n p)) n.index (omega (arith, l)) (omega (arith, l)),
        )
        (
          ap (λ k. get_elem? (take k n.stack ++ pushed n p ∷ []) n.index) {y = suc n.index}
                (omega arith)
              ∙ get_elem?-take_append n.stack (pushed n p ∷ []) n.index h,
          refl,
        )

  -- A step back and a step forward again lead to the same entry, on the same stack at the same
  -- index.
  pub forward-back :
      0 < n.index
      → n.index < length n.stack
      → ((forward (back n).0).1 ≡ current n)
        × ((forward (back n).0).0.index ≡ n.index)
        × ((forward (back n).0).0.stack ≡ n.stack)
  forward-back h k =
      let e : n.index ≡ suc (n.index - 1) = omega arith in
      let e' : n.index - 1 + 1 ≡ n.index = omega arith in
      rw
        (
          back_lands n (n.index - 1) e (omega arith),
          forward_lands (arrive n (n.index - 1)) (omega arith),
        )
        (ap (get_elem? n.stack) e', e', refl)
