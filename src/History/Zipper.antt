-- ===== src/History/Zipper.antt =====
-- The history as a zipper: what lies behind the current entry (nearest first), the entry, and what
-- lies ahead. The array and index of useNavigationHistory.js implement it, call by call.
use mathlib.Core.List.{reverse_aux}
use mathlib.Core.Path.{ap₂}
use klew.Base.{
  ℕ, suc, ◌+◌, ◌<◌, ◌≤◌, ◌≡◌, refl, ap, ◌∙◌, Bool, true, false, List, [], ◌∷◌, ◌++◌, Option, none,
  some, arith, str_eq, length, get_elem?, take, Bool-cases, inl, inr, if◌then◌else◌,
}
use klew.History.{
  Entry, Partial, Nav, home_nav, to_partial, normalize_nav_entry, start_nav, current, pushed,
  push_entry, push, back, forward, nav_entry_key,
}

pub record Zipper : Type 0 where
  pub behind : List Entry
  pub focus : Entry
  pub ahead : List Entry
  -- the next `push` is dropped, since a move of the history caused it
  pub muted : Bool

-- The array is the zipper laid out, with the index at its focus.
pub record Represents (n : Nav) (z : Zipper) : Type 0 where
  pub stack : n.stack ≡ reverse_aux z.behind (z.focus ∷ z.ahead)
  pub index : n.index ≡ length z.behind
  pub muted : n.skip_push ≡ z.muted

abbrev pub arrive : Nav → ℕ → Nav
arrive n next = record n { index = next; skip_push = true; revision = n.revision + 1 }

abbrev pub zipper : List Entry → Entry → List Entry → Bool → Zipper
zipper b f a m = record { behind = b; focus = f; ahead = a; muted = m }

pub data Call : Type 0 where
  push_call : Partial → Call
  back_call forward_call : Call

-- A visit forgets what lies ahead; one to the same place changes nothing.
abbrev visit : Zipper → Entry → Zipper
visit z e =
    if str_eq (nav_entry_key (some z.focus)) (nav_entry_key (some e))
    then z
    else (record { behind = z.focus ∷ z.behind; focus = e; ahead = []; muted = z.muted })

abbrev move_back : List Entry → Zipper → Zipper × Option Entry
move_back [] z = (z, none)
move_back (e ∷ b) z =
    (record { behind = b; focus = e; ahead = z.focus ∷ z.ahead; muted = true }, some e)

abbrev move_forward : List Entry → Zipper → Zipper × Option Entry
move_forward [] z = (z, none)
move_forward (e ∷ a) z =
    (record { behind = z.focus ∷ z.behind; focus = e; ahead = a; muted = true }, some e)

-- One call on the zipper, with what it returns.
unfoldable pub spec_step : Zipper → Call → Zipper × Option Entry
spec_step z (push_call p) = (
  if z.muted
      then record z { muted = false }
      else visit z (normalize_nav_entry p (to_partial z.focus)),
  none,
)
spec_step z back_call = move_back z.behind z
spec_step z forward_call = move_forward z.ahead z

unfoldable pub step : Nav → Call → Nav × Option Entry
step n (push_call p) = (push n p, none)
step n back_call = back n
step n forward_call = forward n

unfoldable pub run : Nav → List Call → Nav × List (Option Entry)
run n [] = (n, [])
run n (c ∷ cs) = let (n', r) = step n c in let (n'', rs) = run n' cs in (n'', r ∷ rs)

unfoldable pub spec_run : Zipper → List Call → Zipper × List (Option Entry)
spec_run z [] = (z, [])
spec_run z (c ∷ cs) = let (z', r) = spec_step z c in let (z'', rs) = spec_run z' cs in (z'', r ∷ rs)

length-reverse_aux {ℓ} :
    {A : Type ℓ} (b r : List A) → length (reverse_aux b r) ≡ length b + length r
length-reverse_aux [] r = omega arith
length-reverse_aux (x ∷ b) r = omega (arith, length-reverse_aux b (x ∷ r))

get_elem?-reverse_aux {ℓ} :
    {A : Type ℓ} (b r : List A) (i k : ℕ)
    → i ≡ length b + k
    → get_elem? (reverse_aux b r) i ≡ get_elem? r k
get_elem?-reverse_aux [] r i k e = ap (get_elem? r) (omega arith)
get_elem?-reverse_aux (x ∷ b) r i k e = get_elem?-reverse_aux b (x ∷ r) i (suc k) (omega arith)

take-reverse_aux {ℓ} :
    {A : Type ℓ} (b r : List A) (i k : ℕ)
    → i ≡ length b + k
    → take i (reverse_aux b r) ≡ reverse_aux b (take k r)
take-reverse_aux [] r i k e = ap (λ j. take j r) (omega arith)
take-reverse_aux (x ∷ b) r i k e = take-reverse_aux b (x ∷ r) i (suc k) (omega arith)

append-reverse_aux {ℓ} :
    {A : Type ℓ} (b s t : List A) → reverse_aux b s ++ t ≡ reverse_aux b (s ++ t)
append-reverse_aux [] s t = refl
append-reverse_aux (x ∷ b) s t = append-reverse_aux b (x ∷ s) t

module _ (n : Nav) (p : Partial) where
  push_muted : n.skip_push ≡ true → push n p ≡ record n { skip_push = false }
  unfolding push
  push_muted h = rw h

  pub push_heard : n.skip_push ≡ false → push n p ≡ push_entry n (pushed n p)
  unfolding push
  push_heard h = rw h

module _ (z : Zipper) (p : Partial) where
  spec_muted : z.muted ≡ true → (spec_step z (push_call p)).0 ≡ record z { muted = false }
  unfolding spec_step
  spec_muted h = rw h

  spec_heard :
      z.muted ≡ false
      → (spec_step z (push_call p)).0 ≡ visit z (normalize_nav_entry p (to_partial z.focus))
  unfolding spec_step
  spec_heard h = rw h

  push_silent : none ≡ (spec_step z (push_call p)).1
  unfolding spec_step
  push_silent = refl

module _ {n : Nav} {z : Zipper} (r : Represents n z) where
  current-focus : current n ≡ some z.focus
  current-focus =
      ap (λ s. get_elem? s n.index) r.stack
      ∙ get_elem?-reverse_aux z.behind (z.focus ∷ z.ahead) n.index 0 (omega (arith, r.index))

  length_stack : length n.stack ≡ length z.behind + length z.ahead + 1
  length_stack = omega (arith, ap length r.stack, length-reverse_aux z.behind (z.focus ∷ z.ahead))

  trimmed_stack :
      (e : Entry) → take (n.index + 1) n.stack ++ e ∷ [] ≡ reverse_aux (z.focus ∷ z.behind) (e ∷ [])
  trimmed_stack e =
      ap (λ s. take (n.index + 1) s ++ e ∷ []) r.stack
      ∙ ap (λ s. s ++ e ∷ [])
          (take-reverse_aux z.behind (z.focus ∷ z.ahead) (n.index + 1) 1 (omega (arith, r.index)))
      ∙ append-reverse_aux z.behind (z.focus ∷ []) (e ∷ [])

  push_entry-Represents : (e : Entry) → Represents (push_entry n e) (visit z e)
  unfolding push_entry
  push_entry-Represents e =
      rw current-focus
        (elim (Bool-cases (str_eq (nav_entry_key (some z.focus)) (nav_entry_key (some e)))) [
          | inl same ↦ rw same r
          | inr other ↦ rw other (record {
            stack = trimmed_stack e;
            index = omega (
              arith,
              ap length (trimmed_stack e),
              length-reverse_aux (z.focus ∷ z.behind) (e ∷ []),
            );
            muted = r.muted;
          })
        ])

  push-Represents : (p : Partial) → Represents (push n p) (spec_step z (push_call p)).0
  push-Represents p = elim (Bool-cases z.muted) [
    | inl m ↦
        rw (push_muted n p (r.muted ∙ m), spec_muted z p m)
          (record { stack = r.stack; index = r.index; muted = refl })
    | inr m ↦
        rw (push_heard n p (r.muted ∙ m), spec_heard z p m, current-focus)
          (push_entry-Represents (normalize_nav_entry p (to_partial z.focus)))
  ]

module _ (n : Nav) where
  back_start : n.index ≡ 0 → back n ≡ (n, none)
  unfolding back
  back_start h = ground arith

  pub back_lands :
      (i : ℕ) → n.index ≡ suc i → i < length n.stack → back n ≡ (arrive n i, get_elem? n.stack i)
  unfolding back
  back_lands i h k = ground arith

  forward_end : length n.stack ≤ n.index + 1 → forward n ≡ (n, none)
  unfolding forward
  forward_end h = ground arith

  pub forward_lands :
      n.index + 1 < length n.stack
      → forward n ≡ (arrive n (n.index + 1), get_elem? n.stack (n.index + 1))
  unfolding forward
  forward_lands h = ground arith

back-Represents :
    {n : Nav} (b a : List Entry) (f : Entry) (m : Bool)
    → Represents n (zipper b f a m)
    → Represents (back n).0 (spec_step (zipper b f a m) back_call).0
      × ((back n).1 ≡ (spec_step (zipper b f a m) back_call).1)
unfolding spec_step
back-Represents {n} [] a f m r = rw (back_start n r.index) (r, refl)
back-Represents {n} (e ∷ b) a f m r =
    rw (back_lands n (length b) r.index (omega (arith, r.index, length_stack r))) (
      record { stack = r.stack; index = refl; muted = refl },
      ap (λ s. get_elem? s (length b)) r.stack
          ∙ get_elem?-reverse_aux b (e ∷ f ∷ a) (length b) 0 (omega arith),
    )

forward-Represents :
    {n : Nav} (b a : List Entry) (f : Entry) (m : Bool)
    → Represents n (zipper b f a m)
    → Represents (forward n).0 (spec_step (zipper b f a m) forward_call).0
      × ((forward n).1 ≡ (spec_step (zipper b f a m) forward_call).1)
unfolding spec_step
forward-Represents {n} b [] f m r =
    rw (forward_end n (omega (arith, r.index, length_stack r))) (r, refl)
forward-Represents {n} b (e ∷ a) f m r =
    rw (forward_lands n (omega (arith, r.index, length_stack r))) (
      record { stack = r.stack; index = omega (arith, r.index); muted = refl },
      ap (λ s. get_elem? s (n.index + 1)) r.stack
          ∙ get_elem?-reverse_aux b (f ∷ e ∷ a) (n.index + 1) 1 (omega (arith, r.index)),
    )

step-Represents :
    {n : Nav} {z : Zipper} (c : Call)
    → Represents n z
    → Represents (step n c).0 (spec_step z c).0 × ((step n c).1 ≡ (spec_step z c).1)
unfolding step
step-Represents {z = z} (push_call p) r = (push-Represents r p, push_silent z p)
step-Represents {z = z} back_call r = back-Represents z.behind z.ahead z.focus z.muted r
step-Represents {z = z} forward_call r = forward-Represents z.behind z.ahead z.focus z.muted r

-- Any sequence of calls leaves the array and the index laid out as the zipper that the same calls
-- lead to, and every call returns what it returns on the zipper.
pub run-Represents :
    {n : Nav} {z : Zipper} (cs : List Call)
    → Represents n z
    → Represents (run n cs).0 (spec_run z cs).0 × ((run n cs).1 ≡ (spec_run z cs).1)
unfolding run spec_run
run-Represents [] r = (r, refl)
run-Represents {n = n} {z = z} (c ∷ cs) r =
    let (r', e) = step-Represents c r in
    let (r'', es) = run-Represents {n = (step n c).0} {z = (spec_step z c).0} cs r' in
    (r'', ap₂ ◌∷◌ e es)

-- The hook's first state is the zipper with nothing behind or ahead.
pub start-Represents :
    (p : Partial)
    → Represents (start_nav p) (zipper [] (normalize_nav_entry p (to_partial home_nav)) [] false)
unfolding start_nav
start-Represents p = record { stack = refl; index = refl; muted = refl }
