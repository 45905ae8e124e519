-- ===== src/Base/Sets.antt =====
-- A JavaScript `Set` of strings in insertion order, built from a list: first occurrences stay.
use Prim.Native.Nat.{suc, ◌≤◌}
use mathlib.Core.Path.{◌≡◌, refl, ap, ◌∙◌}
use mathlib.Core.Logic.{inl, inr}
use mathlib.Core.Bool.{true, false, not, ◌&&◌, ◌||◌}
use mathlib.Core.List.{List, [], ◌∷◌, ◌++◌}
use native.Mathlib.Omega.{arith}
use klew.Base.Tests.{if◌then◌else◌, Bool-cases}
use klew.Base.Lists.{length, all, keep}
use klew.Base.Text.{Str, str_eq, str_eq_iff, str_eq_self, has}

-- `for (x of xs) if (!seen.has(x)) { seen.add(x); out.push(x) }`
unfoldable pub uniq_from : List Str → List Str → List Str
uniq_from seen [] = []
uniq_from seen (x ∷ xs) = elim (has seen x) [
  | true ↦ uniq_from seen xs
  | false ↦ x ∷ uniq_from (x ∷ seen) xs
]

-- `[...new Set(xs)]`
unfoldable pub uniq : List Str → List Str
unfolding uniq_from
uniq xs = uniq_from [] xs

abbrev pub Unique : List Str → Type 0
Unique [] = Unit {0}
Unique (x ∷ xs) = (has xs x ≡ false) × Unique xs

-- no element of the second list is in the first
abbrev Apart : List Str → List Str → Type 0
Apart seen [] = Unit {0}
Apart seen (x ∷ xs) = (has seen x ≡ false) × Apart seen xs

module _ (seen : List Str) (x : Str) (xs : List Str) where
  pub uniq_from_old : has seen x ≡ true → uniq_from seen (x ∷ xs) ≡ uniq_from seen xs
  unfolding uniq_from
  uniq_from_old h = rw (h, uniq_from)

  pub uniq_from_new : has seen x ≡ false → uniq_from seen (x ∷ xs) ≡ x ∷ uniq_from (x ∷ seen) xs
  unfolding uniq_from
  uniq_from_new h = rw (h, uniq_from)

pub has-uniq_from :
    (seen xs : List Str) (y : Str) → has (uniq_from seen xs) y ≡ (has xs y && not (has seen y))
unfolding has
has-uniq_from seen [] y = unfold uniq_from in refl
has-uniq_from seen (x ∷ xs) y = elim (Bool-cases (has seen x)) [
  | inl old ↦ ground (arith, uniq_from_old seen x xs old, str_eq_iff x y, has-uniq_from seen xs y)
  | inr new ↦
      ground (arith, uniq_from_new seen x xs new, str_eq_iff x y, has-uniq_from (x ∷ seen) xs y)
]

pub has-uniq : (xs : List Str) (y : Str) → has (uniq xs) y ≡ has xs y
unfolding uniq has
has-uniq xs y = ground (arith, has-uniq_from [] xs y)

not_again : (seen : List Str) (x : Str) (xs : List Str) → has (uniq_from (x ∷ seen) xs) x ≡ false
unfolding has
not_again seen x xs = ground (arith, has-uniq_from (x ∷ seen) xs x, str_eq_self x)

uniq_from-Unique : (seen xs : List Str) → Unique (uniq_from seen xs)
uniq_from-Unique seen [] = unfold uniq_from in tt
uniq_from-Unique seen (x ∷ xs) = elim (Bool-cases (has seen x)) [
  | inl old ↦ rw (uniq_from_old seen x xs old) (uniq_from-Unique seen xs)
  | inr new ↦ rw (uniq_from_new seen x xs new) (not_again seen x xs, uniq_from-Unique (x ∷ seen) xs)
]

pub uniq-Unique : (xs : List Str) → Unique (uniq xs)
unfolding uniq
uniq-Unique xs = uniq_from-Unique [] xs

Apart-cons : (seen xs : List Str) (x : Str) → has xs x ≡ false → Apart seen xs → Apart (x ∷ seen) xs
unfolding has
Apart-cons seen [] x h a = tt
Apart-cons seen (y ∷ ys) x h a =
    ground (arith, str_eq_iff x y, str_eq_iff y x, Apart-cons seen ys x)

uniq_from_of_Unique : (seen xs : List Str) → Unique xs → Apart seen xs → uniq_from seen xs ≡ xs
uniq_from_of_Unique seen [] u a = unfold uniq_from in refl
uniq_from_of_Unique seen (x ∷ xs) u a =
    uniq_from_new seen x xs a.0
    ∙ ap (◌∷◌ x) (uniq_from_of_Unique (x ∷ seen) xs u.1 (Apart-cons seen xs x u.0 a.1))

Apart-nil : (xs : List Str) → Apart [] xs
unfolding has
Apart-nil [] = tt
Apart-nil (x ∷ xs) = (refl, Apart-nil xs)

pub uniq_of_Unique : (xs : List Str) → Unique xs → uniq xs ≡ xs
unfolding uniq
uniq_of_Unique xs u = uniq_from_of_Unique [] xs u (Apart-nil xs)

-- the list without its first `x`
erase : Str → List Str → List Str
erase x [] = []
erase x (y ∷ ys) = if str_eq y x then ys else y ∷ erase x ys

length-erase : (x : Str) (ys : List Str) → has ys x ≡ true → suc (length (erase x ys)) ≡ length ys
unfolding has erase
length-erase x [] h = absurd (ground arith)
length-erase x (y ∷ ys) h = ground (arith, length-erase x ys)

has-erase_ne : (x y : Str) (ys : List Str) → str_eq x y ≡ false → has (erase x ys) y ≡ has ys y
unfolding has erase
has-erase_ne x y [] h = refl
has-erase_ne x y (z ∷ zs) h =
    ground (arith, str_eq_iff z x, str_eq_iff z y, str_eq_iff x y, has-erase_ne x y zs)

all-has-erase :
    (x : Str) (xs ys : List Str)
    → has xs x ≡ false
    → all (has ys) xs ≡ true
    → all (has (erase x ys)) xs ≡ true
unfolding has
all-has-erase x [] ys n h = refl
all-has-erase x (z ∷ zs) ys n h =
    ground (arith, str_eq_iff z x, str_eq_iff x z, has-erase_ne x z ys, all-has-erase x zs ys)

all-has_more : (x : Str) (xs ys : List Str) → all (has xs) ys ≡ true → all (has (x ∷ xs)) ys ≡ true
unfolding has
all-has_more x xs [] h = refl
all-has_more x xs (y ∷ ys) h = ground (arith, all-has_more x xs ys)

all-has_wider :
    (x : Str) (xs ys : List Str) → all (has xs) (erase x ys) ≡ true → all (has (x ∷ xs)) ys ≡ true
unfolding has erase
all-has_wider x xs [] h = refl
all-has_wider x xs (y ∷ ys) h =
    ground (arith, str_eq_iff x y, str_eq_iff y x, all-has_more x xs ys, all-has_wider x xs ys)

-- Of two lists of the same length, if the one with no repetitions lies in the other, then the
-- other lies in it.
pub all-has_of_Unique :
    (xs ys : List Str)
    → Unique xs
    → all (has ys) xs ≡ true
    → length ys ≤ length xs
    → all (has xs) ys ≡ true
all-has_of_Unique [] [] u h l = refl
all-has_of_Unique [] (y ∷ ys) u h l = absurd (omega arith)
all-has_of_Unique (x ∷ xs) ys u h l = all-has_wider x xs ys (
    all-has_of_Unique xs (erase x ys) u.1 (all-has-erase x xs ys u.0 (ground arith))
      (omega (arith, length-erase x ys (ground arith))))

pub length-le_of_Unique :
    (xs ys : List Str) → Unique xs → all (has ys) xs ≡ true → length xs ≤ length ys
length-le_of_Unique [] ys u h = omega arith
length-le_of_Unique (x ∷ xs) ys u h = omega (
  arith,
  length-erase x ys (ground arith),
  length-le_of_Unique xs (erase x ys) u.1 (all-has-erase x xs ys u.0 (ground arith)),
)

pub has_of_all :
    (xs ys : List Str) (n : Str) → all (has ys) xs ≡ true → has xs n ≡ true → has ys n ≡ true
unfolding has
has_of_all [] ys n h e = absurd (ground arith)
has_of_all (x ∷ xs) ys n h e = ground (arith, str_eq_iff x n, has_of_all xs ys n)

pub all_of_has :
    (xs ys : List Str) → ((n : Str) → has xs n ≡ true → has ys n ≡ true) → all (has ys) xs ≡ true
all_of_has [] ys h = refl
all_of_has (x ∷ xs) ys h =
    rw (h x (has_here x xs)) (all_of_has xs ys (λ n e. h n (has_there x xs n e)))
  where
    has_here : (x : Str) (xs : List Str) → has (x ∷ xs) x ≡ true
    has_here x xs = unfold has in rw (str_eq_self x)

    has_there : (x : Str) (xs : List Str) (n : Str) → has xs n ≡ true → has (x ∷ xs) n ≡ true
    has_there x xs n e = unfold has in ground arith

pub has-append : (ns : List Str) (n m : Str) → has (ns ++ n ∷ []) m ≡ (has ns m || str_eq n m)
unfolding has
has-append [] n m = ground arith
has-append (k ∷ ks) n m = ground (arith, has-append ks n m)

-- What `filter` leaves of a list with another name taken out.
pub has-keep_other :
    (ns : List Str) (n m : Str)
    → has (keep (λ k. not (str_eq k n)) ns) m ≡ (has ns m && not (str_eq m n))
unfolding has
has-keep_other [] n m = refl
has-keep_other (k ∷ ks) n m =
    ground (arith, has-keep_other ks n m, str_eq_iff k n, str_eq_iff k m, str_eq_iff m n)
