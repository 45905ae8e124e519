-- ===== src/Base/Trims.antt =====
-- `trim` twice is `trim` once.
use mathlib.Core.Path.{◌≡◌, refl}
use mathlib.Core.Logic.{inl, inr}
use mathlib.Core.Bool.{false}
use mathlib.Core.List.{[], ◌∷◌, ◌++◌, reverse, reverse-append, reverse-reverse, reverse-cons}
use Prim.Native.Nat.{ℕ}
use klew.Base.Tests.{Bool-cases}
use klew.Base.Text.{Str, is_space, trim_start, trim}

-- The text is empty or begins with no space.
abbrev Starts : Str → Type 0
Starts [] = Unit {0}
Starts (c ∷ s) = is_space c ≡ false

trim_start-Starts : (s : Str) → Starts (trim_start s)
unfolding trim_start
trim_start-Starts [] = tt
trim_start-Starts (c ∷ s) = elim (Bool-cases (is_space c)) [
  | inl gone ↦ rw gone (trim_start-Starts s)
  | inr kept ↦ rw kept kept
]

trim_start_of_Starts : (s : Str) → Starts s → trim_start s ≡ s
unfolding trim_start
trim_start_of_Starts [] h = refl
trim_start_of_Starts (c ∷ s) h = rw h

-- A last code unit that is no space stays.
trim_start-snoc :
    (s : Str) (c : ℕ) → is_space c ≡ false → trim_start (s ++ c ∷ []) ≡ trim_start s ++ c ∷ []
unfolding trim_start
trim_start-snoc [] c h = rw h
trim_start-snoc (d ∷ s) c h = elim (Bool-cases (is_space d)) [
  | inl gone ↦ rw gone (trim_start-snoc s c h)
  | inr kept ↦ rw kept
]

trim_end-Starts : (s : Str) → Starts s → Starts (reverse (trim_start (reverse s)))
unfolding trim_start
trim_end-Starts [] h = tt
trim_end-Starts (c ∷ s) h = rw (reverse-cons c s, trim_start-snoc (reverse s) c h, reverse-append) h

pub trim_idem : (s : Str) → trim (trim s) ≡ trim s
unfolding trim
trim_idem s = rw (
  trim_start_of_Starts _ (trim_end-Starts (trim_start s) (trim_start-Starts s)),
  reverse-reverse,
  trim_start_of_Starts _ (trim_start-Starts (reverse (trim_start s))),
)
