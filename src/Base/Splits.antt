-- ===== src/Base/Splits.antt =====
-- Texts that are joined by a separator that the first of them does not hold.
use Prim.Native.Nat.{ℕ}
use mathlib.Core.Path.{◌≡◌, refl, ap₂}
use mathlib.Core.Logic.{◌≢◌}
use mathlib.Core.List.{[], ◌∷◌, ◌++◌}
use klew.Base.Text.{Str}

-- no part of the text is the separator
abbrev pub Free : ℕ → Str → Type 0
Free c [] = Unit {0}
Free c (d ∷ s) = (d ≢ c) × Free c s

-- Two texts that are split by the separator at its first place agree on both sides of it.
pub split_unique :
    (c : ℕ) (s t u v : Str) → Free c s → Free c t → s ++ (c ∷ u) ≡ t ++ (c ∷ v) → (s ≡ t) × (u ≡ v)
split_unique c [] [] u v _ _ e = (refl, cc)
split_unique c [] (d ∷ t) u v _ (n, _) e = absurd (n (cc))
split_unique c (d ∷ s) [] u v (n, _) _ e = absurd (n (cc))
split_unique c (d ∷ s) (d' ∷ t) u v (_, f) (_, g) e =
    let (p, q) = split_unique c s t u v f g (cc) in (ap₂ ◌∷◌ (cc) p, q)
