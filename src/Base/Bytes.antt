-- ===== src/Base/Bytes.antt =====
-- Strings as their bytes, and when two are the same.
use Prim.Native.Nat.{ℕ}
use mathlib.Core.Path.{◌≡◌, refl, sym, ap, ◌∙◌}
use mathlib.Core.Logic.{◌≢◌, ◌⊎◌, inl, inr}
use mathlib.Core.Bool.{Bool, true, false, ◌&&◌}
use mathlib.Core.List.{List, [], ◌∷◌}
use native.Mathlib.Omega.{arith}
use rlite.Base.Tests.{◌==◌, Bool-cases}

unfoldable pub same_bytes : List ℕ → List ℕ → Bool
same_bytes [] [] = true
same_bytes (a ∷ as') (b ∷ bs) = a == b && same_bytes as' bs
same_bytes _ _ = false

pub same_bytes_refl : (a : List ℕ) → same_bytes a a ≡ true
unfolding same_bytes
same_bytes_refl [] = refl
same_bytes_refl (x ∷ xs) = ground (arith, same_bytes_refl xs)

pub same_bytes-true : (a b : List ℕ) → same_bytes a b ≡ true → a ≡ b
unfolding same_bytes
same_bytes-true [] [] h = refl
same_bytes-true [] (b ∷ bs) h = ground arith
same_bytes-true (a ∷ as') [] h = ground arith
same_bytes-true (a ∷ as') (b ∷ bs) h =
    let head : a ≡ b = ground arith in
    let tail = same_bytes-true as' bs (ground arith) in ap (λ x. x ∷ as') head ∙ ap (◌∷◌ b) tail

pub true-false : true ≡ false → ⊥
true-false e = ground arith

-- Two strings are the same, or not.
pub same_bytes-cases :
    (a b : List ℕ) → ((same_bytes a b ≡ true) × (a ≡ b)) ⊎ ((same_bytes a b ≡ false) × (a ≢ b))
same_bytes-cases a b = elim (Bool-cases (same_bytes a b)) [
  | inl same ↦ inl (same, same_bytes-true a b same)
  | inr other ↦ inr (other, λ e. true-false (sym (same_bytes_refl a) ∙ ap (same_bytes a) e ∙ other))
]
