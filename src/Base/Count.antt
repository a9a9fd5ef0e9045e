-- ===== src/Base/Count.antt =====
-- How often a number occurs among what a function makes of a list's elements.
use Prim.Native.Nat.{ℕ, ◌+◌}
use mathlib.Core.Path.{◌≡◌}
use mathlib.Core.List.{List, [], ◌∷◌, ◌++◌}
use native.Mathlib.Omega.{arith}
use occams_rpc.Base.Tests.{◌==◌, if◌then◌else◌}

abbrev pub once : ℕ → ℕ → ℕ
once n m = if m == n then 1 else 0

module _ {ℓ} {A : Type ℓ} (f : A → ℕ) where
  abbrev pub count_by : ℕ → List A → ℕ
  count_by n [] = 0
  count_by n (x ∷ xs) = once n (f x) + count_by n xs

  pub count_by-append :
      (n : ℕ) (xs ys : List A) → count_by n (xs ++ ys) ≡ count_by n xs + count_by n ys
  count_by-append n [] ys = omega arith
  count_by-append n (x ∷ xs) ys = omega (arith, count_by-append n xs ys)
