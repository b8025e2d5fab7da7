-- ===== src/Base/Search.antt =====
-- A number that is looked for in a list.
use Prim.Native.Nat.{ℕ}
use mathlib.Core.Path.{◌≡◌}
use mathlib.Core.Logic.{inl, inr}
use mathlib.Core.Bool.{true}
use mathlib.Core.List.{List, [], ◌∷◌, Memᴰ}
use native.Mathlib.Omega.{arith}
use meshlite.Base.Tests.{◌==◌, Bool-cases}
use meshlite.Base.Lists.{any}

pub mem_of_any : (n : ℕ) (xs : List ℕ) → any (λ x. x == n) xs ≡ true → Memᴰ n xs
mem_of_any n [] h = absurd (ground arith)
mem_of_any n (x ∷ xs) h = elim (Bool-cases (x == n)) [
  | inl same ↦ Memᴰ.head (ground arith)
  | inr other ↦ Memᴰ.tail (mem_of_any n xs (ground arith))
]

pub any_of_mem : (n : ℕ) (xs : List ℕ) → Memᴰ n xs → any (λ x. x == n) xs ≡ true
any_of_mem n [] m = elim m [ ]
any_of_mem n (x ∷ xs) (Memᴰ.head h) = ground arith
any_of_mem n (x ∷ xs) (Memᴰ.tail m) = let h = any_of_mem n xs m in ground arith
