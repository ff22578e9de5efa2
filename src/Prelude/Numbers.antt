-- ===== src/Prelude/Numbers.antt =====
-- Lemmas on products, quotients and remainders.
use Prim.Native.Nat.{ℕ, ◌+◌, ◌*◌, ◌/◌, ◌%◌, ◌≤◌, ◌<◌}
use mathlib.Core.Path.{◌≡◌}
use native.Mathlib.Omega.{arith}

pub div-le_of_le_mul : (x d n : ℕ) → 0 < n → x ≤ d * n → x / n ≤ d
div-le_of_le_mul x d n h le = grind arith

pub le-div_of_mul_le : (x d n : ℕ) → 0 < n → d * n ≤ x → d ≤ x / n
le-div_of_mul_le x d n h le = grind arith

pub mod-eq-of-multiple : (q d r : ℕ) → r < d → (q * d + r) % d ≡ r
mod-eq-of-multiple q d r h = grind arith
