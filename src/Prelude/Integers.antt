-- ===== src/Prelude/Integers.antt =====
-- Signed integers over the native numbers, and the cast of a `u64` to `i64`.
use mathlib.Core.Path.{◌≡◌, ap}
use native.Mathlib.Omega.{arith}
use Prim.Native.Nat.{◌≤◌, ℕ, zero, suc, ◌+◌, ◌-◌, ◌*◌, ◌/◌, ◌^◌}
use mathlib.Core.Bool.{Bool}
use mathlib.Core.Option.{Option, none, some}
use aleo_pool_server.Prelude.Tests.{ltb, if◌then◌else◌}

-- `negsuc n` is -(n + 1).
pub data ℤ : Type 0 where
  pos : ℕ → ℤ
  negsuc : ℕ → ℤ

-- `x as i64`, which keeps the bits.
abbrev pub as_i64 : ℕ → ℤ
as_i64 x = if ltb x (2 ^ 63) then pos x else negsuc (2 ^ 64 - 1 - x)

-- -n
abbrev pub neg : ℕ → ℤ
neg zero = pos 0
neg (suc n) = negsuc n

-- a - b
abbrev pub difference : ℕ → ℕ → ℤ
difference a b = if ltb a b then negsuc (b - a - 1) else pos (a - b)

infixl 60 ◌+ℤ◌
abbrev pub ◌+ℤ◌ : ℤ → ℤ → ℤ
pos a +ℤ pos b = pos (a + b)
pos a +ℤ negsuc b = difference a (b + 1)
negsuc a +ℤ pos b = difference b (a + 1)
negsuc a +ℤ negsuc b = negsuc (a + b + 1)

abbrev pub opposite : ℤ → ℤ
opposite (pos a) = neg a
opposite (negsuc a) = pos (a + 1)

infixl 60 ◌-ℤ◌
abbrev pub ◌-ℤ◌ : ℤ → ℤ → ℤ
a -ℤ b = a +ℤ opposite b

infixl 70 ◌*ℤ◌
abbrev pub ◌*ℤ◌ : ℤ → ℤ → ℤ
pos a *ℤ pos b = pos (a * b)
pos a *ℤ negsuc b = neg (a * (b + 1))
negsuc a *ℤ pos b = neg ((a + 1) * b)
negsuc a *ℤ negsuc b = pos ((a + 1) * (b + 1))

-- Division rounded down; `none` for a divisor 0.
abbrev pub floor_div : ℤ → ℤ → Option ℤ
floor_div a (pos zero) = none
floor_div (pos a) (pos (suc b)) = some (pos (a / suc b))
floor_div (negsuc a) (pos (suc b)) = some (negsuc (a / suc b))
floor_div (pos zero) (negsuc b) = some (pos 0)
floor_div (pos (suc a)) (negsuc b) = some (negsuc (a / (b + 1)))
floor_div (negsuc a) (negsuc b) = some (pos ((a + 1) / (b + 1)))

-- Whether a number is a `bigint`.
abbrev pub is_bigint : ℤ → Bool
is_bigint (pos a) = ltb a (2 ^ 63)
is_bigint (negsuc a) = ltb a (2 ^ 63)

pub zero-add_int : (v : ℤ) → pos 0 +ℤ v ≡ v
zero-add_int (pos a) = ap pos (omega arith)
zero-add_int (negsuc a) = ground arith

pub sub_int : (r c : ℕ) → c ≤ r → pos r -ℤ pos c ≡ pos (r - c)
sub_int r zero h = ap pos (omega arith)
sub_int r (suc c) h = ground arith

pub add_int_assoc : (v : ℤ) (p q : ℕ) → v +ℤ pos p +ℤ pos q ≡ v +ℤ pos (p + q)
add_int_assoc (pos a) p q = ap pos (omega arith)
add_int_assoc (negsuc a) p q = ground arith

pub add_int_zero : (v : ℤ) (n : ℕ) → n ≡ 0 → v +ℤ pos n ≡ v
add_int_zero (pos a) n h = ap pos (omega arith)
add_int_zero (negsuc a) n h = ground arith

pub floor_div-some :
    (c n : ℕ) (per_share : ℤ)
    → floor_div (pos c) (pos n) ≡ some per_share
    → (1 ≤ n) × (per_share ≡ pos (c / n))
floor_div-some c zero per_share h = absurd (ground arith)
floor_div-some c (suc n) per_share h = (omega arith, ground arith)
