-- ===== src/Floats.antt =====
-- The `f64` operations that the program uses, as an interface: the development assumes nothing of
-- rounding, and a theorem names the law that it needs.
use aleo_pool_server.Prelude.{ℕ, ◌*◌, ◌/◌, ◌+◌, ◌^◌, Bool, ltb, max}

pub record F64 : Type 1 where
  pub Float : Type 0
  -- `literal digits decimals`, as `literal 9 1` for 0.9.
  pub literal : ℕ → ℕ → Float
  -- `x as f64` of a `u64`.
  pub of_u64 : ℕ → Float
  -- `x as u64`, which truncates and saturates.
  pub to_u64 : Float → ℕ
  -- `Duration::as_secs_f64` of nanoseconds.
  pub as_secs : ℕ → Float
  pub add : Float → Float → Float
  pub mul : Float → Float → Float
  pub div : Float → Float → Float
  -- `f64::max`.
  pub maximum : Float → Float → Float
  -- `a < b`.
  pub lt : Float → Float → Bool

-- Fixed-point numbers in millionths, for evaluation.
abbrev pub millionths : F64
millionths = record {
  Float = ℕ;
  literal = λ digits decimals. digits * 10 ^ 6 / 10 ^ decimals;
  of_u64 = λ n. n * 10 ^ 6;
  to_u64 = λ x. x / 10 ^ 6;
  as_secs = λ nanos. nanos / 1000;
  add = λ a b. a + b;
  mul = λ a b. a * b / 10 ^ 6;
  div = λ a b. a * 10 ^ 6 / b;
  maximum = max;
  lt = ltb;
}
