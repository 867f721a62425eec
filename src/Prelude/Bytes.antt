-- ===== src/Prelude/Bytes.antt =====
-- Little-endian bytes: `to_le_bytes` and `from_le_bytes` of the integers of every width.
use Prim.Native.Nat.{ℕ, zero, suc, ◌+◌, ◌*◌, ◌/◌, ◌%◌, ◌^◌, ◌<◌}
use mathlib.Core.Path.{◌≡◌, refl}
use mathlib.Core.List.{List, [], ◌∷◌}
use native.Mathlib.Nat.{pow-suc}
use native.Mathlib.Omega.{arith}
use aleo_pool_server.Prelude.Lists.{length, All}

-- The low `k` bytes of a number, the lowest first.
unfoldable pub to_le_bytes : ℕ → ℕ → List ℕ
to_le_bytes zero x = []
to_le_bytes (suc k) x = (x % 256) ∷ to_le_bytes k (x / 256)

unfoldable pub from_le_bytes : List ℕ → ℕ
from_le_bytes [] = 0
from_le_bytes (b ∷ bytes) = b + 256 * from_le_bytes bytes

pub length-to_le_bytes : (k x : ℕ) → length (to_le_bytes k x) ≡ k
unfolding to_le_bytes
length-to_le_bytes zero x = refl
length-to_le_bytes (suc k) x = omega (arith, length-to_le_bytes k (x / 256))

-- Reading the bytes back gives the number, if it fits into them.
pub from_le_bytes-to_le_bytes : (k x : ℕ) → x < 256 ^ k → from_le_bytes (to_le_bytes k x) ≡ x
unfolding to_le_bytes from_le_bytes
from_le_bytes-to_le_bytes zero x h = omega arith
from_le_bytes-to_le_bytes (suc k) x h =
    omega (arith, from_le_bytes-to_le_bytes k (x / 256) (omega (arith, pow-suc 256 k)))

pub to_le_bytes-All : (k x : ℕ) → All (λ b. b < 256) (to_le_bytes k x)
unfolding to_le_bytes
to_le_bytes-All zero x = tt
to_le_bytes-All (suc k) x = (omega arith, to_le_bytes-All k (x / 256))
