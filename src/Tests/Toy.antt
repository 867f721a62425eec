-- ===== src/Tests/Toy.antt =====
-- A world in which peers, addresses and senders are numbers, a hash is the length or the value of its
-- input, and a proof is the number that it should be; and a server with two provers.
use Prim.Native.String.{String, [] as empty_text, ◌∷◌ as ◌:>◌}
use Prim.Native.Char.{code}
use aleo_pool_server.Prelude.{
  zero, suc, ◌≡◌, refl, ◌∙◌, ap, if◌then◌else◌, ltb, arith, ℕ, ◌+◌, ◌*◌, ◌%◌, Bool, List, [], ◌∷◌,
  none, some, ◌==◌, to_le_bytes, from_le_bytes, u64_mod,
}
use native.Mathlib.Decide.{ℕ_discrete as dec}
use aleo_pool_server.Floats.{millionths}
use aleo_pool_server.Speedometer.{Speedometer}
use aleo_pool_server.World.{World}
use aleo_pool_server.Wire.{Wire}
use aleo_pool_server.Server.{Server}
use aleo_pool_server.Server.Prover.{ProverState}
use aleo_pool_server.Server.Pool.{PoolState}

abbrev pub sum : List ℕ → ℕ
sum [] = 0
sum (n ∷ ns) = n + sum ns

-- A list of numbers as a text: each in ones, ended by a zero.
abbrev pub ones : ℕ → String → String
ones zero rest = rest
ones (suc n) rest = "1" :> ones n rest

abbrev pub unary : List ℕ → String
unary [] = ""
unary (n ∷ ns) = ones n ("0" :> unary ns)

-- The other way round, with the ones that were read so far.
abbrev pub from_unary : ℕ → String → List ℕ
from_unary n empty_text = []
from_unary n (c :> s) = if code c == 48 then n ∷ from_unary 0 s else from_unary (n + 1) s

from_unary-ones : (n m k : ℕ) (s : String) → m + n ≡ k → from_unary m (ones n s) ≡ from_unary k s
from_unary-ones zero m k s h = ap (λ i. from_unary i s) (omega arith)
from_unary-ones (suc n) m k s h = from_unary-ones n (m + 1) k s (omega arith)

pub from_unary-unary : (ns : List ℕ) → from_unary 0 (unary ns) ≡ ns
from_unary-unary [] = refl
from_unary-unary (n ∷ ns) =
    from_unary-ones n 0 n ("0" :> unary ns) (omega arith) ∙ ap (◌∷◌ n) (from_unary-unary ns)

abbrev pub toy : World
toy = record {
  f64 = millionths;
  Peer = ℕ;
  dec_peer = dec;
  Address = ℕ;
  dec_address = dec;
  Sender = ℕ;
  address_text = λ a. "aleo";
  address_bytes = λ a. some (to_le_bytes 32 a);
  RequestId = ℕ;
  Error = ℕ × String;
  error_with_custom_msg = λ code desc. (code, desc);
  hex_encode = unary;
  EpochChallenge = ℕ;
  epoch_number = λ c. c;
  epoch_block_hash_bytes = λ c. some (to_le_bytes 32 c);
  challenge_bytes = λ c. to_le_bytes 4 c;
  degree = λ c. 1;
  Field = ℕ;
  Polynomial = List ℕ;
  field_mul = λ a b. a * b;
  from_coefficients_vec = λ cs. cs;
  evaluate = λ p x. sum p + x;
  epoch_polynomial = λ c. c ∷ [];
  from_bytes_le_mod_order = λ bytes. sum bytes;
  blake2s256 = λ bytes. to_le_bytes 32 (sum bytes);
  blake2b512 = λ bytes. bytes;
  sha256d_to_u64 = λ bytes. from_le_bytes bytes % u64_mod;
  Commitment = ℕ;
  Proof = ℕ;
  commitment_bytes = λ c. some (to_le_bytes 48 c);
  serialize_uncompressed = λ c. some (to_le_bytes 96 c);
  kzg_check = λ c point product proof. some (product == proof);
}

abbrev pub meter : Speedometer ℕ
meter = record {
  storage = [];
  interval = 60 * 1000000000;
  cached = Bool.false;
  cache_interval = none;
  cache_instant = none;
  cache_value = 0;
}

abbrev pub prover : ℕ → ℕ → ProverState toy
prover peer address = record {
  peer_addr = peer;
  address = address;
  speed_2m = meter;
  speed_5m = meter;
  speed_15m = meter;
  speed_30m = meter;
  speed_1h = meter;
  current_target = 512;
  next_target = 512;
}

abbrev pub pool : PoolState toy
pool = record {
  speed_1m = meter;
  speed_5m = meter;
  speed_15m = meter;
  speed_30m = meter;
  speed_1h = meter;
  current_global_target_modifier = 1000000;
  next_global_target_modifier = 1000000;
}

-- The peers 1 and 2 mine for the address 70; their senders are 11 and 12.
abbrev pub server : Server toy
server = record {
  pool_address = 7;
  connected_provers = 1 ∷ 2 ∷ [];
  authenticated_provers = (1, 11) ∷ (2, 12) ∷ [];
  pool_state = pool;
  prover_states = (1, prover 1 70) ∷ (2, prover 2 70) ∷ [];
  prover_address_connections = (70, 1 ∷ 2 ∷ []) ∷ [];
  latest_epoch_number = 3;
  latest_epoch_challenge = some 3;
  latest_proof_target = 1000;
  nonce_seen = 8 ∷ [];
}

abbrev pub wire : Wire toy
wire = record {
  hex_decode = λ text. some (from_unary 0 text);
  Version = ℕ;
  version_new = λ major minor patch. major;
  version_parse = λ text. some 2;
  version_lt = ltb;
  commitment_from_bytes = λ bytes. some (sum bytes);
  proof_from_bytes = λ bytes. some (sum bytes);
  address_from_str = λ text. some 70;
}
