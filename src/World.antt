-- ===== src/World.antt =====
-- What src/server.rs and src/connection.rs use of other crates: the types of snarkVM, of JSON-RPC and
-- of tokio, and the functions on them that the server calls. A byte is a number below 256.
use Prim.Native.String.{String}
use aleo_pool_server.Prelude.{ℕ, Bool, List, Option}
use aleo_pool_server.Floats.{F64}

pub record World : Type 1 where
  pub f64 : F64
  -- `SocketAddr`, `Address<CanaryV0>` and `Sender<StratumMessage>`.
  pub Peer : Type 0
  pub dec_peer : Discrete Peer
  pub Address : Type 0
  pub dec_address : Discrete Address
  pub Sender : Type 0
  -- `Address::to_string` and `Address::to_bytes_le`.
  pub address_text : Address → String
  pub address_bytes : Address → Option (List ℕ)
  -- `json_rpc_types`: ids, and an error with a code and a message.
  pub RequestId : Type 0
  pub Error : Type 0
  pub error_with_custom_msg : ℕ → String → Error
  -- `hex::encode`.
  pub hex_encode : List ℕ → String
  -- `EpochChallenge`.
  pub EpochChallenge : Type 0
  pub epoch_number : EpochChallenge → ℕ
  pub epoch_block_hash_bytes : EpochChallenge → Option (List ℕ)
  pub challenge_bytes : EpochChallenge → List ℕ
  pub degree : EpochChallenge → ℕ
  -- The scalar field, polynomials over it and hashes.
  pub Field : Type 0
  pub Polynomial : Type 0
  pub field_mul : Field → Field → Field
  pub from_coefficients_vec : List Field → Polynomial
  pub evaluate : Polynomial → Field → Field
  pub epoch_polynomial : EpochChallenge → Polynomial
  pub from_bytes_le_mod_order : List ℕ → Field
  pub blake2s256 : List ℕ → List ℕ
  pub blake2b512 : List ℕ → List ℕ
  pub sha256d_to_u64 : List ℕ → ℕ
  -- `KZGCommitment`, `KZGProof`; `none` is an error, as in `KZG10::check`.
  pub Commitment : Type 0
  pub Proof : Type 0
  pub commitment_bytes : Commitment → Option (List ℕ)
  pub serialize_uncompressed : Commitment → Option (List ℕ)
  pub kzg_check : Commitment → Field → Field → Proof → Option Bool
