-- ===== src/Wire.antt =====
-- What src/connection.rs uses of other crates beside the `World`: `hex`, `semver`, the parsers of
-- snarkVM, and the text of an address.
use Prim.Native.String.{String}
use aleo_pool_server.Prelude.{ℕ, Bool, List, Option}
use aleo_pool_server.World.{World}

pub record Wire (w : World) : Type 1 where
  -- `hex::decode`.
  pub hex_decode : String → Option (List ℕ)
  -- `semver::Version`, its parser and its order; `version_lt a b` is `a < b`.
  pub Version : Type 0
  pub version_new : ℕ → ℕ → ℕ → Version
  pub version_parse : String → Option Version
  pub version_lt : Version → Version → Bool
  -- `from_bytes_le` of commitments and proofs, and `Address::from_str`.
  pub commitment_from_bytes : List ℕ → Option w.Commitment
  pub proof_from_bytes : List ℕ → Option w.Proof
  pub address_from_str : String → Option w.Address
