-- ===== src/Server/Puzzle.antt =====
-- The coinbase puzzle functions at the end of src/server.rs. An error is `none`; `copy_from_slice`
-- panics if the lengths differ.
use aleo_pool_server.Prelude.{
  ℕ, zero, suc, ◌+◌, List, [], ◌∷◌, ◌++◌, length, Option, none, some, ◌==◌, if◌then◌else◌,
  to_le_bytes, Outcome, done, panic, ◌>>=◌, u32_mod, ◌%◌,
}
use aleo_pool_server.World.{World}

-- The bytes of a slice of the length that `copy_from_slice` expects.
unfoldable pub copy_from_slice : ℕ → List ℕ → Outcome (List ℕ)
copy_from_slice len bytes = if length bytes == len then done bytes else panic

-- The numbers from `start`, `count` of them.
unfoldable pub counters : ℕ → ℕ → List ℕ
counters start zero = []
counters start (suc count) = start ∷ counters (start + 1) count

module _ (w : World) where
  open w use {
    Address, EpochChallenge, Field, Polynomial, Commitment, address_bytes, epoch_number,
    epoch_block_hash_bytes, degree, from_coefficients_vec, from_bytes_le_mod_order, blake2s256,
    blake2b512, serialize_uncompressed,
  }

  -- The 76 bytes that are hashed: epoch number, block hash, address and nonce.
  unfoldable pub puzzle_input : EpochChallenge → Address → ℕ → Outcome (Option (List ℕ))
  puzzle_input challenge address nonce = elim (epoch_block_hash_bytes challenge) [
    | none ↦ done none
    | some block_hash ↦ do
      hash_part ← copy_from_slice 32 block_hash
      elim (address_bytes address) [
        | none ↦ done none
        | some address_part ↦ do
          address_part ← copy_from_slice 32 address_part
          done (
              some (
                to_le_bytes 4 (epoch_number challenge)
                ++ (hash_part ++ (address_part ++ to_le_bytes 8 nonce))))
      ]
  ]

  -- The digest fills 32 of the 36 bytes, the counter the last four.
  unfoldable pub coefficient : List ℕ → ℕ → Outcome Field
  coefficient hash counter = do
    hash_part ← copy_from_slice 32 hash
    done (from_bytes_le_mod_order (blake2b512 (hash_part ++ to_le_bytes 4 counter)))

  unfoldable pub collect : List ℕ → List ℕ → Outcome (List Field)
  collect hash [] = done []
  collect hash (counter ∷ rest) = do
    c ← coefficient hash counter
    cs ← collect hash rest
    done (c ∷ cs)

  unfoldable pub hash_to_coefficients : List ℕ → ℕ → Outcome (List Field)
  hash_to_coefficients input num_coefficients =
      collect (blake2s256 input) (counters 0 num_coefficients)

  -- `degree + 1` is a `u32`.
  unfoldable pub hash_to_polynomial : List ℕ → ℕ → Outcome Polynomial
  hash_to_polynomial input degree = do
    coefficients ← hash_to_coefficients input ((degree + 1) % u32_mod)
    done (from_coefficients_vec coefficients)

  unfoldable pub prover_polynomial : EpochChallenge → Address → ℕ → Outcome (Option Polynomial)
  prover_polynomial challenge address nonce = do
    input ← puzzle_input challenge address nonce
    elim input [
      | none ↦ done none
      | some input ↦ do
        polynomial ← hash_to_polynomial input (degree challenge)
        done (some polynomial)
    ]

  unfoldable pub hash_commitment : Commitment → Option Field
  hash_commitment commitment = elim (serialize_uncompressed commitment) [
    | none ↦ none
    | some bytes ↦
        if length bytes == 96 then some (from_bytes_le_mod_order (blake2b512 bytes)) else none
  ]
