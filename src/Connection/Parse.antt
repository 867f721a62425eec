-- ===== src/Connection/Parse.antt =====
-- The texts of a submission and the numbers that they stand for.
use Prim.Native.String.{String}
use aleo_pool_server.Prelude.{
  ℕ, ◌^◌, ◌<◌, ◌≡◌, List, some, arith, done, to_le_bytes, from_le_bytes-to_le_bytes,
  length-to_le_bytes, to_le_bytes-All, All,
}
use aleo_pool_server.World.{World}
use aleo_pool_server.Wire.{Wire}
use aleo_pool_server.Server.{prover_submit}
use aleo_pool_server.Server.Connections.{job_id}
use aleo_pool_server.Connection.{
  parse_job, parse_nonce, parse_commitment, parse_proof, parse_submit,
}

module _ (w : World) (x : Wire w) where
  open w use {Peer, RequestId, hex_encode}
  open x use {hex_decode}

  parse_job-job_id :
      (epoch : ℕ)
      → epoch < 256 ^ 4
      → hex_decode (job_id w epoch) ≡ some (to_le_bytes 4 epoch)
      → parse_job w x (job_id w epoch) ≡ some epoch
  unfolding parse_job
  parse_job-job_id epoch small e =
      let n = length-to_le_bytes 4 epoch in
      ground (arith, e, n, from_le_bytes-to_le_bytes 4 epoch small)

  parse_nonce-hex :
      (nonce : ℕ) (text : String)
      → nonce < 256 ^ 8
      → hex_decode text ≡ some (to_le_bytes 8 nonce)
      → parse_nonce w x text ≡ done (some nonce)
  unfolding parse_nonce
  parse_nonce-hex nonce text small e =
      let n = length-to_le_bytes 8 nonce in
      ground (arith, e, n, from_le_bytes-to_le_bytes 8 nonce small)

  -- If `hex::decode` inverts `hex::encode` on bytes, a submission that repeats the job id of a 32-bit epoch, as the
  -- server sends it, with the text of the eight bytes of a nonce and the texts of a commitment and a
  -- proof, is passed on with that epoch, that nonce, that commitment and that proof.
  pub parse_submit-job_id :
      (peer : Peer) (id : RequestId) (epoch nonce : ℕ) (commitment_text proof_text : String)
      (commitment : w.Commitment) (proof : w.Proof)
      → ((bytes : List ℕ) → All (λ b. b < 256) bytes → hex_decode (hex_encode bytes) ≡ some bytes)
      → epoch < 256 ^ 4
      → nonce < 256 ^ 8
      → parse_commitment w x commitment_text ≡ some commitment
      → parse_proof w x proof_text ≡ some proof
      → parse_submit w x peer id
          (job_id w epoch)
          (hex_encode (to_le_bytes 8 nonce))
          commitment_text
          proof_text
        ≡ done (some (prover_submit id peer epoch nonce commitment proof))
  unfolding parse_submit job_id
  parse_submit-job_id peer id epoch nonce commitment_text proof_text commitment proof inverse e n c
        p =
      let job =
        parse_job-job_id epoch e (inverse (to_le_bytes 4 epoch) (to_le_bytes-All 4 epoch)) in
      let number =
        parse_nonce-hex nonce (hex_encode (to_le_bytes 8 nonce)) n
          (inverse (to_le_bytes 8 nonce) (to_le_bytes-All 8 nonce)) in
      ground (arith, job, number, c, p)
