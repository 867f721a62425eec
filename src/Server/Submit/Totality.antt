-- ===== src/Server/Submit/Totality.antt =====
-- The handler of a submission returns: where it could panic, and what rules that out.
use aleo_pool_server.Prelude.{
  ℕ, ◌+◌, ◌%◌, u32_mod, ◌≡◌, ◌≢◌, List, [], ◌∷◌, none, some, arith, length, Outcome-cases, done,
  panic, Option-cases, inl, inr, ℕ_discrete,
}
use aleo_pool_server.Map
use aleo_pool_server.World.{World}
use aleo_pool_server.Server.{Server, Effect}
use aleo_pool_server.Server.Metering.{IsMetered, add_share_prover, add_share_pool}
use aleo_pool_server.Server.Prover.{ProverState}
use aleo_pool_server.Server.Puzzle.{
  copy_from_slice, counters, puzzle_input, coefficient, collect, hash_to_coefficients,
  hash_to_polynomial, prover_polynomial,
}
use aleo_pool_server.Server.Submit.{
  Submission, Snapshot, snapshot, share_target, proof_difficulty, check_proof, judge, settle,
  credit, judge_fresh, verify, submit, accept, reject, seen_nonce,
}
use aleo_pool_server.Server.Submit.Cases.{Handled, run-Handled}

module _ (w : World) where
  open w use {
    EpochChallenge, Address, Sender, Commitment, Field, dec_peer, epoch_block_hash_bytes,
    address_bytes, blake2s256, commitment_bytes, sha256d_to_u64,
  }

  -- The lengths of what is hashed: a block hash, an address and a digest have 32 bytes.
  pub record IsSized : Type 0 where
    pub block_hash :
        (c : EpochChallenge) (b : List ℕ) → epoch_block_hash_bytes c ≡ some b → length b ≡ 32
    pub address : (a : Address) (b : List ℕ) → address_bytes a ≡ some b → length b ≡ 32
    pub digest : (b : List ℕ) → length (blake2s256 b) ≡ 32

  -- The commitment does not hash to 0.
  abbrev pub IsDivisible : Commitment → Type 0
  IsDivisible c = (bytes : List ℕ) → commitment_bytes c ≡ some bytes → sha256d_to_u64 bytes ≢ 0

  puzzle_input-returns :
      (c : EpochChallenge) (a : Address) (nonce : ℕ) → IsSized → puzzle_input w c a nonce ≢ panic
  unfolding puzzle_input copy_from_slice
  puzzle_input-returns c a nonce z = elim (Option-cases (epoch_block_hash_bytes c)) [
    | inl e ↦ ground arith
    | inr (h, e) ↦ elim (Option-cases (address_bytes a)) [
      | inl e' ↦ ground (arith, z.block_hash c h e)
      | inr (b, e') ↦ ground (arith, z.block_hash c h e, z.address a b e')
    ]
  ]

  collect-returns : (hash counters : List ℕ) → length hash ≡ 32 → collect w hash counters ≢ panic
  unfolding collect coefficient copy_from_slice
  collect-returns hash [] h = ground arith
  collect-returns hash (n ∷ ns) h = ground (arith, collect-returns hash ns h)

  prover_polynomial-returns :
      (c : EpochChallenge) (a : Address) (nonce : ℕ)
      → IsSized
      → prover_polynomial w c a nonce ≢ panic
  unfolding prover_polynomial hash_to_polynomial hash_to_coefficients
  prover_polynomial-returns c a nonce z = elim (Outcome-cases (puzzle_input w c a nonce)) [
    | inl e ↦ absurd (puzzle_input-returns c a nonce z e)
    | inr (none, e) ↦ ground arith
    | inr (some input, e) ↦ ground (
      arith,
      collect-returns (blake2s256 input) (counters 0 ((w.degree c + 1) % u32_mod)) (z.digest input),
    )
  ]

  judge-returns :
      (c : Snapshot w) (challenge : EpochChallenge) (a : Address) (state : ProverState w)
      (m : Submission w)
      → IsSized
      → IsDivisible m.commitment
      → judge w c challenge a state m ≢ panic
  unfolding judge proof_difficulty check_proof
  judge-returns c challenge a state m z d = elim (Option-cases (commitment_bytes m.commitment)) [
    | inl e ↦ ground arith
    | inr (bytes, e) ↦ ground (arith, d bytes e, prover_polynomial-returns challenge a m.nonce z)
  ]

  credit-returns :
      (now : ℕ) (c : Snapshot w) (s : Server w) (sender : Sender) (state : ProverState w)
      (m : Submission w) (difficulty : ℕ)
      → IsMetered w state s.pool_state
      → credit w now c s sender state m difficulty ≢ panic
  unfolding credit
  credit-returns now c s sender state m difficulty v =
      let target = share_target w c state in
      let (state', e, _, _, _, _, _) = add_share_prover w now state target v.prover_uncached in
      let (pool', e', _, _, _) = add_share_pool w now s.pool_state target v.pool_uncached in
      ground (arith, e, e')

  submit-returns :
      (now : ℕ) (s : Server w) (m : Submission w)
      → ((state : ProverState w)
          → Map.get dec_peer m.peer_addr s.prover_states ≡ some state
          → IsMetered w state s.pool_state)
      → IsSized
      → IsDivisible m.commitment
      → submit w now s m ≢ panic
  unfolding submit verify judge_fresh settle seen_nonce
  submit-returns now s m metered z d =
      elim (Option-cases (Map.get dec_peer m.peer_addr s.authenticated_provers)) [
        | inl e ↦ ground arith
        | inr (sender, known) ↦ elim (Option-cases (Map.get dec_peer m.peer_addr s.prover_states)) [
          | inl e ↦ ground arith
          | inr (state, stated) ↦ elim (Option-cases s.latest_epoch_challenge) [
            | inl e ↦ ground arith
            | inr (challenge, challenged) ↦
                elim (Outcome-cases (judge w (snapshot w s) challenge s.pool_address state m)) [
                  | inl e ↦
                      absurd (judge-returns (snapshot w s) challenge s.pool_address state m z d e)
                  | inr (reject code desc, e) ↦ ground arith
                  | inr (accept difficulty, e) ↦
                      let s' = record s {
                        nonce_seen = Map.set_insert ℕ_discrete m.nonce s.nonce_seen;
                      } in
                      ground (
                        arith,
                        credit-returns now (snapshot w s) s' sender state m difficulty
                            (metered state stated),
                      )
                ]
          ]
        ]
      ]

  -- If block hashes, addresses and digests have 32 bytes, the commitment does not hash to 0 and the
  -- speedometer that a share is counted in has no cache, the handler of a submission does not panic, and
  -- what it does is one of the three of `Handled`: nothing, for a peer that is not authenticated; one
  -- error answered and nothing kept but the nonce; or the share met every condition, with a nonce that
  -- was not seen, and it is credited as `IsCredited` and `credit_effects` say.
  pub submit-Handled :
      (now : ℕ) (s : Server w) (m : Submission w)
      → ((state : ProverState w)
          → Map.get dec_peer m.peer_addr s.prover_states ≡ some state
          → IsMetered w state s.pool_state)
      → IsSized
      → IsDivisible m.commitment
      → (t : Server w) × (es : List (Effect w)) × (submit w now s m ≡ done (t, es))
        × Handled w now s m t es
  submit-Handled now s m metered z d = elim (Outcome-cases (submit w now s m)) [
    | inl e ↦ absurd (submit-returns now s m metered z d e)
    | inr ((t, es), e) ↦ (t, es, e, run-Handled w now s m t es metered e)
  ]
