-- ===== src/Server/Submit/Values.antt =====
-- The value that a credited share has, and its difficulty.
use aleo_pool_server.Prelude.{
  ℕ, ◌+◌, ◌*◌, ◌≤◌, ◌<◌, ◌≡◌, List, ◌∷◌, arith, min, mul64, mul64_exact, done, u64_mod, u64_max,
}
use native.Mathlib.Nat.{lt-div-mul-add, add-mul}
use aleo_pool_server.Accounting.{new_share}
use aleo_pool_server.World.{World}
use aleo_pool_server.Server.{Server, Effect, to_accounting}
use aleo_pool_server.Server.Metering.{IsMetered}
use aleo_pool_server.Server.Prover.{ProverState}
use aleo_pool_server.Server.Submit.{
  Submission, snapshot, share_target, proof_difficulty, submit, send_ok, report_solution,
}
use aleo_pool_server.Server.Submit.Verdicts.{IsAcceptable, IsFresh, submit_accept}

module _ (w : World) where
  open w use {Sender, EpochChallenge, address_text}

  share_target-le :
      (s : Server w) (state : ProverState w)
      → share_target w (snapshot w s) state ≤ s.latest_proof_target
  unfolding share_target snapshot
  share_target-le s state = ground arith

  -- If twice the proof target is below 2^64, then for a share that meets every condition, with a nonce
  -- that was not seen and speedometers without a cache, accounting is first sent a credit, to the
  -- prover's address, that is worth the target of the share at least, and the difficulty of the share and
  -- twice the proof target at most.
  pub submit_worth :
      (now : ℕ) (s : Server w) (m : Submission w) (sender : Sender) (state : ProverState w)
      (challenge : EpochChallenge) (bytes : List ℕ) (difficulty : ℕ)
      → IsAcceptable w s m sender state challenge bytes difficulty
      → IsMetered w state s.pool_state
      → IsFresh w s m
      → s.latest_proof_target * 2 < u64_mod
      → (t : Server w) × (value : ℕ) × (rest : List (Effect w)) × (submit w now s m
          ≡ done (t, to_accounting (new_share (address_text state.address) value) ∷ rest))
        × (share_target w (snapshot w s) state ≤ value)
        × (value ≤ difficulty)
        × (value ≤ s.latest_proof_target * 2)
  submit_worth now s m sender state challenge bytes difficulty a v fresh small =
      let (t, run, _) = submit_accept w now s m sender state challenge bytes difficulty a v fresh in
      let exact = mul64_exact s.latest_proof_target 2 small in
      let value = min difficulty (mul64 s.latest_proof_target 2) in
      (
        t,
        value,
        send_ok w sender m.id ∷ report_solution w (snapshot w s) s.pool_address m difficulty,
        run,
        omega (arith, a.enough, exact, share_target-le s state),
        omega arith,
        omega (arith, exact),
      )

  -- If the hash of a commitment is a `u64`, a difficulty is found only for a hash that is not 0, and it is
  -- the largest number whose product with the hash is a `u64`.
  pub proof_difficulty_lem :
      (bytes : List ℕ) (d : ℕ)
      → w.sha256d_to_u64 bytes < u64_mod
      → proof_difficulty w bytes ≡ done d
      → (1 ≤ d)
        × (d * w.sha256d_to_u64 bytes ≤ u64_max)
        × (u64_max < (d + 1) * w.sha256d_to_u64 bytes)
  unfolding proof_difficulty
  proof_difficulty_lem bytes d h e =
      let hash = w.sha256d_to_u64 bytes in
      (
        grind arith,
        grind arith,
        grind (arith, lt-div-mul-add {a = u64_max} {b = hash}, add-mul d 1 hash),
      )
