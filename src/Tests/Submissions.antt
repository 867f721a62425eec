-- ===== src/Tests/Submissions.antt =====
-- Submissions to the toy server.
use aleo_pool_server.Prelude.{
  ◌*◌, ◌<◌, u64_mod, ◌∷◌, ℕ, ◌≤◌, ◌≡◌, refl, List, some, none, arith, done, to_le_bytes,
  from_le_bytes, length-to_le_bytes,
}
use native.Mathlib.Decide.{ℕ_discrete as dec}
use aleo_pool_server.Accounting.{new_share}
use aleo_pool_server.Map.{get, contains}
use aleo_pool_server.Server.{Server, Effect, to_accounting}
use aleo_pool_server.Server.Metering.{IsMetered}
use aleo_pool_server.Server.Prover.{ProverState}
use aleo_pool_server.Server.Puzzle.{
  copy_from_slice, counters, puzzle_input, coefficient, collect, hash_to_coefficients,
  hash_to_polynomial, prover_polynomial, hash_commitment,
}
use aleo_pool_server.Server.Submit.{
  Submission, submit, snapshot, share_target, proof_difficulty, check_proof, clear_nonce,
}
use aleo_pool_server.Server.Submit.Verdicts.{
  IsAcceptable, IsFresh, IsCredited, credit_effects, submit_accept,
}
use aleo_pool_server.Server.Submit.Cases.{Handled}
use aleo_pool_server.Server.Submit.Replay.{submit_after_clear}
use aleo_pool_server.Server.Submit.Values.{submit_worth}
use aleo_pool_server.Server.Submit.Totality.{IsSized, IsDivisible, submit-Handled}
use aleo_pool_server.Tests.Toy.{toy, server, prover, sum}

abbrev bytes : List ℕ
bytes = to_le_bytes 48 1000

abbrev difficulty : ℕ
difficulty = 18446744073709551

abbrev pub submission : ℕ → Submission toy
submission proof = record {
  id = 5;
  peer_addr = 1;
  epoch_number = 3;
  nonce = 9;
  commitment = 1000;
  proof = proof;
}

proven : check_proof toy 3 7 (submission 66640) ≡ done none
unfolding check_proof copy_from_slice counters puzzle_input coefficient collect hash_to_coefficients
    hash_to_polynomial prover_polynomial hash_commitment to_le_bytes from_le_bytes
proven = refl

target_met : share_target toy (snapshot toy server) (prover 1 70) ≤ difficulty
unfolding share_target snapshot
target_met = omega arith

submission-IsAcceptable :
    IsAcceptable toy server (submission 66640) 11 (prover 1 70) 3 bytes difficulty
unfolding get dec proof_difficulty from_le_bytes to_le_bytes
submission-IsAcceptable = record {
  known = refl;
  stated = refl;
  challenged = refl;
  current = refl;
  hashed = refl;
  measured = refl;
  enough = target_met;
  proven = proven;
}

metered : IsMetered toy (prover 1 70) server.pool_state
metered = record { prover_uncached = refl; pool_uncached = refl }

provers-IsMetered :
    (state : ProverState toy)
    → get dec 1 server.prover_states ≡ some state
    → IsMetered toy state server.pool_state
unfolding get dec
provers-IsMetered state e = ground arith

fresh : IsFresh toy server (submission 66640)
unfolding contains get dec
fresh = refl

pub toy-IsSized : IsSized toy
toy-IsSized = record {
  block_hash = λ c b e. ground (arith, length-to_le_bytes 32 c);
  address = λ a b e. ground (arith, length-to_le_bytes 32 a);
  digest = λ b. length-to_le_bytes 32 (sum b);
}

pub divisible : IsDivisible toy 1000
unfolding from_le_bytes to_le_bytes
divisible b e = ground arith

submit_accept_example :
    (t : Server toy) × (submit toy 100 server (submission 66640)
      ≡ done (t, credit_effects toy server (submission 66640) 11 (prover 1 70) difficulty))
    × IsCredited toy 100 server (submission 66640) (prover 1 70) t
submit_accept_example =
    submit_accept toy 100 server (submission 66640) 11 (prover 1 70) 3 bytes difficulty
      submission-IsAcceptable metered fresh

submit-Handled_example :
    (t : Server toy) × (es : List (Effect toy)) × (submit toy 100 server (submission 3)
      ≡ done (t, es))
    × Handled toy 100 server (submission 3) t es
submit-Handled_example =
    submit-Handled toy 100 server (submission 3) provers-IsMetered toy-IsSized divisible

submit_after_clear_example :
    (t u : Server toy) × (submit toy 100 server (submission 66640)
      ≡ done (t, credit_effects toy server (submission 66640) 11 (prover 1 70) difficulty))
    × (submit toy 60000000100 (clear_nonce t) (submission 66640)
        ≡ done (u, credit_effects toy server (submission 66640) 11 (prover 1 70) difficulty))
submit_after_clear_example =
    submit_after_clear toy 100 60000000100 server (submission 66640) 11 (prover 1 70) 3 bytes
      difficulty submission-IsAcceptable metered fresh

submit_worth_example :
    (t : Server toy) × (value : ℕ) × (rest : List (Effect toy)) × (submit toy 100 server
        (submission 66640)
      ≡ done (t, to_accounting (new_share "aleo" value) ∷ rest))
    × (share_target toy (snapshot toy server) (prover 1 70) ≤ value)
    × (value ≤ difficulty)
    × (value ≤ 1000 * 2)
submit_worth_example =
    submit_worth toy 100 server (submission 66640) 11 (prover 1 70) 3 bytes difficulty
      submission-IsAcceptable metered fresh (omega arith)

small_hash : toy.sha256d_to_u64 bytes < u64_mod
unfolding to_le_bytes from_le_bytes
small_hash = omega arith

measured : proof_difficulty toy bytes ≡ done difficulty
measured = submission-IsAcceptable.measured
