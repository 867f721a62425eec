-- ===== src/Tests/Tasks.antt =====
-- Two tasks with one nonce, both spawned before either runs.
use aleo_pool_server.Prelude.{
  ◌≡◌, refl, List, [], ◌∷◌, done, some, to_le_bytes, from_le_bytes, mul64, add64, Outcome, panic,
  true,
}
use native.Mathlib.Decide.{ℕ_discrete as dec}
use aleo_pool_server.Server.{Server, Effect}
use aleo_pool_server.Server.Submit.{
  Submission, Snapshot, verify, submit, judge_fresh, judge, settle, credit, share_target, snapshot,
  proof_difficulty, check_proof, seen_nonce, send_error, send_ok, report_solution,
}
use aleo_pool_server.Server.Submit.Parts.{check, check_nonce, go_on}
use aleo_pool_server.Server.Submit.Replay.{credits}
use aleo_pool_server.Map.{get, insert, contains, set_insert}
use aleo_pool_server.Server.Prover
use aleo_pool_server.Server.Pool
use aleo_pool_server.Speedometer
use aleo_pool_server.Server.Puzzle.{
  copy_from_slice, counters, puzzle_input, coefficient, collect, hash_to_coefficients,
  hash_to_polynomial, prover_polynomial, hash_commitment,
}
use aleo_pool_server.Server.Dispatch.Tasks.{
  waiting, finished, Interleaves, starts, spawns, checks, goes_on,
}
use aleo_pool_server.Server.Dispatch.Interleaving.{
  credited_nonces, AllDistinct, Interleaves-AllDistinct,
}
use aleo_pool_server.Tests.Submissions.{submission}
use aleo_pool_server.Tests.Toy.{toy, server, prover}

abbrev task : Snapshot toy × Submission toy
task = (snapshot toy server, submission 66640)

spawned : Interleaves toy server (task ∷ task ∷ []) [] []
spawned =
    spawns server (task ∷ []) [] [] (submission 66640)
      (spawns server [] [] [] (submission 66640) (starts server))

-- What a task that does not panic leaves and sends.
abbrev outcome : Outcome (Server toy × List (Effect toy)) → Server toy × List (Effect toy)
outcome (done r) = r
outcome panic = (server, [])

-- After the first parts of both, of which the second one is the end of its task.
abbrev checked : Server toy
checked = (check toy task.0 (check toy task.0 server task.1).0 task.1).0

both_checked : Interleaves toy checked [] (waiting task.0 task.1 11 3 ∷ []) []
unfolding submit check check_nonce go_on verify judge_fresh seen_nonce judge check_proof
    proof_difficulty share_target settle credit send_error send_ok report_solution snapshot
    copy_from_slice counters puzzle_input coefficient collect hash_to_coefficients
    hash_to_polynomial prover_polynomial hash_commitment to_le_bytes from_le_bytes mul64 add64 get
    insert contains set_insert dec Prover.add_share Prover.with_share Pool.add_share Pool.with_share
    Speedometer.event Speedometer.trim Speedometer.speed Speedometer.has_fresh_cache
    Speedometer.measure Speedometer.sum_events Speedometer.unwrap
both_checked =
    checks (check toy task.0 server task.1).0 [] [] (waiting task.0 task.1 11 3 ∷ []) [] task.0
      task.1 (checks server [] (task ∷ []) [] [] task.0 task.1 spawned)

abbrev ended : Server toy × List (Effect toy)
ended = outcome (go_on toy 100 task.0 checked 11 3 (prover 1 70) task.1)

stated : get dec 1 checked.prover_states ≡ some (prover 1 70)
unfolding submit check check_nonce go_on verify judge_fresh seen_nonce judge check_proof
    proof_difficulty share_target settle credit send_error send_ok report_solution snapshot
    copy_from_slice counters puzzle_input coefficient collect hash_to_coefficients
    hash_to_polynomial prover_polynomial hash_commitment to_le_bytes from_le_bytes mul64 add64 get
    insert contains set_insert dec Prover.add_share Prover.with_share Pool.add_share Pool.with_share
    Speedometer.event Speedometer.trim Speedometer.speed Speedometer.has_fresh_cache
    Speedometer.measure Speedometer.sum_events Speedometer.unwrap
stated = refl

went_on : go_on toy 100 task.0 checked 11 3 (prover 1 70) task.1 ≡ done ended
unfolding submit check check_nonce go_on verify judge_fresh seen_nonce judge check_proof
    proof_difficulty share_target settle credit send_error send_ok report_solution snapshot
    copy_from_slice counters puzzle_input coefficient collect hash_to_coefficients
    hash_to_polynomial prover_polynomial hash_commitment to_le_bytes from_le_bytes mul64 add64 get
    insert contains set_insert dec Prover.add_share Prover.with_share Pool.add_share Pool.with_share
    Speedometer.event Speedometer.trim Speedometer.speed Speedometer.has_fresh_cache
    Speedometer.measure Speedometer.sum_events Speedometer.unwrap
went_on = refl

credited : credits toy ended.1 ≡ true
unfolding submit check check_nonce go_on verify judge_fresh seen_nonce judge check_proof
    proof_difficulty share_target settle credit send_error send_ok report_solution snapshot
    copy_from_slice counters puzzle_input coefficient collect hash_to_coefficients
    hash_to_polynomial prover_polynomial hash_commitment to_le_bytes from_le_bytes mul64 add64 get
    insert contains set_insert dec Prover.add_share Prover.with_share Pool.add_share Pool.with_share
    Speedometer.event Speedometer.trim Speedometer.speed Speedometer.has_fresh_cache
    Speedometer.measure Speedometer.sum_events Speedometer.unwrap
credited = refl

-- The first task credits the nonce 9, the second one does not.
Interleaves-AllDistinct_example :
    AllDistinct toy (credited_nonces toy (finished 9 (credits toy ended.1) ∷ []))
Interleaves-AllDistinct_example =
    Interleaves-AllDistinct toy ended.0 [] (finished 9 (credits toy ended.1) ∷ []) [] (
      goes_on 100 checked ended.0 [] [] [] [] task.0 task.1 11 3 (prover 1 70) ended.1 both_checked
        stated went_on)

abbrev handled : Server toy × List (Effect toy)
handled = outcome (submit toy 100 server (submission 66640))

-- the same nonce by the other prover
abbrev copied : Submission toy
copied = record (submission 66640) { id = 6; peer_addr = 2 }
