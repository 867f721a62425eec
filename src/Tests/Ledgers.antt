-- ===== src/Tests/Ledgers.antt =====
-- A challenge and a share of the toy server, on their way to accounting.
use Prim.Native.String.{String}
use aleo_pool_server.Prelude.{
  ◌≡◌, ◌<◌, ◌^◌, Option, ◌⊎◌, refl, List, [], ◌∷◌, none, some, true, done, to_le_bytes,
  from_le_bytes, mul64, add64, Outcome, panic, arith, ℕ, ◌is◌, map,
}
use native.Mathlib.Decide.{ℕ_discrete as dec}
use mathlib.Core.Bool.{Bool-discrete}
use mathlib.Core.Logic.{dite}
use text.Mathlib.TextEquality.{eq_iff}
use aleo_pool_server.Database.{no_fault}
use aleo_pool_server.Accounting.{
  Accounting, AccountingMessage, new_share, set_n, new_solution, Outside, start, run, load,
}
use aleo_pool_server.Pplns.{empty}
use aleo_pool_server.Accounting.History.{empty-IsSound}
use aleo_pool_server.Server.{Server, Effect, init, prover_authenticated, new_epoch_challenge}
use aleo_pool_server.Map.{get, insert, contains, set_insert}
use aleo_pool_server.Server.Prover
use aleo_pool_server.Server.Pool
use aleo_pool_server.Speedometer
use aleo_pool_server.Server.Puzzle.{
  copy_from_slice, counters, puzzle_input, coefficient, collect, hash_to_coefficients,
  hash_to_polynomial, prover_polynomial, hash_commitment,
}
use aleo_pool_server.Server.Connections.{authenticate, initial_job, add_connection, notify_message}
use aleo_pool_server.Server.Epoch.{
  new_epoch, replace_challenge, is_new, update_target, inform_all, inform, told_target, cap_at,
}
use aleo_pool_server.Server.Dispatch.{process_message}
use aleo_pool_server.Server.Submit.{
  Snapshot, Submission, judge, settle, credit, share_target, snapshot, proof_difficulty,
  check_proof, seen_nonce, send_error, send_ok, report_solution,
}
use aleo_pool_server.Server.Prover.{ProverState}
use aleo_pool_server.Server.Submit.Parts.{check, check_nonce, go_on}
use aleo_pool_server.Ledger.{
  Feeds, midway, IsHeard, starts, handles, spawns, checks, goes_on, sends,
}
use aleo_pool_server.Ledger.Window.{HasSize}
use aleo_pool_server.Ledger.Sound.{Feeds-run}
use aleo_pool_server.Tests.Submissions.{submission}
use aleo_pool_server.Tests.Toy.{toy}

abbrev owners : Discrete String
owners s t =
    dite (Bool-discrete (s is t) true) (λ e. yes ((eq_iff s t).0 e))
      (λ n. no (λ e. n ((eq_iff s t).1 e)))

abbrev fresh : Server toy
fresh = init toy 0 7

abbrev entered : Server toy × List (Effect toy)
entered = authenticate toy 50 fresh 1 70 11

abbrev challenged : Server toy × List (Effect toy)
challenged = new_epoch toy entered.0 3 1000

abbrev book : Accounting ℕ String
book = start none (record { solutions = []; next_id = 1; shares = [] })

abbrev outcome : Outcome (Server toy × List (Effect toy)) → Server toy × List (Effect toy)
outcome (done r) = r
outcome panic = (fresh, [])

abbrev stated_or : Option (ProverState toy) → ProverState toy
stated_or none = Prover.new toy 0 1 70
stated_or (some state) = state

abbrev task : Snapshot toy × Submission toy
task = (snapshot toy challenged.0, submission 66640)

abbrev checked : Server toy
checked = (check toy task.0 challenged.0 task.1).0

abbrev state : ProverState toy
state = stated_or (get dec 1 checked.prover_states)

abbrev ended : Server toy × List (Effect toy)
ended = outcome (go_on toy 100 task.0 checked 11 3 state task.1)

-- The share overtakes the size of the window that follows from the challenge.
abbrev messages : List (Outside × AccountingMessage ℕ String)
messages =
    (record { fault = no_fault; writable = true }, new_share "aleo" 2000)
    ∷ (record { fault = no_fault; writable = true }, set_n 5000)
    ∷ (record { fault = no_fault; writable = true }, new_solution 1000)
    ∷ []

challenged-Feeds : Feeds toy owners challenged.0 [] (set_n 5000 ∷ []) [] (1000 ∷ []) book
unfolding check check_nonce go_on seen_nonce judge check_proof proof_difficulty share_target settle
    credit send_error send_ok report_solution snapshot copy_from_slice counters puzzle_input
    coefficient collect hash_to_coefficients hash_to_polynomial prover_polynomial hash_commitment
    to_le_bytes from_le_bytes mul64 add64 get insert contains set_insert dec Prover.add_share
    Prover.with_share Pool.add_share Pool.with_share Speedometer.event Speedometer.trim
    Speedometer.speed Speedometer.has_fresh_cache Speedometer.measure Speedometer.sum_events
    Speedometer.unwrap Speedometer.init Speedometer.init_with_cache init authenticate initial_job
    add_connection new_epoch replace_challenge is_new update_target inform_all inform told_target
    cap_at Prover.new Pool.new Pool.next_global_target_modifier Prover.next_target notify_message
    Prover.speed Pool.speed process_message load empty
challenged-Feeds =
    handles 60 entered.0 challenged.0 [] [] [] [] book (new_epoch_challenge 3 1000) challenged.1
      (handles 50 fresh entered.0 [] [] [] [] book (prover_authenticated 1 70 11) entered.1
        (starts 0 7 none (record { solutions = []; next_id = 1; shares = [] }) empty-IsSound) tt tt
        refl)
      tt (omega arith) refl

stored : challenged.0.latest_proof_target < 2 ^ 60
unfolding check check_nonce go_on seen_nonce judge check_proof proof_difficulty share_target settle
    credit send_error send_ok report_solution snapshot copy_from_slice counters puzzle_input
    coefficient collect hash_to_coefficients hash_to_polynomial prover_polynomial hash_commitment
    to_le_bytes from_le_bytes mul64 add64 get insert contains set_insert dec Prover.add_share
    Prover.with_share Pool.add_share Pool.with_share Speedometer.event Speedometer.trim
    Speedometer.speed Speedometer.has_fresh_cache Speedometer.measure Speedometer.sum_events
    Speedometer.unwrap Speedometer.init Speedometer.init_with_cache init authenticate initial_job
    add_connection new_epoch replace_challenge is_new update_target inform_all inform told_target
    cap_at Prover.new Pool.new Pool.next_global_target_modifier Prover.next_target notify_message
    Prover.speed Pool.speed
stored = omega arith

known : get dec 1 checked.prover_states ≡ some state
unfolding check check_nonce go_on seen_nonce judge check_proof proof_difficulty share_target settle
    credit send_error send_ok report_solution snapshot copy_from_slice counters puzzle_input
    coefficient collect hash_to_coefficients hash_to_polynomial prover_polynomial hash_commitment
    to_le_bytes from_le_bytes mul64 add64 get insert contains set_insert dec Prover.add_share
    Prover.with_share Pool.add_share Pool.with_share Speedometer.event Speedometer.trim
    Speedometer.speed Speedometer.has_fresh_cache Speedometer.measure Speedometer.sum_events
    Speedometer.unwrap Speedometer.init Speedometer.init_with_cache init authenticate initial_job
    add_connection new_epoch replace_challenge is_new update_target inform_all inform told_target
    cap_at Prover.new Pool.new Pool.next_global_target_modifier Prover.next_target notify_message
    Prover.speed Pool.speed
known = refl

went_on : go_on toy 100 task.0 checked 11 3 state task.1 ≡ done ended
unfolding check check_nonce go_on seen_nonce judge check_proof proof_difficulty share_target settle
    credit send_error send_ok report_solution snapshot copy_from_slice counters puzzle_input
    coefficient collect hash_to_coefficients hash_to_polynomial prover_polynomial hash_commitment
    to_le_bytes from_le_bytes mul64 add64 get insert contains set_insert dec Prover.add_share
    Prover.with_share Pool.add_share Pool.with_share Speedometer.event Speedometer.trim
    Speedometer.speed Speedometer.has_fresh_cache Speedometer.measure Speedometer.sum_events
    Speedometer.unwrap Speedometer.init Speedometer.init_with_cache init authenticate initial_job
    add_connection new_epoch replace_challenge is_new update_target inform_all inform told_target
    cap_at Prover.new Pool.new Pool.next_global_target_modifier Prover.next_target notify_message
    Prover.speed Pool.speed
went_on = refl

checked-Feeds :
    Feeds toy owners checked (midway task.0 task.1 11 3 ∷ []) (set_n 5000 ∷ []) [] (1000 ∷ []) book
unfolding check check_nonce go_on seen_nonce judge check_proof proof_difficulty share_target settle
    credit send_error send_ok report_solution snapshot copy_from_slice counters puzzle_input
    coefficient collect hash_to_coefficients hash_to_polynomial prover_polynomial hash_commitment
    to_le_bytes from_le_bytes mul64 add64 get insert contains set_insert dec Prover.add_share
    Prover.with_share Pool.add_share Pool.with_share Speedometer.event Speedometer.trim
    Speedometer.speed Speedometer.has_fresh_cache Speedometer.measure Speedometer.sum_events
    Speedometer.unwrap Speedometer.init Speedometer.init_with_cache init authenticate initial_job
    add_connection new_epoch replace_challenge is_new update_target inform_all inform told_target
    cap_at Prover.new Pool.new Pool.next_global_target_modifier Prover.next_target notify_message
    Prover.speed Pool.speed
checked-Feeds =
    checks challenged.0 [] [] (set_n 5000 ∷ []) [] (1000 ∷ []) book task.0 task.1
      (spawns challenged.0 [] (set_n 5000 ∷ []) [] (1000 ∷ []) book task.1 challenged-Feeds stored)

ended-Feeds :
    Feeds toy owners ended.0 []
      (set_n 5000 ∷ new_share "aleo" 2000 ∷ new_solution 1000 ∷ [])
      []
      (1000 ∷ [])
      book
unfolding check check_nonce go_on seen_nonce judge check_proof proof_difficulty share_target settle
    credit send_error send_ok report_solution snapshot copy_from_slice counters puzzle_input
    coefficient collect hash_to_coefficients hash_to_polynomial prover_polynomial hash_commitment
    to_le_bytes from_le_bytes mul64 add64 get insert contains set_insert dec Prover.add_share
    Prover.with_share Pool.add_share Pool.with_share Speedometer.event Speedometer.trim
    Speedometer.speed Speedometer.has_fresh_cache Speedometer.measure Speedometer.sum_events
    Speedometer.unwrap Speedometer.init Speedometer.init_with_cache init authenticate initial_job
    add_connection new_epoch replace_challenge is_new update_target inform_all inform told_target
    cap_at Prover.new Pool.new Pool.next_global_target_modifier Prover.next_target notify_message
    Prover.speed Pool.speed
ended-Feeds =
    goes_on 100 checked ended.0 [] [] (set_n 5000 ∷ []) [] (1000 ∷ []) book task.0 task.1 11 3 state
      ended.1 checked-Feeds known went_on

sent-Feeds : Feeds toy owners ended.0 [] [] (map (λ e. e.1) messages) (1000 ∷ []) book
sent-Feeds =
    sends ended.0 [] [] [] (new_share "aleo" 2000 ∷ set_n 5000 ∷ []) (1000 ∷ []) book
      (new_solution 1000)
      (sends ended.0 [] [] (new_solution 1000 ∷ []) (new_share "aleo" 2000 ∷ []) (1000 ∷ []) book
        (set_n 5000)
        (sends ended.0 [] (set_n 5000 ∷ []) (new_solution 1000 ∷ []) [] (1000 ∷ []) book
          (new_share "aleo" 2000) ended-Feeds))

abbrev heard : List ℕ
heard = 1000 ∷ []

Feeds-run_example :
    (b : Accounting ℕ String) × (run owners messages book ≡ done b)
    × Feeds toy owners ended.0 [] [] [] heard b
    × ((heard ≡ []) ⊎ (IsHeard b.pplns.n heard ⊎ HasSize {Commitment = ℕ} {Owner = String} []))
Feeds-run_example = Feeds-run toy owners messages ended.0 [] [] heard book sent-Feeds
