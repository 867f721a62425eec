-- ===== src/Tests/Sessions.antt =====
-- A connection to the toy server.
use aleo_pool_server.Prelude.{
  ℕ, ◌≡◌, ◌⊎◌, refl, true, List, [], ◌∷◌, ◌++◌, some, none, arith, All, done, to_le_bytes, ap,
  from_le_bytes,
}
use aleo_pool_server.Stratum.{subscribe, authorize}
use aleo_pool_server.Server.{
  ServerMessage, prover_authenticated, prover_disconnected, prover_submit,
}
use aleo_pool_server.Server.Connections.{job_id}
use aleo_pool_server.Connection.{
  Next, Happening, incoming, message, closed, parse_job, parse_commitment, parse_proof,
  parse_submit, run,
}
use aleo_pool_server.Connection.Parse.{parse_submit-job_id}
use aleo_pool_server.Connection.Session.{requests, IsSubmitOf, IsClosing, requests-run}
use aleo_pool_server.Tests.Toy.{toy, wire, unary, from_unary-unary}

commitment_read : parse_commitment toy wire (unary (5 ∷ [])) ≡ some 5
unfolding parse_commitment
commitment_read = refl

proof_read : parse_proof toy wire (unary (6 ∷ [])) ≡ some 6
unfolding parse_proof
proof_read = refl

parse_submit-job_id_example :
    parse_submit toy wire 1 9
      (job_id toy 3)
      (unary (to_le_bytes 8 300))
      (unary (5 ∷ []))
      (unary (6 ∷ []))
    ≡ done (some (prover_submit 9 1 3 300 5 6))
parse_submit-job_id_example =
    parse_submit-job_id toy wire 1 9 3 300 (unary (5 ∷ [])) (unary (6 ∷ [])) 5 6
      (λ bytes h. ap some (from_unary-unary bytes)) (omega arith) (omega arith) commitment_read
      proof_read

job_read : parse_job toy wire (unary (3 ∷ 0 ∷ 0 ∷ 0 ∷ [])) ≡ some 3
unfolding parse_job from_le_bytes
job_read = refl

abbrev pub hello : Next toy
hello = message (subscribe 8 "miner" "AleoStratum/2.0.0" none)

abbrev pub login : Next toy
login = message (authorize 9 "aleo" "x")

abbrev pub happenings : List (Happening toy)
happenings = incoming 200 closed ∷ []

requests-run_example :
    let heard = requests toy (run toy wire 1 "pool" 11 true hello true login 100 happenings) in
    (heard ≡ prover_disconnected 1 ∷ [])
    ⊎ ((address : ℕ) × (submits closing : List (ServerMessage toy)) × (heard
          ≡ prover_authenticated 1 address 11 ∷ (submits ++ closing))
        × All (IsSubmitOf toy 1) submits
        × IsClosing toy 1 closing)
requests-run_example = requests-run toy wire 1 "pool" 11 true true hello login 100 happenings
