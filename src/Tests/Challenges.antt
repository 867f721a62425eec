-- ===== src/Tests/Challenges.antt =====
-- Challenges of the toy server, whose epoch is 3.
use aleo_pool_server.Prelude.{
  ℕ, ◌<◌, ◌≡◌, ◌⊎◌, refl, List, [], ◌∷◌, arith, leb, ltb, ◌&&◌, if◌then◌else◌, All, map, mul64,
}
use aleo_pool_server.Accounting.{set_n}
use aleo_pool_server.Stratum.{set_target}
use aleo_pool_server.Server.{Effect, to_prover, to_accounting}
use aleo_pool_server.Server.Connections.{notify_message}
use aleo_pool_server.Server.Prover
use aleo_pool_server.Server.Prover.{ProverState}
use aleo_pool_server.Server.Epoch.{inform, new_epoch}
use aleo_pool_server.Server.Epoch.Progress.{IsCurrent, new_epoch_nonces}
use aleo_pool_server.Server.Epoch.Targets.{job_to, inform_lem, inform_unlowered}
use aleo_pool_server.Server.Epoch.Broadcast.{IsWithin, jobs, with_state, new_epoch-jobs}
use aleo_pool_server.Server.Submit.{Snapshot, share_target}
use aleo_pool_server.Tests.Toy.{toy, server, prover}

abbrev told : ℕ → Snapshot toy
told proof_target = record {
  latest_epoch_number = 3;
  modifier = 1000000;
  global_proof_target = proof_target;
}

new_epoch-jobs_example :
    (sent : List (Effect toy)) × ((new_epoch toy server 4 900).1
      ≡ to_accounting (set_n (mul64 900 5)) ∷ sent)
    × (jobs toy sent
        ≡ map
            (λ sender. (sender, notify_message toy 4 4))
            (with_state toy server.authenticated_provers server.prover_states))
    × All (IsWithin toy 900) sent
new_epoch-jobs_example = new_epoch-jobs toy server 4 900 (omega arith)

server-IsCurrent : IsCurrent toy server
server-IsCurrent = refl

new_epoch_nonces_example :
    (new_epoch toy server 3 900).0.nonce_seen
    ≡ (if leb 3 3 && ltb 0 3 then server.nonce_seen else [])
new_epoch_nonces_example = new_epoch_nonces toy server 3 900

inform_lem_example :
    let (state', sent) = inform toy 4 900 1000000 11 (prover 1 70) in
    let held = share_target toy (told 900) state' in
    (sent ≡ to_prover 11 (set_target held) ∷ job_to toy 11 4 ∷ [])
    ⊎ ((sent ≡ job_to toy 11 4 ∷ []) × ((prover 1 70).current_target ≡ held))
inform_lem_example = inform_lem toy 4 900 1000000 11 (prover 1 70) (told 900) (refl, refl)

steady : Prover.next_target toy (prover 1 70) ≡ (512, prover 1 70)
unfolding Prover.next_target
steady = refl

inform_unlowered_example :
    (inform toy 4 100 1000000 11 (prover 1 70)
      ≡ (prover 1 70, to_prover 11 (set_target 100) ∷ job_to toy 11 4 ∷ []))
    × (inform toy 5 900 1000000 11 (prover 1 70) ≡ (prover 1 70, job_to toy 11 5 ∷ []))
    × (100 < share_target toy (told 900) (prover 1 70))
inform_unlowered_example =
    inform_unlowered toy 4 5 100 900 1000000 11 (prover 1 70) (told 900) refl steady (omega arith)
      (omega arith) (refl, refl)
