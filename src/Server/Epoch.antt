-- ===== src/Server/Epoch.antt =====
-- The handler of `NewEpochChallenge` in src/server.rs.
pub mod Targets
pub mod Broadcast
pub mod Progress
use aleo_pool_server.Prelude.{
  ℕ, Bool, not, ◌&&◌, ◌||◌, List, [], ◌∷◌, ◌++◌, Option, none, some, ltb, ◌==◌, if◌then◌else◌,
  mul64,
}
use aleo_pool_server.Map
use aleo_pool_server.Map.{Map}
use aleo_pool_server.Accounting
use aleo_pool_server.Stratum.{set_target}
use aleo_pool_server.World.{World}
use aleo_pool_server.Server.{Server, Effect, to_prover, to_accounting}
use aleo_pool_server.Server.Connections.{notify_message}
use aleo_pool_server.Server.Prover
use aleo_pool_server.Server.Prover.{ProverState}
use aleo_pool_server.Server.Pool

-- `if next > limit { next = limit }`
unfoldable pub cap_at : ℕ → ℕ → ℕ
cap_at limit next = if ltb limit next then limit else next

module _ (w : World) where
  open w use {f64, Peer, Sender, EpochChallenge, dec_peer, epoch_number}

  -- Whether a challenge replaces the latest one, whose epoch is `latest`.
  unfoldable pub is_new : ℕ → EpochChallenge → Bool
  is_new latest challenge =
      ltb latest (epoch_number challenge) || (epoch_number challenge == 0 && latest == 0)

  -- The new challenge takes effect, and the nonces seen so far are forgotten.
  unfoldable pub replace_challenge : Server w → EpochChallenge → Server w
  replace_challenge s challenge =
      if is_new s.latest_epoch_number challenge
      then record s {
        latest_epoch_number = epoch_number challenge;
        latest_epoch_challenge = some challenge;
        nonce_seen = [];
      }
      else s

  -- The target that a prover is told: its next one, modified, at most the proof target.
  unfoldable pub told_target : f64.Float → ℕ → ℕ → ℕ
  told_target modifier proof_target target =
      cap_at proof_target (f64.to_u64 (f64.mul (f64.of_u64 target) modifier))

  -- What one prover is sent, with the state that it had.
  unfoldable pub inform :
      EpochChallenge → ℕ → f64.Float → Sender → ProverState w → ProverState w × List (Effect w)
  inform challenge proof_target modifier sender state =
      let (target, state') = Prover.next_target w state in
      let next_difficulty = told_target modifier proof_target target in
      (
        state',
        (if state.current_target == next_difficulty
              then []
              else to_prover sender (set_target next_difficulty) ∷ [])
            ++ to_prover sender (notify_message w (epoch_number challenge) challenge) ∷ [],
      )

  -- The loop over the authenticated provers; one with no state is skipped.
  unfoldable pub inform_all :
      EpochChallenge
      → ℕ
      → f64.Float
      → List (Peer × Sender)
      → Map Peer (ProverState w)
      → Map Peer (ProverState w) × List (Effect w)
  inform_all challenge proof_target modifier [] states = (states, [])
  inform_all challenge proof_target modifier ((peer_addr, sender) ∷ provers) states =
      elim (Map.get dec_peer peer_addr states) [
        | none ↦ inform_all challenge proof_target modifier provers states
        | some state ↦
            let (state', sent) = inform challenge proof_target modifier sender state in
            let (states', more) =
              inform_all challenge proof_target modifier provers
                (Map.insert dec_peer peer_addr state' states) in
            (states', sent ++ more)
      ]

  -- The part of the handler behind its early return.
  unfoldable pub update_target : Server w → EpochChallenge → ℕ → Server w × List (Effect w)
  update_target s challenge proof_target =
      let (modifier, pool_state) = Pool.next_global_target_modifier w s.pool_state in
      let (states, sent) =
        inform_all challenge proof_target modifier s.authenticated_provers s.prover_states in
      (
        record s {
          latest_proof_target = proof_target;
          pool_state = pool_state;
          prover_states = states;
        },
        to_accounting (Accounting.set_n (mul64 proof_target 5)) ∷ sent,
      )

  unfoldable pub new_epoch : Server w → EpochChallenge → ℕ → Server w × List (Effect w)
  new_epoch s challenge proof_target =
      let latest = s.latest_epoch_number in
      let s' = replace_challenge s challenge in
      if ltb (epoch_number challenge) latest
      then (s', [])
      else update_target s' challenge proof_target
