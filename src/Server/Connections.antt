-- ===== src/Server/Connections.antt =====
-- The handlers of src/server.rs for connections: `ProverConnected`, `ProverAuthenticated` and
-- `ProverDisconnected`.
pub mod Listing
pub mod Grouping
pub mod Consistency
use aleo_pool_server.Prelude.{
  ℕ, Bool, true, List, [], ◌∷◌, ◌++◌, Option, none, some, is_empty, if◌then◌else◌, to_le_bytes,
}
use Prim.Native.String.{String}
use aleo_pool_server.Map
use aleo_pool_server.Map.{Map}
use aleo_pool_server.Stratum.{StratumMessage, set_target, notify}
use aleo_pool_server.World.{World}
use aleo_pool_server.Server.{Server, Effect, start_connection, to_prover}
use aleo_pool_server.Server.Prover
use aleo_pool_server.Server.Prover.{ProverState}

module _ (w : World) where
  open w use {
    Peer, Address, Sender, EpochChallenge, dec_peer, dec_address, hex_encode, challenge_bytes,
  }

  -- `hex::encode(epoch_number.to_le_bytes())`.
  unfoldable pub job_id : ℕ → String
  job_id epoch_number = hex_encode (to_le_bytes 4 epoch_number)

  -- The message of a new job: no other address, and all older jobs are void.
  unfoldable pub notify_message : ℕ → EpochChallenge → StratumMessage w.RequestId w.Error
  notify_message epoch_number challenge =
      notify (job_id epoch_number) (hex_encode (challenge_bytes challenge)) none true

  unfoldable pub connect : Server w → Peer → Server w × List (Effect w)
  connect s peer_addr = (
    record s { connected_provers = Map.set_insert dec_peer peer_addr s.connected_provers },
    start_connection peer_addr ∷ [],
  )

  unfoldable pub add_connection : Address → Peer → Map Address (List Peer) → Map Address (List Peer)
  add_connection address peer_addr pac = elim (Map.get dec_address address pac) [
    | some peers ↦ Map.insert dec_address address (Map.set_insert dec_peer peer_addr peers) pac
    | none ↦ Map.insert dec_address address (peer_addr ∷ []) pac
  ]

  -- The job that a prover gets when it is authenticated, if there is one.
  unfoldable pub initial_job : Server w → Sender → List (Effect w)
  initial_job s sender = elim s.latest_epoch_challenge [
    | some challenge ↦ to_prover sender (notify_message s.latest_epoch_number challenge) ∷ []
    | none ↦ []
  ]

  unfoldable pub authenticate : ℕ → Server w → Peer → Address → Sender → Server w × List (Effect w)
  authenticate now s peer_addr address sender = (
    record s {
      authenticated_provers = Map.insert dec_peer peer_addr sender s.authenticated_provers;
      prover_states =
          Map.insert dec_peer peer_addr (Prover.new w now peer_addr address) s.prover_states;
      prover_address_connections = add_connection address peer_addr s.prover_address_connections;
    },
    to_prover sender (set_target 512) ∷ initial_job s sender,
  )

  unfoldable pub remove_connection :
      Address → Peer → Map Address (List Peer) → Map Address (List Peer)
  remove_connection address peer_addr pac = elim (Map.get dec_address address pac) [
    | none ↦ pac
    | some peers ↦
        let rest = Map.set_remove dec_peer peer_addr peers in
        if is_empty rest
        then Map.remove dec_address address pac
        else Map.insert dec_address address rest pac
  ]

  -- The address that the removed state of a prover had, and the connections without the prover.
  unfoldable pub forget_address :
      Option (ProverState w) → Peer → Map Address (List Peer) → Map Address (List Peer)
  forget_address none peer_addr pac = pac
  forget_address (some state) peer_addr pac = remove_connection state.address peer_addr pac

  unfoldable pub disconnect : Server w → Peer → Server w
  disconnect s peer_addr = record s {
    prover_states = Map.remove dec_peer peer_addr s.prover_states;
    prover_address_connections =
        forget_address (Map.get dec_peer peer_addr s.prover_states) peer_addr
          s.prover_address_connections;
    connected_provers = Map.set_remove dec_peer peer_addr s.connected_provers;
    authenticated_provers = Map.remove dec_peer peer_addr s.authenticated_provers;
  }
