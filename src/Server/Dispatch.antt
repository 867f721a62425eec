-- ===== src/Server/Dispatch.antt =====
-- `Server::process_message` and the counts that the API reads, of src/server.rs. The server spawns a
-- task for each message, so messages are handled in any order; each handler runs as a whole.
pub mod Invariant
pub mod Reachable
pub mod Nonces
pub mod Repeats
pub mod Tasks
pub mod Interleaving
pub mod Tidy
pub mod Counts
use aleo_pool_server.Prelude.{
  ℕ, ◌%◌, List, [], ◌∷◌, none, some, length, u32_mod, Outcome, done, ◌>>=◌,
}
use aleo_pool_server.Map
use aleo_pool_server.Map.{Map}
use aleo_pool_server.World.{World}
use aleo_pool_server.Server.{
  Server, ServerMessage, prover_connected, prover_authenticated, prover_disconnected, prover_submit,
  new_epoch_challenge, exit, Effect,
}
use aleo_pool_server.Server.Connections.{connect, authenticate, disconnect}
use aleo_pool_server.Server.Epoch.{new_epoch}
use aleo_pool_server.Server.Pool
use aleo_pool_server.Server.Prover
use aleo_pool_server.Server.Prover.{ProverState}
use aleo_pool_server.Server.Submit.{submit}

module _ (w : World) where
  open w use {f64, Peer, Address, dec_peer, dec_address}

  unfoldable pub process_message :
      ℕ → Server w → ServerMessage w → Outcome (Server w × List (Effect w))
  process_message now s (prover_connected peer_addr) = done (connect w s peer_addr)
  process_message now s (prover_authenticated peer_addr address sender) =
      done (authenticate w now s peer_addr address sender)
  process_message now s (prover_disconnected peer_addr) = done (disconnect w s peer_addr, [])
  process_message now s (prover_submit id peer_addr epoch_number nonce commitment proof) =
      submit w now s (record {
        id = id;
        peer_addr = peer_addr;
        epoch_number = epoch_number;
        nonce = nonce;
        commitment = commitment;
        proof = proof;
      })
  process_message now s (new_epoch_challenge challenge proof_target) =
      done (new_epoch w s challenge proof_target)
  process_message now s exit = done (s, [])

  unfoldable pub online_provers : Server w → ℕ
  online_provers s = length s.authenticated_provers % u32_mod

  unfoldable pub online_addresses : Server w → ℕ
  online_addresses s = length s.prover_address_connections % u32_mod

  unfoldable pub pool_speed : ℕ → Server w → Outcome (List f64.Float × Server w)
  pool_speed now s = do
    (speed, pool_state) ← Pool.speed w now s.pool_state
    done (speed, record s { pool_state = pool_state })

  unfoldable pub address_prover_count : Server w → Address → ℕ
  address_prover_count s address = elim (Map.get dec_address address s.prover_address_connections) [
    | none ↦ 0
    | some prover_connections ↦ length prover_connections % u32_mod
  ]

  -- `zip` and `for_each`: the speeds of a prover are added one by one.
  unfoldable pub add_speeds : List f64.Float → List f64.Float → List f64.Float
  add_speeds [] speeds = speeds
  add_speeds (x ∷ xs) [] = []
  add_speeds (x ∷ xs) (speed ∷ speeds) = f64.add speed x ∷ add_speeds xs speeds

  unfoldable pub sum_speeds :
      ℕ
      → List Peer
      → List f64.Float
      → Map Peer (ProverState w)
      → Outcome (List f64.Float × Map Peer (ProverState w))
  sum_speeds now [] speed states = done (speed, states)
  sum_speeds now (peer_addr ∷ peers) speed states = elim (Map.get dec_peer peer_addr states) [
    | none ↦ sum_speeds now peers speed states
    | some state ↦ do
      (speeds, state') ← Prover.speed w now state
      sum_speeds now peers (add_speeds speeds speed) (Map.insert dec_peer peer_addr state' states)
  ]

  unfoldable pub address_speed : ℕ → Server w → Address → Outcome (List f64.Float × Server w)
  address_speed now s address =
      let zero = f64.literal 0 1 in
      let speed : List f64.Float = zero ∷ zero ∷ zero ∷ zero ∷ [] in
      elim (Map.get dec_address address s.prover_address_connections) [
        | none ↦ done (speed, s)
        | some peers ↦ do
          (speed', states) ← sum_speeds now peers speed s.prover_states
          done (speed', record s { prover_states = states })
      ]
