-- ===== src/Server.antt =====
-- The pool server of src/server.rs: its state, and what it hears and says. Time is an argument, in
-- nanoseconds; what is sent is a list of effects, since a failed send is only logged.
pub mod Prover
pub mod Pool
pub mod Connections
pub mod Epoch
pub mod Metering
pub mod Puzzle
pub mod Submit
pub mod Dispatch
use Prim.Native.String.{String}
use aleo_pool_server.Prelude.{ℕ, List, [], ◌∷◌, Option, none, some, u64_max}
use aleo_pool_server.Map.{Map}
use aleo_pool_server.Accounting.{AccountingMessage}
use aleo_pool_server.Stratum.{StratumMessage}
use aleo_pool_server.World.{World}
use Prover.{ProverState}
use Pool.{PoolState}

pub record Server (w : World) : Type 0 where
  pub pool_address : w.Address
  pub connected_provers : List w.Peer
  pub authenticated_provers : Map w.Peer w.Sender
  pub pool_state : PoolState w
  pub prover_states : Map w.Peer (ProverState w)
  pub prover_address_connections : Map w.Address (List w.Peer)
  pub latest_epoch_number : ℕ
  pub latest_epoch_challenge : Option w.EpochChallenge
  pub latest_proof_target : ℕ
  pub nonce_seen : List ℕ

pub data ServerMessage (w : World) : Type 0 where
  prover_connected : w.Peer → ServerMessage w
  prover_authenticated : w.Peer → w.Address → w.Sender → ServerMessage w
  prover_disconnected : w.Peer → ServerMessage w
  prover_submit : w.RequestId → w.Peer → ℕ → ℕ → w.Commitment → w.Proof → ServerMessage w
  new_epoch_challenge : w.EpochChallenge → ℕ → ServerMessage w
  exit : ServerMessage w

-- What the server does to the other parts.
pub data Effect (w : World) : Type 0 where
  start_connection : w.Peer → Effect w
  to_prover : w.Sender → StratumMessage w.RequestId w.Error → Effect w
  to_accounting : AccountingMessage w.Commitment String → Effect w
  -- `UnconfirmedSolution`: the pool's address, the nonce, the commitment and the proof.
  to_validator : w.Address → ℕ → w.Commitment → w.Proof → Effect w

-- The server that `Server::init` makes.
unfoldable pub init : (w : World) → ℕ → w.Address → Server w
init w now address = record {
  pool_address = address;
  connected_provers = [];
  authenticated_provers = [];
  pool_state = Pool.new w now;
  prover_states = [];
  prover_address_connections = [];
  latest_epoch_number = 0;
  latest_epoch_challenge = none;
  latest_proof_target = u64_max;
  nonce_seen = [];
}
