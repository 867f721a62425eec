-- ===== src/Network.antt =====
-- The server and its connections together: the listener and the task that receives the messages, of
-- `Server::init` in src/server.rs, and the connections of src/connection.rs that send them. A
-- connection is given with all that it will ever send, of which the server has handled a part; the messages
-- of one connection are handled in the order in which they are sent, and those of different
-- connections in any order. Network/Reordered is about the other order.
pub mod Frame
pub mod Scripts
pub mod Places
pub mod Invariant
pub mod Reordered
use Prim.Native.String.{String}
use aleo_pool_server.Prelude.{ℕ, ◌≡◌, Bool, List, [], ◌∷◌, none, some, done}
use aleo_pool_server.Map.{Map, get, insert, remove}
use aleo_pool_server.World.{World}
use aleo_pool_server.Wire.{Wire}
use aleo_pool_server.Server.{
  Server, ServerMessage, prover_connected, prover_authenticated, prover_disconnected, prover_submit,
  new_epoch_challenge, exit, Effect, init,
}
use aleo_pool_server.Server.Submit.{clear_nonce}
use aleo_pool_server.Server.Submit.Totality.{IsDivisible}
use aleo_pool_server.Server.Dispatch.{process_message}
use aleo_pool_server.Connection.{Next, Happening, run}
use aleo_pool_server.Connection.Session.{requests}

module _ (w : World) where
  open w use {Peer, dec_peer}

  -- The connections whose end the server did not handle yet, by their peers, each with the messages that
  -- the server did not handle yet.
  abbrev pub Connections : Type 0
  Connections = Map Peer (List (ServerMessage w))

  -- The connections after a message of `peer`: its end takes the connection out.
  unfoldable pub advance :
      Peer → ServerMessage w → List (ServerMessage w) → Connections → Connections
  advance peer (prover_disconnected p) rest open_ = remove dec_peer peer open_
  advance peer request rest open_ = insert dec_peer peer rest open_

  -- A submitted commitment does not hash to 0.
  abbrev pub IsHashable : ServerMessage w → Type 0
  IsHashable (prover_submit id p epoch nonce commitment proof) = IsDivisible w commitment
  IsHashable request = Unit {0}

  -- The messages that no connection sends: of the validator, and of the handler of signals.
  abbrev pub IsForeign : ServerMessage w → Type 0
  IsForeign (new_epoch_challenge challenge proof_target) = Unit {0}
  IsForeign exit = Unit {0}
  IsForeign request = ⊥

module _ (w : World) (x : Wire w) where
  open w use {Peer, Address, Sender, dec_peer}

  -- What is reached from the start of the server. No two open connections have the same peer; so the peer of
  -- a connection that panicked, and never sends its end, does not come back.
  pub data Serves : Server w → Connections w → Type 0 where
    starts : (now : ℕ) (address : Address) → Serves (init w now address) []
    -- `listener.accept`, and a connection with all that will happen to it
    accepts :
        (now instant : ℕ) (s t : Server w) (open_ : Connections w) (peer : Peer)
        (pool_address : String) (sender : Sender) (sendable sendable' : Bool)
        (first second : Next w) (happenings : List (Happening w)) (es : List (Effect w))
        → Serves s open_
        → get dec_peer peer open_ ≡ none
        → process_message w now s (prover_connected peer) ≡ done (t, es)
        → Serves t (
            insert dec_peer peer
              (requests w (
                run w x peer pool_address sender sendable first sendable' second instant
                  happenings))
              open_)
    -- the next message of a connection
    handles :
        (now : ℕ) (s t : Server w) (open_ : Connections w) (peer : Peer) (request : ServerMessage w)
        (rest : List (ServerMessage w)) (es : List (Effect w))
        → Serves s open_
        → get dec_peer peer open_ ≡ some (request ∷ rest)
        → IsHashable w request
        → process_message w now s request ≡ done (t, es)
        → Serves t (advance w peer request rest open_)
    -- another message
    hears :
        (now : ℕ) (s t : Server w) (open_ : Connections w) (request : ServerMessage w)
        (es : List (Effect w))
        → Serves s open_
        → IsForeign w request
        → process_message w now s request ≡ done (t, es)
        → Serves t open_
    -- the ticker of sixty seconds
    clears : (s : Server w) (open_ : Connections w) → Serves s open_ → Serves (clear_nonce s) open_
