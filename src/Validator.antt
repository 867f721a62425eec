-- ===== src/Validator.antt =====
-- The connection to a validator of src/validator_peer.rs: the task that connects, reads and writes, and the
-- two tickers. The pauses before a new attempt are left out: a step may come at any time. A sender of a
-- channel that is full waits.
pub mod Stuck
use aleo_pool_server.Prelude.{
  ◌≡◌, ℕ, Bool, true, false, not, ◌&&◌, List, [], ◌∷◌, ◌++◌, Option, none, some, ltb, if◌then◌else◌,
  ite, length, ◌⊎◌, inl, inr, refl,
}
use aleo_pool_server.World.{World}
use aleo_pool_server.Server.{ServerMessage, new_epoch_challenge}

-- What the task uses of snarkOS and snarkVM.
pub record Router (w : World) : Type 1 where
  -- `SnarkOSMessage::VERSION`, and the types of a node.
  pub current_version : ℕ
  pub NodeType : Type 0
  pub prover : NodeType
  pub is_beacon : NodeType → Bool
  pub is_validator : NodeType → Bool
  -- The header of the genesis block, and headers compared.
  pub Header : Type 0
  pub dec_header : Discrete Header
  pub genesis_header : Header
  pub Nonce : Type 0
  pub Signature : Type 0
  pub sign : Nonce → Signature
  -- A block header as it is sent; its `proof_target`, `none` if it cannot be read.
  pub HeaderData : Type 0
  pub proof_target : HeaderData → Option ℕ
  -- All other messages, and the reasons of a disconnection.
  pub Other : Type 0
  pub Reason : Type 0

-- `mpsc::channel(1024)`.
abbrev pub capacity : ℕ
capacity = 1024

-- Where the task is: before a connection, in the inner loop, or there in its `sender.send`.
pub data Session : Type 0 where
  idle running waiting : Session

pub Session-cases : (s : Session) → (s ≡ idle) ⊎ ((s ≡ running) ⊎ (s ≡ waiting))
Session-cases idle = inl refl
Session-cases running = inr (inl refl)
Session-cases waiting = inr (inr refl)

module _ (w : World) (r : Router w) where
  open r use {
    current_version, NodeType, prover, is_beacon, is_validator, Header, dec_header, genesis_header,
    Nonce, Signature, sign, HeaderData, proof_target, Other, Reason,
  }

  -- `SnarkOSMessage`.
  pub data Message : Type 0 where
    challenge_request : ℕ → NodeType → Nonce → Message
    challenge_response : Header → Signature → Message
    ping : ℕ → NodeType → Message
    pong : Message
    puzzle_request : Message
    puzzle_response : w.EpochChallenge → HeaderData → Message
    disconnect : Reason → Message
    other : Other → Message

  -- The flag `connected`, the messages in the channel of the node, where the task is, and whether the
  -- tickers of 15 and of 5 seconds are in their `send`.
  pub record Node : Type 0 where
    pub connected : Bool
    pub queue : List Message
    pub session : Session
    pub asking : Bool
    pub pinging : Bool

  pub data Action : Type 0 where
    to_validator : Message → Action
    to_server : ServerMessage w → Action

  -- `framed.send`, which may fail.
  unfoldable pub send : Bool → Message → List Action
  send true message = to_validator message ∷ []
  send false message = []

  unfoldable pub our_ping : Message
  our_ping = ping current_version prover

  -- The end of the inner loop.
  unfoldable pub leave : Node → Node
  leave n = record n { session = idle }

  unfoldable pub lose : Node → Node
  lose n = record n { connected = false; session = idle }

  unfoldable pub handle_request : Bool → Node → ℕ → NodeType → Nonce → Node × List Action
  handle_request sendable n version node_type nonce =
      if ltb version current_version
      then (leave n, [])
      else if not (is_beacon node_type) && not (is_validator node_type)
      then (leave n, [])
      else (n, send sendable (challenge_response genesis_header (sign nonce)))

  -- There is room in the channel.
  unfoldable pub has_room : Node → Bool
  has_room n = ltb (length n.queue) capacity

  unfoldable pub enqueue : Message → Node → Node
  enqueue m n = record n { queue = n.queue ++ m ∷ [] }

  unfoldable pub greet : Node → Node
  greet n =
      if n.connected
      then n
      else if has_room n
      then enqueue puzzle_request (record n { connected = true })
      else record n { connected = true; session = waiting }

  unfoldable pub handle_puzzle : Node → w.EpochChallenge → Option ℕ → Node × List Action
  handle_puzzle n challenge none = (lose n, [])
  handle_puzzle n challenge (some target) =
      (n, to_server (new_epoch_challenge challenge target) ∷ [])

  -- The `match` on a message that was read; the Boolean values say whether the two sends succeed.
  unfoldable pub handle : Bool → Bool → Node → Message → Node × List Action
  handle first second n (challenge_request version node_type nonce) =
      handle_request first n version node_type nonce
  handle first second n (challenge_response header signature) =
      ite (dec_header header genesis_header) (greet n, []) (leave n, [])
  handle first second n (ping version node_type) = (n, send first pong ++ send second our_ping)
  handle first second n (puzzle_response challenge data_) =
      handle_puzzle n challenge (proof_target data_)
  handle first second n (disconnect reason) = (lose n, [])
  handle first second n pong = (n, [])
  handle first second n puzzle_request = (n, [])
  handle first second n (other o) = (n, [])

  -- What can happen, and what is sent then.
  pub data Step : Node → List Action → Node → Type 0 where
    -- a connection, and the first message
    connects :
        (n : Node) (sendable : Bool) (nonce : Nonce)
        → n.session ≡ idle
        → Step n
            (send sendable (challenge_request current_version prover nonce))
            (record n { session = running })
    -- `receiver.recv()` in the inner loop
    takes :
        (n : Node) (sendable : Bool) (m : Message) (ms : List Message)
        → n.session ≡ running
        → n.queue ≡ m ∷ ms
        → Step n (send sendable m) (record n { queue = ms })
    -- `framed.next()` in the inner loop
    reads :
        (n : Node) (first second : Bool) (m : Message)
        → n.session ≡ running
        → Step n (handle first second n m).1 (handle first second n m).0
    ends : (n : Node) → n.session ≡ running → Step n [] (lose n)
    -- the end of the `send` of `greet`
    resumes :
        (n : Node)
        → n.session ≡ waiting
        → has_room n ≡ true
        → Step n [] (enqueue puzzle_request (record n { session = running }))
    -- the tickers see `connected`, and end their `send`
    asks :
        (n : Node) → n.connected ≡ true → n.asking ≡ false → Step n [] (record n { asking = true })
    asked :
        (n : Node)
        → n.asking ≡ true
        → has_room n ≡ true
        → Step n [] (enqueue puzzle_request (record n { asking = false }))
    pings :
        (n : Node)
        → n.connected ≡ true
        → n.pinging ≡ false
        → Step n [] (record n { pinging = true })
    pinged :
        (n : Node)
        → n.pinging ≡ true
        → has_room n ≡ true
        → Step n [] (enqueue our_ping (record n { pinging = false }))
    -- a message of the server
    submits : (n : Node) (m : Other) → has_room n ≡ true → Step n [] (enqueue (other m) n)

  -- Steps one after the other.
  pub data Steps : Node → List Action → Node → Type 0 where
    stays : (n : Node) → Steps n [] n
    goes :
        (n m k : Node) (first rest : List Action)
        → Step n first m
        → Steps m rest k
        → Steps n (first ++ rest) k

  -- `start`.
  unfoldable pub started : Node
  started = record {
    connected = false;
    queue = [];
    session = idle;
    asking = false;
    pinging = false;
  }
