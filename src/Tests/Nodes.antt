-- ===== src/Tests/Nodes.antt =====
-- A node of the toy world, whose validator has the genesis block of everyone.
use aleo_pool_server.Prelude.{ℕ, ◌≡◌, List, [], some, ◌==◌}
use native.Mathlib.Decide.{ℕ_discrete as dec}
use aleo_pool_server.Validator.{Router, Node, Action, Steps, started, waiting}
use aleo_pool_server.Validator.Stuck.{can_block}
use aleo_pool_server.Tests.Toy.{toy}

abbrev pub router : Router toy
router = record {
  current_version = 6;
  NodeType = ℕ;
  prover = 1;
  is_beacon = λ t. t == 0;
  is_validator = λ t. t == 2;
  Header = ℕ;
  dec_header = dec;
  genesis_header = 0;
  Nonce = ℕ;
  Signature = ℕ;
  sign = λ n. n;
  HeaderData = ℕ;
  proof_target = λ d. some d;
  Other = ℕ;
  Reason = ℕ;
}

can_block_example :
    (n : Node toy router) × (sent : List (Action toy router)) × Steps toy router
      (started toy router)
      sent
      n
    × ((k : Node toy router) (later : List (Action toy router))
        → Steps toy router n later k
        → (later ≡ []) × (k.queue ≡ n.queue) × (k.session ≡ waiting))
can_block_example = can_block toy router 5 6 7
