-- ===== src/Lib.antt =====
-- The pool server for Aleo: provers connect over stratum, are told jobs and targets, and submit shares;
-- a share that is hard enough and whose proof is valid is credited in a window of the last shares, and one
-- that meets the proof target of the network is sent to a validator and recorded in a database.
--
-- The server (Server, of src/server.rs) is one state, and handles each message in a task of its own;
-- here a handler runs as a whole, and messages come in any order. Connections (Connection) read the
-- messages of the protocol (Stratum) from the texts of a socket (Codec), start with ProverConnected
-- and reach the server's tables with ProverAuthenticated, and leave with ProverDisconnected
-- (Server/Connections). The connection to a validator (Validator) sends NewEpochChallenge, which the
-- server passes on as a job with a target for each prover (Server/Epoch). ProverSubmit is checked
-- (Server/Puzzle, Server/Submit) and, if accepted, counted in the speedometers of the prover and of
-- the pool (Server/Prover, Server/Pool, Speedometer) and sent to accounting (Accounting), whose
-- window of shares (Pplns) is split by owner when a solution is recorded (Database) and saved when
-- the program ends (Shutdown). The payout loop (Payout) checks the recorded solutions and pays their
-- shares.
--
-- Files and sources:
--   Cache            cache/src/lib.rs: Cache::new, get, set
--   Speedometer      speedometer/src/lib.rs: init, init_with_cache, event, speed, reset
--   Pplns            src/accounting.rs: Share, PPLNS, set_n, add_share
--   Accounting       src/accounting.rs: PPLNS::load and save, AccountingMessage, the task of
--                    Accounting::init, pplns_to_provers_shares, current_round
--   Database         src/db.rs: save_solution, set_solution_valid, get_should_pay_solutions
--   Payout           src/db.rs: pay_solution, with the procedure of src/pg_dump.sql
--   Payout/Loop      src/accounting.rs: check_solution, payout_loop
--   Start            the start of src/main.rs: main, with DB::init of src/db.rs, PPLNS::load of
--                    src/accounting.rs and Server::init of src/server.rs
--   Shutdown         src/main.rs: handle_signals; src/accounting.rs: the channel and the backup of
--                    Accounting::init, wait_for_exit
--   Stratum          stratum/src/message.rs, and ResponseParams of stratum/src/codec.rs
--   Codec            stratum/src/codec.rs: StratumCodec; Codec/Encode the encoder, Codec/Decode the decoder
--   Server           src/server.rs: Server, ServerMessage, and what Server::init makes
--   Server/Prover, Server/Pool     ProverState, PoolState
--   Server/Connections             ProverConnected, ProverAuthenticated, ProverDisconnected
--   Server/Epoch                   NewEpochChallenge
--   Server/Puzzle                  prover_polynomial, hash_to_coefficients, hash_commitment
--   Server/Submit                  ProverSubmit, seen_nonce, clear_nonce
--   Server/Dispatch                process_message, and the queries for the API
--   Api              src/api.rs: pool_stats, address_stats, current_round, admin_current_round
--   Connection       src/connection.rs: handshake, authorize, run
--   Network          src/server.rs: the listener and the receiving task of Server::init, with the
--                    connections of src/connection.rs that send to it
--   Ledger           src/server.rs and the task of src/accounting.rs that takes its messages
--   Validator        src/validator_peer.rs: Node, and the tasks of start
--   Legacy           src/message.rs: ProverMessage and its codec, which no other file uses
--   Storage          src/state_storage.rs: load, the comparator, get, put and the iterator; no other
--                    file uses it
--   World, Wire, Floats            what the code uses of other crates
--   Map              a HashMap as a list of entries, a HashSet as a list
--   Prelude          numbers, words, bytes, lists, and code that may panic
--   Tests            runs on concrete values
--
-- Conventions. A u64 is a number, with the wrap-around of a release build written out where the source
-- adds, subtracts or multiplies. A panic is a value of Outcome. Time is an argument in nanoseconds,
-- and a difference of times stops at 0, as Instant::elapsed does. A message that is sent is a
-- value in a list of effects: a failed send is only logged by the source. Iteration over a HashMap
-- follows the list of its entries, one of its possible orders. Floating point is an interface with no
-- laws (Floats), and so are the types and functions of snarkVM (World); a theorem names what it needs of
-- them. All loops are recursive on the list that they consume; only the repeated reading of a buffer
-- (Codec/Stream) is given a number: one more than there are messages, since each reading takes one message.
-- The handler of ProverSubmit spawns a task, which runs on the state that it then finds with
-- what the handler read before (Snapshot); `submit` is the handler with its task run at once, and
-- Server/Dispatch/Tasks, Server/Dispatch/Repeats and Ledger let the tasks run later, in any order, and in two
-- parts (Server/Submit/Parts): up to the check of the nonce, and from there on.
-- A connection is a function of the list of what happens to it, in the order in which `select!` sees it.
-- Network puts any number of connections and the server together, as a relation: the messages of one connection
-- are handled in the order in which they are sent, mixed with all others in any way; Network/Reordered
-- lets two of them change places, as tasks that are spawned one after the other can. Ledger puts
-- the server, its tasks, the channel and the accounting together, with what was not sent yet, so that the sends
-- of two handlers can change places; the bound of that channel is left out, a send that waits for room being a
-- message that is not sent yet (Shutdown has it). The start is a function of what the machine and other
-- crates answer (Host), and a failed call of it is a panic, as in the source.
--
-- The tasks of Validator and of Shutdown, which wait for each other, are step relations: a step may
-- come whenever its condition holds, so that the pauses of the source are left out; in Validator also the step
-- in which the server sends a solution, which it does only after a challenge. The ids of the database have no
-- bound, while the sequence of src/pg_dump.sql is one of 32-bit integers. JSON texts and the
-- delimiter codec (Json), the types of snarkOS (Router), bincode (Formats), RocksDB (Engine) and the
-- floating point of the procedure that pays are parameters; what a theorem asks of them is a record
-- (IsFaithful, IsReadable, IsKeeping).
--
-- Not modelled, since other crates do it or it only writes text: the parsing of the options, dotenv and the
-- filters of the log in src/main.rs, the pool of connections behind DB::init, the options of RocksDB, the
-- paths and the server of src/api.rs, and the texts of the log, with the Display of ServerMessage and of
-- ProverState. benches/seen_nonce.rs is a measurement.
pub mod Prelude
pub mod Map
pub mod Floats
pub mod Cache
pub mod Speedometer
pub mod Pplns
pub mod Database
pub mod Accounting
pub mod Payout
pub mod Stratum
pub mod Codec
pub mod World
pub mod Server
pub mod Wire
pub mod Network
pub mod Ledger
pub mod Start
pub mod Connection
pub mod Validator
pub mod Legacy
pub mod Shutdown
pub mod Api
pub mod Storage
pub mod Tests
