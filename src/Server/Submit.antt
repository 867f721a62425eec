-- ===== src/Server/Submit.antt =====
-- The handler of `ProverSubmit` in src/server.rs, and the table of seen nonces. What the handler reads
-- before it spawns its task is a `Snapshot`; the rest runs in the task, on the state of that moment.
pub mod Verdicts
pub mod Values
pub mod Cases
pub mod Totality
pub mod Replay
pub mod Nonces
pub mod Parts
use Prim.Native.String.{String}
use aleo_pool_server.Prelude.{
  ℕ, ◌/◌, Bool, true, false, not, List, [], ◌∷◌, ◌++◌, Option, none, some, ltb, ◌==◌, if◌then◌else◌,
  min, mul64, u64_max, ℕ_discrete, Outcome, done, panic, ◌>>=◌,
}
use aleo_pool_server.Map
use aleo_pool_server.Accounting.{new_share, new_solution}
use aleo_pool_server.Stratum.{response, bool}
use aleo_pool_server.World.{World}
use aleo_pool_server.Server.{Server, Effect, to_prover, to_accounting, to_validator}
use aleo_pool_server.Server.Prover
use aleo_pool_server.Server.Prover.{ProverState}
use aleo_pool_server.Server.Pool
use aleo_pool_server.Server.Puzzle.{prover_polynomial, hash_commitment}

pub record Snapshot (w : World) : Type 0 where
  pub latest_epoch_number : ℕ
  pub modifier : w.f64.Float
  pub global_proof_target : ℕ

-- The arguments of `ProverSubmit`.
pub record Submission (w : World) : Type 0 where
  pub id : w.RequestId
  pub peer_addr : w.Peer
  pub epoch_number : ℕ
  pub nonce : ℕ
  pub commitment : w.Commitment
  pub proof : w.Proof

-- The outcome of the checks: the difficulty of an accepted share, or the error that is answered.
pub data Verdict : Type 0 where
  accept : ℕ → Verdict
  reject : ℕ → String → Verdict

-- `seen_nonce`: whether the nonce was there, and the set with it.
unfoldable pub seen_nonce : List ℕ → ℕ → Bool × List ℕ
seen_nonce nonces nonce =
    (Map.contains ℕ_discrete nonce nonces, Map.set_insert ℕ_discrete nonce nonces)

-- `clear_nonce`, and the ticker that runs every sixty seconds.
unfoldable pub clear_nonce : {w : World} → Server w → Server w
clear_nonce s = record s { nonce_seen = [] }

module _ (w : World) where
  open w use {
    f64, Sender, RequestId, EpochChallenge, Address, dec_peer, address_text, error_with_custom_msg,
    commitment_bytes, sha256d_to_u64, field_mul, evaluate, epoch_polynomial, kzg_check,
  }

  unfoldable pub snapshot : Server w → Snapshot w
  snapshot s = record {
    latest_epoch_number = s.latest_epoch_number;
    modifier = s.pool_state.current_global_target_modifier;
    global_proof_target = s.latest_proof_target;
  }

  -- `send_result` for a share that is accepted, and for one that is not.
  unfoldable pub send_ok : Sender → RequestId → Effect w
  send_ok sender id = to_prover sender (response id (some (bool true)) none)

  unfoldable pub send_error : Sender → RequestId → ℕ → String → Effect w
  send_error sender id code desc =
      to_prover sender (response id none (some (error_with_custom_msg code desc)))

  -- The target that a share has to meet.
  unfoldable pub share_target : Snapshot w → ProverState w → ℕ
  share_target c state =
      let target = f64.to_u64 (f64.mul (f64.of_u64 state.current_target) c.modifier) in
      if ltb c.global_proof_target target then c.global_proof_target else target

  -- `u64::MAX / hash`, which panics if the hash is 0.
  unfoldable pub proof_difficulty : List ℕ → Outcome ℕ
  proof_difficulty bytes =
      let hash = sha256d_to_u64 bytes in if hash == 0 then panic else done (u64_max / hash)

  -- The verification of the proof itself: `some` error if it fails.
  unfoldable pub check_proof :
      EpochChallenge → Address → Submission w → Outcome (Option (ℕ × String))
  check_proof challenge pool_address m = do
    polynomial ← prover_polynomial w challenge pool_address m.nonce
    elim polynomial [
      | none ↦ done (some (20, "Invalid polynomial"))
      | some polynomial ↦ elim (hash_commitment w m.commitment) [
        | none ↦ done (some (20, "Invalid commitment"))
        | some point ↦
            let product =
              field_mul (evaluate polynomial point) (evaluate (epoch_polynomial challenge) point) in
            elim (kzg_check m.commitment point product m.proof) [
              | none ↦ done (some (20, "Invalid proof"))
              | some valid ↦ done (if valid then none else some (20, "Invalid proof"))
            ]
      ]
    ]

  -- The checks after the one of the nonce.
  unfoldable pub judge :
      Snapshot w → EpochChallenge → Address → ProverState w → Submission w → Outcome Verdict
  judge c challenge pool_address state m = elim (commitment_bytes m.commitment) [
    | none ↦ done (reject 23 "Invalid solution")
    | some bytes ↦ do
      difficulty ← proof_difficulty bytes
      if ltb difficulty (share_target c state)
          then done (reject 23 "Difficulty target not met")
          else (do
            failure ← check_proof challenge pool_address m
            elim failure [
              | none ↦ done (accept difficulty)
              | some (code, desc) ↦ done (reject code desc)
            ])
  ]

  -- What is sent for a share of a difficulty that meets the proof target of the network.
  unfoldable pub report_solution : Snapshot w → Address → Submission w → ℕ → List (Effect w)
  report_solution c pool_address m difficulty =
      if ltb difficulty c.global_proof_target
      then []
      else to_validator pool_address m.nonce m.commitment m.proof
        ∷ to_accounting (new_solution m.commitment)
        ∷ []

  -- An accepted share is counted, credited and answered.
  unfoldable pub credit :
      ℕ
      → Snapshot w
      → Server w
      → Sender
      → ProverState w
      → Submission w
      → ℕ
      → Outcome (Server w × List (Effect w))
  credit now c s sender state m difficulty = do
    let target = share_target c state
    state' ← Prover.add_share w now state target
    pool_state ← Pool.add_share w now s.pool_state target
    done (
      record s {
        prover_states = Map.insert dec_peer m.peer_addr state' s.prover_states;
        pool_state = pool_state;
      },
      to_accounting (
            new_share (address_text state'.address)
              (min difficulty (mul64 c.global_proof_target 2)))
          ∷ send_ok sender m.id
          ∷ report_solution c s.pool_address m difficulty,
    )

  unfoldable pub settle :
      ℕ
      → Snapshot w
      → Server w
      → Sender
      → ProverState w
      → Submission w
      → Verdict
      → Outcome (Server w × List (Effect w))
  settle now c s sender state m (accept difficulty) = credit now c s sender state m difficulty
  settle now c s sender state m (reject code desc) = done (s, send_error sender m.id code desc ∷ [])

  -- The task from the check of the nonce on.
  unfoldable pub judge_fresh :
      ℕ
      → Snapshot w
      → Server w
      → Sender
      → ProverState w
      → EpochChallenge
      → Submission w
      → Outcome (Server w × List (Effect w))
  judge_fresh now c s sender state challenge m =
      let (seen, nonces) = seen_nonce s.nonce_seen m.nonce in
      let s' = record s { nonce_seen = nonces } in
      if seen then done (s', send_error sender m.id 22 "Duplicate nonce" ∷ []) else (do
        verdict ← judge c challenge s.pool_address state m
        settle now c s' sender state m verdict)

  -- The whole task.
  unfoldable pub verify :
      ℕ → Snapshot w → Server w → Submission w → Outcome (Server w × List (Effect w))
  verify now c s m = elim (Map.get dec_peer m.peer_addr s.authenticated_provers) [
    | none ↦ done (s, [])
    | some sender ↦ elim (Map.get dec_peer m.peer_addr s.prover_states) [
      | none ↦ done (s, send_error sender m.id 24 "Unknown prover" ∷ [])
      | some state ↦ elim s.latest_epoch_challenge [
        | none ↦ done (s, send_error sender m.id 21 "No epoch challenge" ∷ [])
        | some challenge ↦
            if m.epoch_number == c.latest_epoch_number
            then judge_fresh now c s sender state challenge m
            else done (s, send_error sender m.id 21 "Stale solution" ∷ [])
      ]
    ]
  ]

  -- The handler, its task run at once.
  unfoldable pub submit : ℕ → Server w → Submission w → Outcome (Server w × List (Effect w))
  submit now s m = verify now (snapshot s) s m
