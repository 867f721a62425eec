-- ===== src/Server/Submit/Verdicts.antt =====
-- What a share has to meet to be credited, and that a share which meets it is.
use aleo_pool_server.Prelude.{
  ℕ, ◌≤◌, ◌≡◌, refl, false, List, ◌∷◌, none, some, arith, min, mul64, done, ℕ_discrete,
}
use aleo_pool_server.Map
use aleo_pool_server.Accounting.{new_share}
use aleo_pool_server.World.{World}
use aleo_pool_server.Server.{Server, Effect, to_accounting}
use aleo_pool_server.Server.Metering.{
  IsMetered, HasShare, PoolHasShare, add_share_prover, add_share_pool,
}
use aleo_pool_server.Server.Prover
use aleo_pool_server.Server.Pool
use aleo_pool_server.Server.Pool.{PoolState}
use aleo_pool_server.Server.Prover.{ProverState}
use aleo_pool_server.Server.Submit.{
  Submission, snapshot, share_target, proof_difficulty, check_proof, judge, credit, settle,
  judge_fresh, verify, submit, seen_nonce, send_ok, report_solution, accept,
}

module _ (w : World) where
  open w use {Sender, EpochChallenge, dec_peer, address_text, commitment_bytes}

  -- Everything that a share has to meet but for its nonce: a prover that is known and has a state, a
  -- challenge, the latest epoch, a commitment that hashes to enough difficulty, and a valid proof.
  pub record IsAcceptable (s : Server w) (m : Submission w) (sender : Sender)
      (state : ProverState w) (challenge : EpochChallenge) (bytes : List ℕ) (difficulty : ℕ)
      : Type 0 where
    pub known : Map.get dec_peer m.peer_addr s.authenticated_provers ≡ some sender
    pub stated : Map.get dec_peer m.peer_addr s.prover_states ≡ some state
    pub challenged : s.latest_epoch_challenge ≡ some challenge
    pub current : m.epoch_number ≡ s.latest_epoch_number
    pub hashed : commitment_bytes m.commitment ≡ some bytes
    pub measured : proof_difficulty w bytes ≡ done difficulty
    pub enough : share_target w (snapshot w s) state ≤ difficulty
    pub proven : check_proof w challenge s.pool_address m ≡ done none

  -- The nonce of a submission was not seen.
  abbrev pub IsFresh : Server w → Submission w → Type 0
  IsFresh s m = Map.contains ℕ_discrete m.nonce s.nonce_seen ≡ false

  -- The state after a credited share: the nonce is seen, the state of the prover and of the pool have
  -- counted it at the target of the share, by `add_share`, which leaves it as the newest event of all
  -- their speedometers; the targets are the same, and all else is as it was.
  pub record IsCredited (now : ℕ) (s : Server w) (m : Submission w) (state : ProverState w)
      (t : Server w) : Type 0 where
    pub state' : ProverState w
    pub pool' : PoolState w
    pub after : t ≡ record s {
      nonce_seen = Map.set_insert ℕ_discrete m.nonce s.nonce_seen;
      prover_states = Map.insert dec_peer m.peer_addr state' s.prover_states;
      pool_state = pool';
    }
    pub address_kept : state'.address ≡ state.address
    pub target_kept : state'.current_target ≡ state.current_target
    pub modifier_kept :
        pool'.current_global_target_modifier ≡ s.pool_state.current_global_target_modifier
    pub metered : IsMetered w state' pool'
    pub counted : Prover.add_share w now state (share_target w (snapshot w s) state) ≡ done state'
    pub pooled :
        Pool.add_share w now s.pool_state (share_target w (snapshot w s) state) ≡ done pool'
    pub has_share : HasShare w now (share_target w (snapshot w s) state) state'
    pub pool_has_share : PoolHasShare w now (share_target w (snapshot w s) state) pool'

  -- What is sent for a credited share: the credit for accounting, at most twice the proof target; the
  -- answer to the prover; and the solution, if the difficulty meets the proof target.
  abbrev pub credit_effects : Server w → Submission w → Sender → ProverState w → ℕ → List (Effect w)
  credit_effects s m sender state difficulty =
      to_accounting
        (new_share (address_text state.address) (min difficulty (mul64 s.latest_proof_target 2)))
      ∷ send_ok w sender m.id
      ∷ report_solution w (snapshot w s) s.pool_address m difficulty

  judge-accept :
      (s : Server w) (m : Submission w) (sender : Sender) (state : ProverState w)
      (challenge : EpochChallenge) (bytes : List ℕ) (difficulty : ℕ)
      → IsAcceptable s m sender state challenge bytes difficulty
      → judge w (snapshot w s) challenge s.pool_address state m ≡ done (accept difficulty)
  unfolding judge
  judge-accept s m sender state challenge bytes difficulty a = ground arith

  seen : Server w → Submission w → Server w
  seen s m = record s { nonce_seen = Map.set_insert ℕ_discrete m.nonce s.nonce_seen }

  credit-done :
      (now : ℕ) (s : Server w) (m : Submission w) (sender : Sender) (state : ProverState w)
      (difficulty : ℕ)
      → IsMetered w state s.pool_state
      → (t : Server w) × (credit w now (snapshot w s) (seen s m) sender state m difficulty
          ≡ done (t, credit_effects s m sender state difficulty))
        × IsCredited now s m state t
  unfolding credit seen snapshot
  credit-done now s m sender state difficulty v =
      let target = share_target w (snapshot w s) state in
      let (state', e₁, address, kept, _, c₁, h₁) =
        add_share_prover w now state target v.prover_uncached in
      let (pool', e₂, modifier, c₂, h₂) =
        add_share_pool w now s.pool_state target v.pool_uncached in
      (
        record s {
          nonce_seen = Map.set_insert ℕ_discrete m.nonce s.nonce_seen;
          prover_states = Map.insert dec_peer m.peer_addr state' s.prover_states;
          pool_state = pool';
        },
        rw (e₁, e₂, address) refl,
        record {
          state' = state';
          pool' = pool';
          after = refl;
          address_kept = address;
          target_kept = kept;
          modifier_kept = modifier;
          metered = record { prover_uncached = c₁; pool_uncached = c₂ };
          counted = e₁;
          pooled = e₂;
          has_share = h₁;
          pool_has_share = h₂;
        },
      )

  -- If a share meets every condition of `IsAcceptable`, its nonce was not seen and the
  -- speedometers that it is counted in have no cache, the handler does not panic, sends the
  -- effects of a credit, and leaves the state of `IsCredited`: the nonce is seen, the states of
  -- the prover and of the pool are those after `add_share` of the target that the share was held to,
  -- in which it is the newest event of every speedometer, their own targets are the same, and all
  -- else is as it was.
  pub submit_accept :
      (now : ℕ) (s : Server w) (m : Submission w) (sender : Sender) (state : ProverState w)
      (challenge : EpochChallenge) (bytes : List ℕ) (difficulty : ℕ)
      → IsAcceptable s m sender state challenge bytes difficulty
      → IsMetered w state s.pool_state
      → IsFresh s m
      → (t : Server w) × (submit w now s m ≡ done (t, credit_effects s m sender state difficulty))
        × IsCredited now s m state t
  unfolding submit snapshot verify judge_fresh seen_nonce settle seen
  submit_accept now s m sender state challenge bytes difficulty a v fresh =
      let (t, e, c) = credit-done now s m sender state difficulty v in
      let judged = judge-accept s m sender state challenge bytes difficulty a in
      (t, ground (arith, judged, e), c)
