-- ===== src/Server/Epoch/Targets.antt =====
-- What the provers are told with a challenge, and how it agrees with what a share has to meet.
use aleo_pool_server.Prelude.{
  ℕ, ◌≤◌, ◌<◌, ◌≡◌, ◌⊎◌, refl, ap, ◌∙◌, inl, inr, [], ◌∷◌, arith, ◌==◌, Bool-cases, ==_iff,
}
use aleo_pool_server.Stratum.{set_target}
use aleo_pool_server.World.{World}
use aleo_pool_server.Server.{Effect, to_prover}
use aleo_pool_server.Server.Connections.{notify_message}
use aleo_pool_server.Server.Epoch.{cap_at, told_target, inform}
use aleo_pool_server.Server.Prover
use aleo_pool_server.Server.Prover.{ProverState}
use aleo_pool_server.Server.Submit.{Snapshot, share_target}

module _ (w : World) where
  open w use {f64, Peer, Sender, EpochChallenge, dec_peer, epoch_number}

  -- A snapshot in which the modifier and the proof target are those that a challenge came with.
  abbrev pub IsFor : f64.Float → ℕ → Snapshot w → Type 0
  IsFor modifier proof_target c = (c.modifier ≡ modifier) × (c.global_proof_target ≡ proof_target)

  -- The job of a challenge, as it is sent.
  abbrev pub job_to : Sender → EpochChallenge → Effect w
  job_to sender challenge = to_prover sender (notify_message w (epoch_number challenge) challenge)

  told_target-share_target :
      (modifier : f64.Float) (proof_target : ℕ) (c : Snapshot w) (state : ProverState w)
      → IsFor modifier proof_target c
      → told_target w modifier proof_target (Prover.next_target w state).0
        ≡ share_target w c (Prover.next_target w state).1
  unfolding told_target cap_at share_target Prover.next_target
  told_target-share_target modifier proof_target c state h = simp (h.0, h.1)

  -- For a snapshot with the modifier and the proof target that come with a challenge: a prover is
  -- told the target that its shares are then held to, and then the job; or it is told the job
  -- only, and then its former target, not modified, is the one that its shares are then held to.
  pub inform_lem :
      (challenge : EpochChallenge) (proof_target : ℕ) (modifier : f64.Float) (sender : Sender)
      (state : ProverState w) (c : Snapshot w)
      → IsFor modifier proof_target c
      → let (state', sent) = inform w challenge proof_target modifier sender state in
        let held = share_target w c state' in
        (sent ≡ to_prover sender (set_target held) ∷ job_to sender challenge ∷ [])
        ⊎ ((sent ≡ job_to sender challenge ∷ []) × (state.current_target ≡ held))
  unfolding inform
  inform_lem challenge proof_target modifier sender state c h =
      let told = told_target w modifier proof_target (Prover.next_target w state).0 in
      let agree = told_target-share_target modifier proof_target c state h in
      elim (Bool-cases (state.current_target == told)) [
        | inl same ↦ inr (rw same refl, (==_iff _ _).0 same ∙ agree)
        | inr other ↦ inl (
            rw other
              (ap (λ t. to_prover sender (set_target t) ∷ job_to sender challenge ∷ []) agree))
      ]

  -- If neither the modifier nor its own speed changes the target of a prover, and one challenge
  -- comes with a proof target `low` below it and the next with one, `high`, that is not below it,
  -- then the prover is told `low` and the first job, and then only the second job, while its
  -- shares are held to more than `low`.
  pub inform_unlowered :
      (challenge challenge' : EpochChallenge) (low high : ℕ) (modifier : f64.Float)
      (sender : Sender) (state : ProverState w) (c : Snapshot w)
      → f64.to_u64 (f64.mul (f64.of_u64 state.current_target) modifier) ≡ state.current_target
      → Prover.next_target w state ≡ (state.current_target, state)
      → low < state.current_target
      → state.current_target ≤ high
      → IsFor modifier high c
      → (inform w challenge low modifier sender state
          ≡ (state, to_prover sender (set_target low) ∷ job_to sender challenge ∷ []))
        × (inform w challenge' high modifier sender state ≡ (state, job_to sender challenge' ∷ []))
        × (low < share_target w c state)
  unfolding inform share_target told_target cap_at
  inform_unlowered challenge challenge' low high modifier sender state c exact steady below above
        h =
      (ground arith, ground arith, ground arith)
