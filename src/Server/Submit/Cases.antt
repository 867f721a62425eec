-- ===== src/Server/Submit/Cases.antt =====
-- Every submission that does not panic is ignored, refused or credited.
use Prim.Native.String.{String}
use aleo_pool_server.Prelude.{
  ℕ, ◌≤◌, ◌≡◌, ◌⊎◌, refl, List, [], ◌∷◌, none, some, arith, ◌==◌, ==_iff, done, ℕ_discrete,
  Bool-cases, Option-cases, Outcome-cases, inl, inr, Outcome, subst, sym,
}
use aleo_pool_server.Map
use aleo_pool_server.World.{World}
use aleo_pool_server.Server.{Server, Effect}
use aleo_pool_server.Server.Metering.{IsMetered}
use aleo_pool_server.Server.Prover.{ProverState}
use aleo_pool_server.Server.Submit.{
  Submission, snapshot, share_target, proof_difficulty, check_proof, judge, settle, judge_fresh,
  verify, submit, seen_nonce, send_error, accept, reject,
}
use aleo_pool_server.Server.Submit.Verdicts.{
  IsAcceptable, IsFresh, IsCredited, credit_effects, submit_accept,
}

module _ (w : World) where
  open w use {Sender, EpochChallenge, dec_peer, commitment_bytes}

  -- Only the nonce of the submission is added, or nothing changes.
  abbrev pub IsUncharged : Server w → Submission w → Server w → Type 0
  IsUncharged s m t =
      (t ≡ s) ⊎ (t ≡ record s { nonce_seen = Map.set_insert ℕ_discrete m.nonce s.nonce_seen })

  -- The three ways in which a submission `m` may take `s` to `t` and send `es`: nothing happens for a
  -- prover that is not authenticated; one error is answered, and at most the nonce is kept; or the
  -- share met everything and is credited.
  pub data Handled (now : ℕ) (s : Server w) (m : Submission w) (t : Server w) (es : List (Effect w))
      : Type 0 where
    ignored :
        Map.get dec_peer m.peer_addr s.authenticated_provers ≡ none
        → t ≡ s
        → es ≡ []
        → Handled now s m t es
    refused :
        (sender : Sender) (code : ℕ) (desc : String)
        → Map.get dec_peer m.peer_addr s.authenticated_provers ≡ some sender
        → IsUncharged s m t
        → es ≡ send_error w sender m.id code desc ∷ []
        → Handled now s m t es
    credited :
        (sender : Sender) (state : ProverState w) (challenge : EpochChallenge) (bytes : List ℕ)
        (difficulty : ℕ)
        → IsAcceptable w s m sender state challenge bytes difficulty
        → IsFresh w s m
        → IsCredited w now s m state t
        → es ≡ credit_effects w s m sender state difficulty
        → Handled now s m t es

  -- What `judge` accepts has a hash, a difficulty that meets the target, and a valid proof.
  judge_sound :
      (s : Server w) (m : Submission w) (state : ProverState w) (challenge : EpochChallenge)
      (difficulty : ℕ)
      → judge w (snapshot w s) challenge s.pool_address state m ≡ done (accept difficulty)
      → (bytes : List ℕ) × (commitment_bytes m.commitment ≡ some bytes)
        × (proof_difficulty w bytes ≡ done difficulty)
        × (share_target w (snapshot w s) state ≤ difficulty)
        × (check_proof w challenge s.pool_address m ≡ done none)
  unfolding judge
  judge_sound s m state challenge difficulty run =
      elim (Option-cases (commitment_bytes m.commitment)) [
        | inl none' ↦ absurd (ground arith)
        | inr (bytes, hashed) ↦
            (bytes, hashed, ground (arith, hashed), ground (arith, hashed), ground (arith, hashed))
      ]

  abbrev pub Runs : Outcome (Server w × List (Effect w)) → Server w → List (Effect w) → Type 0
  Runs o t es = o ≡ done (t, es)

  pub Runs-unique :
      (o : Outcome (Server w × List (Effect w))) (t u : Server w) (es fs : List (Effect w))
      → Runs o t es
      → Runs o u fs
      → (t ≡ u) × (es ≡ fs)
  Runs-unique o t u es fs e f = (cc, cc)

  module _ (now : ℕ) (s : Server w) (m : Submission w) (t : Server w) (es : List (Effect w)) where
    refuse :
        (sender : Sender) (code : ℕ) (desc : String) (s' : Server w)
        → Map.get dec_peer m.peer_addr s.authenticated_provers ≡ some sender
        → IsUncharged s m s'
        → Runs (submit w now s m) s' (send_error w sender m.id code desc ∷ [])
        → Runs (submit w now s m) t es
        → Handled now s m t es
    refuse sender code desc s' known u e run =
        let same : t ≡ s' = ground arith in
        refused sender code desc known (rw same u) (ground arith)

    -- The part of the task behind the check of the nonce.
    fresh-Handled :
        (sender : Sender) (state : ProverState w) (challenge : EpochChallenge)
        → Map.get dec_peer m.peer_addr s.authenticated_provers ≡ some sender
        → Map.get dec_peer m.peer_addr s.prover_states ≡ some state
        → s.latest_epoch_challenge ≡ some challenge
        → m.epoch_number ≡ s.latest_epoch_number
        → IsFresh w s m
        → IsMetered w state s.pool_state
        → Runs (submit w now s m) t es
        → Handled now s m t es
    unfolding submit snapshot verify judge_fresh seen_nonce settle
    fresh-Handled sender state challenge known stated challenged current fresh v run =
        elim (Outcome-cases (judge w (snapshot w s) challenge s.pool_address state m)) [
          | inl e ↦ absurd (ground arith)
          | inr (reject code desc, e) ↦
              refuse sender code desc _ known (inr refl) (ground arith) run
          | inr (accept difficulty, e) ↦
              let (bytes, hashed, measured, enough, proven) =
                judge_sound s m state challenge difficulty e in
              let a : IsAcceptable w s m sender state challenge bytes difficulty = record {
                known = known;
                stated = stated;
                challenged = challenged;
                current = current;
                hashed = hashed;
                measured = measured;
                enough = enough;
                proven = proven;
              } in
              let (t', run', c) =
                submit_accept w now s m sender state challenge bytes difficulty a v fresh in
              let (same, sent) = Runs-unique _ t' t _ es run' run in
              credited sender state challenge bytes difficulty a fresh
                (subst (IsCredited w now s m state) same c) (sym sent)
        ]

    -- Every submission that does not panic is handled in one of the three ways, and the answers are those of
    -- `Handled`: none to a peer that is not authenticated, else exactly one.
    pub run-Handled :
        ((state : ProverState w)
          → Map.get dec_peer m.peer_addr s.prover_states ≡ some state
          → IsMetered w state s.pool_state)
        → Runs (submit w now s m) t es
        → Handled now s m t es
    unfolding submit snapshot verify judge_fresh seen_nonce
    run-Handled metered run =
        elim (Option-cases (Map.get dec_peer m.peer_addr s.authenticated_provers)) [
          | inl e ↦ ignored e (ground arith) (ground arith)
          | inr (sender, known) ↦
              elim (Option-cases (Map.get dec_peer m.peer_addr s.prover_states)) [
                | inl e ↦ refuse sender 24 "Unknown prover" s known (inl refl) (ground arith) run
                | inr (state, stated) ↦ elim (Option-cases s.latest_epoch_challenge) [
                  | inl e ↦
                      refuse sender 21 "No epoch challenge" s known (inl refl) (ground arith) run
                  | inr (challenge, challenged) ↦
                      elim (Bool-cases (m.epoch_number == s.latest_epoch_number)) [
                        | inr e ↦
                            refuse sender 21 "Stale solution" s known (inl refl) (ground arith) run
                        | inl e ↦ elim (Bool-cases (Map.contains ℕ_discrete m.nonce s.nonce_seen)) [
                          | inl old ↦
                              refuse sender 22 "Duplicate nonce" _ known (inr refl) (ground arith)
                                run
                          | inr fresh ↦
                              fresh-Handled sender state challenge known stated challenged
                                ((==_iff _ _).0 e) fresh (metered state stated) run
                        ]
                      ]
                ]
              ]
        ]
