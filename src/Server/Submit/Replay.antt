-- ===== src/Server/Submit/Replay.antt =====
-- A nonce is credited once, until the table of seen nonces is cleared.
use Prim.Native.String.{String}
use aleo_pool_server.Prelude.{
  ◌==◌, Option-cases, ℕ, ◌≡◌, refl, sym, ap, ◌∙◌, Bool, Bool-cases, false, true, List, [], ◌∷◌,
  arith, done, ℕ_discrete, inl, inr,
}
use aleo_pool_server.Map
use aleo_pool_server.Map.Laws.{get-insert_self}
use aleo_pool_server.Accounting.{new_share}
use aleo_pool_server.World.{World}
use aleo_pool_server.Server.{Server, Effect, to_accounting}
use aleo_pool_server.Server.Metering.{IsMetered}
use aleo_pool_server.Server.Prover.{ProverState}
use aleo_pool_server.Server.Submit.{
  Snapshot, Submission, snapshot, share_target, check_proof, submit, verify, judge_fresh,
  seen_nonce, clear_nonce, send_error, report_solution,
}
use aleo_pool_server.Server.Submit.Verdicts.{
  IsAcceptable, IsFresh, IsCredited, credit_effects, submit_accept,
}

module _ (w : World) where
  open w use {Sender, EpochChallenge, dec_peer}

  -- Whether a share is credited among the effects.
  abbrev pub credits : List (Effect w) → Bool
  credits [] = false
  credits (to_accounting (new_share owner value) ∷ es) = true
  credits (e ∷ es) = credits es

  -- A submission whose nonce was seen.
  pub verify_seen :
      (now : ℕ) (c : Snapshot w) (s : Server w) (m : Submission w)
      → Map.contains ℕ_discrete m.nonce s.nonce_seen ≡ true
      → (t : Server w) × (es : List (Effect w)) × (verify w now c s m ≡ done (t, es))
        × (credits es ≡ false)
  unfolding verify judge_fresh seen_nonce send_error
  verify_seen now c s m seen =
      elim (Option-cases (Map.get dec_peer m.peer_addr s.authenticated_provers)) [
        | inl e ↦ (s, [], ground arith, refl)
        | inr (sender, known) ↦
            let refused : ℕ → String → List (Effect w) =
              λ code desc. send_error w sender m.id code desc ∷ [] in
            elim (Option-cases (Map.get dec_peer m.peer_addr s.prover_states)) [
              | inl e ↦ (s, refused 24 "Unknown prover", ground arith, refl)
              | inr (state, stated) ↦ elim (Option-cases s.latest_epoch_challenge) [
                | inl e ↦ (s, refused 21 "No epoch challenge", ground arith, refl)
                | inr (challenge, challenged) ↦
                    elim (Bool-cases (m.epoch_number == c.latest_epoch_number)) [
                      | inr e ↦ (s, refused 21 "Stale solution", ground arith, refl)
                      | inl e ↦ (
                        record s { nonce_seen = Map.set_insert ℕ_discrete m.nonce s.nonce_seen },
                        refused 22 "Duplicate nonce",
                        ground arith,
                        refl,
                      )
                    ]
              ]
            ]
      ]

  share_target-clear :
      {now : ℕ} (s t : Server w) (m : Submission w) (state : ProverState w)
      (c : IsCredited w now s m state t)
      → share_target w (snapshot w (clear_nonce t)) c.state' ≡ share_target w (snapshot w s) state
  unfolding share_target snapshot clear_nonce
  share_target-clear s t m state c =
      ground (arith, ap (λ x. x.pool_state) c.after, ap (λ x. x.latest_proof_target) c.after)

  credit_effects-clear :
      {now : ℕ} (s t : Server w) (m : Submission w) (sender : Sender) (state : ProverState w)
      (difficulty : ℕ) (c : IsCredited w now s m state t)
      → credit_effects w (clear_nonce t) m sender c.state' difficulty
        ≡ credit_effects w s m sender state difficulty
  unfolding clear_nonce report_solution snapshot
  credit_effects-clear s t m sender state difficulty c =
      simp
        (ap (λ x. x.latest_proof_target) c.after, ap (λ x. x.pool_address) c.after, c.address_kept)

  IsAcceptable-clear :
      {now : ℕ} (s t : Server w) (m : Submission w) (sender : Sender) (state : ProverState w)
      (challenge : EpochChallenge) (bytes : List ℕ) (difficulty : ℕ)
      (c : IsCredited w now s m state t)
      → IsAcceptable w s m sender state challenge bytes difficulty
      → IsAcceptable w (clear_nonce t) m sender c.state' challenge bytes difficulty
  unfolding clear_nonce Map.contains
  IsAcceptable-clear s t m sender state challenge bytes difficulty c a = record {
    known = ap (λ x. Map.get dec_peer m.peer_addr x.authenticated_provers) c.after ∙ a.known;
    stated =
        ap (λ x. Map.get dec_peer m.peer_addr x.prover_states) c.after
        ∙ get-insert_self dec_peer m.peer_addr c.state' s.prover_states;
    challenged = ap (λ x. x.latest_epoch_challenge) c.after ∙ a.challenged;
    current = a.current ∙ sym (ap (λ x. x.latest_epoch_number) c.after);
    hashed = a.hashed;
    measured = a.measured;
    enough = rw (share_target-clear s t m state c) a.enough;
    proven = ap (λ x. check_proof w challenge x.pool_address m) c.after ∙ a.proven;
  }

  -- A share that meets every condition, with a nonce that was not seen and speedometers without a
  -- cache, is credited; and once the table of seen nonces is cleared, as it is every sixty
  -- seconds, the very same share is credited again, with the same effects.
  pub submit_after_clear :
      (now later : ℕ) (s : Server w) (m : Submission w) (sender : Sender) (state : ProverState w)
      (challenge : EpochChallenge) (bytes : List ℕ) (difficulty : ℕ)
      → IsAcceptable w s m sender state challenge bytes difficulty
      → IsMetered w state s.pool_state
      → IsFresh w s m
      → (t u : Server w) × (submit w now s m
          ≡ done (t, credit_effects w s m sender state difficulty))
        × (submit w later (clear_nonce t) m
            ≡ done (u, credit_effects w s m sender state difficulty))
  unfolding clear_nonce Map.contains
  submit_after_clear now later s m sender state challenge bytes difficulty a v fresh =
      let (t, run, c) = submit_accept w now s m sender state challenge bytes difficulty a v fresh in
      let metered : IsMetered w c.state' t.pool_state =
        rw (ap (λ x. x.pool_state) c.after) c.metered in
      let (u, again, _) =
        submit_accept w later (clear_nonce t) m sender c.state' challenge bytes difficulty
          (IsAcceptable-clear s t m sender state challenge bytes difficulty c a) metered refl in
      (
        t,
        u,
        run,
        again ∙ ap (λ es. done (u, es)) (credit_effects-clear s t m sender state difficulty c),
      )
