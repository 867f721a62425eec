-- ===== src/Server/Epoch/Broadcast.antt =====
-- Whom a challenge is told, and within which limit.
use aleo_pool_server.Prelude.{
  ℕ, ◌≤◌, ◌≡◌, refl, ap, ◌∙◌, inl, inr, List, [], ◌∷◌, ◌++◌, none, some, arith, All, ◌==◌,
  Bool-cases, Option-cases, map, mul64,
}
use aleo_pool_server.Map
use aleo_pool_server.Map.{Map}
use aleo_pool_server.Map.Laws.{get-insert}
use aleo_pool_server.Stratum.{StratumMessage, set_target, notify}
use aleo_pool_server.World.{World}
use aleo_pool_server.Server.{Server, Effect, to_prover, to_accounting}
use aleo_pool_server.Server.Connections.{notify_message}
use aleo_pool_server.Server.Epoch.{
  cap_at, told_target, inform, inform_all, replace_challenge, is_new, update_target, new_epoch,
}
use aleo_pool_server.Server.Pool
use aleo_pool_server.Accounting.{set_n}
use aleo_pool_server.Server.Prover
use aleo_pool_server.Server.Prover.{ProverState}

module _ (w : World) where
  open w use {f64, Peer, Sender, EpochChallenge, dec_peer, epoch_number}

  -- No target that is told is above the proof target.
  abbrev pub IsWithin : ℕ → Effect w → Type 0
  IsWithin limit (to_prover sender (set_target target)) = target ≤ limit
  IsWithin limit (to_prover sender message) = Unit {0}
  IsWithin limit effect = Unit {0}

  -- The jobs among the effects.
  abbrev pub jobs : List (Effect w) → List (Sender × StratumMessage w.RequestId w.Error)
  jobs [] = []
  jobs (to_prover sender (notify j e a c) ∷ es) = (sender, notify j e a c) ∷ jobs es
  jobs (e ∷ es) = jobs es

  -- The senders of the provers that have a state.
  abbrev pub with_state : List (Peer × Sender) → Map Peer (ProverState w) → List Sender
  with_state [] states = []
  with_state ((p, sender) ∷ provers) states = elim (Map.get dec_peer p states) [
    | none ↦ with_state provers states
    | some state ↦ sender ∷ with_state provers states
  ]

  told_target-le :
      (modifier : f64.Float) (limit target : ℕ) → told_target w modifier limit target ≤ limit
  unfolding told_target cap_at
  told_target-le modifier limit target = ground arith

  module _ (challenge : EpochChallenge) (proof_target : ℕ) (modifier : f64.Float) where
    abbrev job : EpochChallenge → Sender → Sender × StratumMessage w.RequestId w.Error
    job challenge sender = (sender, notify_message w (epoch_number challenge) challenge)

    inform-IsWithin :
        (sender : Sender) (state : ProverState w) (more : List (Effect w))
        → All (IsWithin proof_target) more
        → All
            (IsWithin proof_target)
            ((inform w challenge proof_target modifier sender state).1 ++ more)
    unfolding inform notify_message
    inform-IsWithin sender state more h =
        let told = told_target w modifier proof_target (Prover.next_target w state).0 in
        elim (Bool-cases (state.current_target == told)) [
          | inl same ↦ rw same (tt, h)
          | inr other ↦
              rw other
                (told_target-le modifier proof_target (Prover.next_target w state).0, (tt, h))
        ]

    inform-jobs :
        (sender : Sender) (state : ProverState w) (more : List (Effect w))
        → jobs ((inform w challenge proof_target modifier sender state).1 ++ more)
          ≡ job challenge sender ∷ jobs more
    unfolding inform notify_message
    inform-jobs sender state more =
        let told = told_target w modifier proof_target (Prover.next_target w state).0 in
        elim (Bool-cases (state.current_target == told)) [
          | inl same ↦ rw same refl
          | inr other ↦ rw other refl
        ]

    with_state-insert :
        (provers : List (Peer × Sender)) (p : Peer) (state state' : ProverState w)
        (states : Map Peer (ProverState w))
        → Map.get dec_peer p states ≡ some state
        → with_state provers (Map.insert dec_peer p state' states) ≡ with_state provers states
    with_state-insert [] p state state' states h = refl
    with_state-insert ((q, sender) ∷ provers) p state state' states h = ground (
      arith,
      get-insert dec_peer p q state' states,
      with_state-insert provers p state state' states h,
    )

    inform_all-IsWithin :
        (provers : List (Peer × Sender)) (states : Map Peer (ProverState w))
        → All
            (IsWithin proof_target)
            (inform_all w challenge proof_target modifier provers states).1
    unfolding inform_all
    inform_all-IsWithin [] states = tt
    inform_all-IsWithin ((p, sender) ∷ provers) states =
        elim (Option-cases (Map.get dec_peer p states)) [
          | inl e ↦ rw (e, inform_all) (inform_all-IsWithin provers states)
          | inr (state, e) ↦
              rw (e, inform_all) (inform-IsWithin sender state _ (inform_all-IsWithin provers _))
        ]

    inform_all-jobs :
        (provers : List (Peer × Sender)) (states : Map Peer (ProverState w))
        → jobs (inform_all w challenge proof_target modifier provers states).1
          ≡ map (job challenge) (with_state provers states)
    unfolding inform_all
    inform_all-jobs [] states = refl
    inform_all-jobs ((p, sender) ∷ provers) states =
        elim (Option-cases (Map.get dec_peer p states)) [
          | inl e ↦ rw (e, inform_all, with_state) (inform_all-jobs provers states)
          | inr (state, e) ↦
              rw (e, inform_all, with_state)
                (inform-jobs sender state _
                  ∙ ap (◌∷◌ (job challenge sender)) (
                      inform_all-jobs provers _
                      ∙ ap (map (job challenge)) (with_state-insert provers p state _ states e)))
        ]

  -- A challenge that is not of an older epoch is told, as the job of its epoch, to every authenticated
  -- prover that has a state, in order and once each; no target above the proof target is told; and
  -- accounting is first sent the new window, five times the proof target.
  pub new_epoch-jobs :
      (s : Server w) (challenge : EpochChallenge) (proof_target : ℕ)
      → s.latest_epoch_number ≤ epoch_number challenge
      → (sent : List (Effect w)) × ((new_epoch w s challenge proof_target).1
          ≡ to_accounting (set_n (mul64 proof_target 5)) ∷ sent)
        × (jobs sent
            ≡ map
                (λ sender. (sender, notify_message w (epoch_number challenge) challenge))
                (with_state s.authenticated_provers s.prover_states))
        × All (IsWithin proof_target) sent
  unfolding new_epoch replace_challenge is_new update_target Pool.next_global_target_modifier
  new_epoch-jobs s challenge proof_target h =
      let modifier = s.pool_state.next_global_target_modifier in
      let sent =
        (inform_all w challenge proof_target modifier s.authenticated_provers s.prover_states).1 in
      (
        sent,
        ground arith,
        inform_all-jobs challenge proof_target modifier s.authenticated_provers s.prover_states,
        inform_all-IsWithin challenge proof_target modifier s.authenticated_provers s.prover_states,
      )
