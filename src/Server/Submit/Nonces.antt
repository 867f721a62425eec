-- ===== src/Server/Submit/Nonces.antt =====
-- What the task of a submission does to the table of nonces, whatever its handler read before.
use aleo_pool_server.Prelude.{
  ◌==◌, Option-cases, ℕ, ◌≡◌, Bool-cases, false, List, arith, done, ℕ_discrete, inl, inr, ◌⊎◌,
  Outcome-cases,
}
use aleo_pool_server.Map
use aleo_pool_server.World.{World}
use aleo_pool_server.Server.{Server, Effect}
use aleo_pool_server.Server.Prover
use aleo_pool_server.Server.Pool
use aleo_pool_server.Server.Prover.{ProverState}
use aleo_pool_server.Server.Submit.{
  Snapshot, Submission, verify, judge_fresh, judge, settle, credit, share_target, seen_nonce,
  send_error, Verdict, accept, reject,
}
use aleo_pool_server.Server.Submit.Replay.{credits}

module _ (w : World) where
  open w use {Sender, EpochChallenge, dec_peer}

  -- What a task does to the table of nonces, and when it credits.
  pub record IsCounted (s : Server w) (m : Submission w) (t : Server w) (es : List (Effect w))
      : Type 0 where
    pub kept :
        ((t.nonce_seen ≡ s.nonce_seen) × (credits w es ≡ false))
        ⊎ ((t.nonce_seen ≡ Map.set_insert ℕ_discrete m.nonce s.nonce_seen)
            × ((credits w es ≡ false) ⊎ (Map.contains ℕ_discrete m.nonce s.nonce_seen ≡ false)))

  pub settle_nonces :
      (now : ℕ) (c : Snapshot w) (s : Server w) (sender : Sender) (state : ProverState w)
      (m : Submission w) (v : Verdict) (t : Server w) (es : List (Effect w))
      → settle w now c s sender state m v ≡ done (t, es)
      → t.nonce_seen ≡ s.nonce_seen
  unfolding settle credit
  settle_nonces now c s sender state m (accept difficulty) t es h =
      let target = share_target w c state in
      elim (Outcome-cases (Prover.add_share w now state target)) [
        | inl e ↦ absurd (ground arith)
        | inr (state', e) ↦ elim (Outcome-cases (Pool.add_share w now s.pool_state target)) [
          | inl f ↦ absurd (ground arith)
          | inr (pool, f) ↦ ground arith
        ]
      ]
  settle_nonces now c s sender state m (reject code desc) t es h = cc h

  judge_fresh-IsCounted :
      (now : ℕ) (c : Snapshot w) (s : Server w) (sender : Sender) (state : ProverState w)
      (challenge : EpochChallenge) (m : Submission w) (t : Server w) (es : List (Effect w))
      → judge_fresh w now c s sender state challenge m ≡ done (t, es)
      → IsCounted s m t es
  unfolding judge_fresh seen_nonce send_error
  judge_fresh-IsCounted now c s sender state challenge m t es h =
      elim (Bool-cases (Map.contains ℕ_discrete m.nonce s.nonce_seen)) [
        | inl e ↦ record { kept = inr (ground arith, inl (ground arith)) }
        | inr e ↦ elim (Outcome-cases (judge w c challenge s.pool_address state m)) [
          | inl f ↦ absurd (ground arith)
          | inr (v, f) ↦
              let s' = record s { nonce_seen = Map.set_insert ℕ_discrete m.nonce s.nonce_seen } in
              record {
                kept = inr (settle_nonces now c s' sender state m v t es (ground arith), inr e);
              }
        ]
      ]

  pub verify-IsCounted :
      (now : ℕ) (c : Snapshot w) (s : Server w) (m : Submission w) (t : Server w)
      (es : List (Effect w))
      → verify w now c s m ≡ done (t, es)
      → IsCounted s m t es
  unfolding verify send_error
  verify-IsCounted now c s m t es h =
      elim (Option-cases (Map.get dec_peer m.peer_addr s.authenticated_provers)) [
        | inl e ↦ record { kept = inl (ground arith, ground arith) }
        | inr (sender, known) ↦ elim (Option-cases (Map.get dec_peer m.peer_addr s.prover_states)) [
          | inl e ↦ record { kept = inl (ground arith, ground arith) }
          | inr (state, stated) ↦ elim (Option-cases s.latest_epoch_challenge) [
            | inl e ↦ record { kept = inl (ground arith, ground arith) }
            | inr (challenge, challenged) ↦
                elim (Bool-cases (m.epoch_number == c.latest_epoch_number)) [
                  | inl e ↦
                      judge_fresh-IsCounted now c s sender state challenge m t es (ground arith)
                  | inr e ↦ record { kept = inl (ground arith, ground arith) }
                ]
          ]
        ]
      ]
