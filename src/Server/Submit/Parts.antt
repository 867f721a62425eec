-- ===== src/Server/Submit/Parts.antt =====
-- The task of a submission in its two parts, between which other tasks and messages run: up to the check of
-- the nonce, and from there on.
use Prim.Native.String.{String}
use aleo_pool_server.Prelude.{
  ℕ, ◌==◌, ◌≡◌, Bool-cases, false, List, [], ◌∷◌, Option, Option-cases, Outcome-cases, none, some,
  arith, Outcome, done, ◌>>=◌, ℕ_discrete, inl, inr, ◌⊎◌, if◌then◌else◌,
}
use aleo_pool_server.Map
use aleo_pool_server.World.{World}
use aleo_pool_server.Server.{Server, Effect}
use aleo_pool_server.Server.Prover.{ProverState}
use aleo_pool_server.Server.Submit.{
  Snapshot, Submission, verify, judge_fresh, judge, settle, seen_nonce, send_error,
}
use aleo_pool_server.Server.Submit.Nonces.{settle_nonces}

-- What the first part comes to: the task ends with an answer, or goes on.
pub data Progress (w : World) : Type 0 where
  answered : List (Effect w) → Progress w
  passed : w.Sender → w.EpochChallenge → Progress w

module _ (w : World) where
  open w use {Sender, EpochChallenge, dec_peer}

  unfoldable pub check_nonce :
      Server w → Sender → EpochChallenge → Submission w → Server w × Progress w
  check_nonce s sender challenge m =
      let (seen, nonces) = seen_nonce s.nonce_seen m.nonce in
      (
        record s { nonce_seen = nonces },
        if seen
            then answered (send_error w sender m.id 22 "Duplicate nonce" ∷ [])
            else passed sender challenge,
      )

  unfoldable pub check : Snapshot w → Server w → Submission w → Server w × Progress w
  check c s m = elim (Map.get dec_peer m.peer_addr s.authenticated_provers) [
    | none ↦ (s, answered [])
    | some sender ↦ elim (Map.get dec_peer m.peer_addr s.prover_states) [
      | none ↦ (s, answered (send_error w sender m.id 24 "Unknown prover" ∷ []))
      | some state ↦ elim s.latest_epoch_challenge [
        | none ↦ (s, answered (send_error w sender m.id 21 "No epoch challenge" ∷ []))
        | some challenge ↦
            if m.epoch_number == c.latest_epoch_number
            then check_nonce s sender challenge m
            else (s, answered (send_error w sender m.id 21 "Stale solution" ∷ []))
      ]
    ]
  ]

  -- The second part, with the state that the prover then has.
  unfoldable pub go_on :
      ℕ
      → Snapshot w
      → Server w
      → Sender
      → EpochChallenge
      → ProverState w
      → Submission w
      → Outcome (Server w × List (Effect w))
  go_on now c s sender challenge state m = do
    verdict ← judge w c challenge s.pool_address state m
    settle w now c s sender state m verdict

  -- Both parts, one right after the other.
  unfoldable pub finish :
      ℕ
      → Snapshot w
      → Submission w
      → Option (ProverState w)
      → Server w × Progress w
      → Outcome (Server w × List (Effect w))
  finish now c m o (s, answered es) = done (s, es)
  finish now c m none (s, passed sender challenge) = done (s, [])
  finish now c m (some state) (s, passed sender challenge) = go_on now c s sender challenge state m

  -- The task is its two parts, if nothing runs between them.
  pub verify-check :
      (now : ℕ) (c : Snapshot w) (s : Server w) (m : Submission w)
      → verify w now c s m
        ≡ finish now c m (Map.get dec_peer m.peer_addr s.prover_states) (check c s m)
  unfolding verify judge_fresh check check_nonce go_on finish
  verify-check now c s m =
      elim (Option-cases (Map.get dec_peer m.peer_addr s.authenticated_provers)) [
        | inl e ↦ ground (arith, e)
        | inr (sender, known) ↦ elim (Option-cases (Map.get dec_peer m.peer_addr s.prover_states)) [
          | inl e ↦ ground (arith, known, e)
          | inr (state, stated) ↦ elim (Option-cases s.latest_epoch_challenge) [
            | inl e ↦ ground (arith, known, stated, e)
            | inr (challenge, challenged) ↦
                elim (Bool-cases (m.epoch_number == c.latest_epoch_number)) [
                  | inl e ↦ elim (Bool-cases (seen_nonce s.nonce_seen m.nonce).0) [
                    | inl old ↦ ground (arith, known, stated, challenged, e, old)
                    | inr fresh ↦ ground (arith, known, stated, challenged, e, fresh)
                  ]
                  | inr e ↦ ground (arith, known, stated, challenged, e)
                ]
          ]
        ]
      ]

  -- The first part lets a nonce pass only if it was not seen, and then it is; it forgets none.
  pub check_nonces :
      (c : Snapshot w) (s : Server w) (m : Submission w)
      → (((check c s m).0.nonce_seen ≡ s.nonce_seen)
          × (es : List (Effect w)) × ((check c s m).1 ≡ answered es))
        ⊎ (((check c s m).0.nonce_seen ≡ Map.set_insert ℕ_discrete m.nonce s.nonce_seen)
            × (((es : List (Effect w)) × ((check c s m).1 ≡ answered es))
                ⊎ (Map.contains ℕ_discrete m.nonce s.nonce_seen ≡ false)))
  unfolding check check_nonce seen_nonce
  check_nonces c s m = elim (Option-cases (Map.get dec_peer m.peer_addr s.authenticated_provers)) [
    | inl e ↦ inl (ground arith, [], ground arith)
    | inr (sender, known) ↦
        let refusal : ℕ → String → List (Effect w) =
          λ code desc. send_error w sender m.id code desc ∷ [] in
        elim (Option-cases (Map.get dec_peer m.peer_addr s.prover_states)) [
          | inl e ↦ inl (ground arith, refusal 24 "Unknown prover", ground arith)
          | inr (state, stated) ↦ elim (Option-cases s.latest_epoch_challenge) [
            | inl e ↦ inl (ground arith, refusal 21 "No epoch challenge", ground arith)
            | inr (challenge, challenged) ↦
                elim (Bool-cases (m.epoch_number == c.latest_epoch_number)) [
                  | inl e ↦ elim (Bool-cases (Map.contains ℕ_discrete m.nonce s.nonce_seen)) [
                    | inl old ↦ inr (ground arith, inl (refusal 22 "Duplicate nonce", ground arith))
                    | inr fresh ↦ inr (ground arith, inr fresh)
                  ]
                  | inr e ↦ inl (ground arith, refusal 21 "Stale solution", ground arith)
                ]
          ]
        ]
  ]

  -- The second part changes no nonce.
  pub go_on_nonces :
      (now : ℕ) (c : Snapshot w) (s : Server w) (sender : Sender) (challenge : EpochChallenge)
      (state : ProverState w) (m : Submission w) (t : Server w) (es : List (Effect w))
      → go_on now c s sender challenge state m ≡ done (t, es)
      → t.nonce_seen ≡ s.nonce_seen
  unfolding go_on
  go_on_nonces now c s sender challenge state m t es h =
      elim (Outcome-cases (judge w c challenge s.pool_address state m)) [
        | inl e ↦ absurd (ground arith)
        | inr (v, e) ↦ settle_nonces w now c s sender state m v t es (ground arith)
      ]
