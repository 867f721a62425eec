-- ===== src/Server/Dispatch/Nonces.antt =====
-- What the messages other than submissions do to the table of nonces.
use aleo_pool_server.Prelude.{
  ℕ, ◌≡◌, ◌∙◌, Bool, false, List, [], arith, done, Bool-cases, inl, inr, if◌then◌else◌,
}
use aleo_pool_server.World.{World}
use aleo_pool_server.Server.{
  Server, Effect, ServerMessage, prover_connected, prover_authenticated, prover_disconnected,
  prover_submit, new_epoch_challenge, exit,
}
use aleo_pool_server.Server.Epoch.{is_new, new_epoch, replace_challenge, update_target}
use aleo_pool_server.Server.Connections.{connect, authenticate, disconnect}
use aleo_pool_server.Server.Dispatch.{process_message}

module _ (w : World) where
  -- Every message but a submission.
  abbrev pub IsOther : ServerMessage w → Type 0
  IsOther (prover_submit id peer_addr epoch_number nonce commitment proof) = ⊥
  IsOther request = Unit {0}

  -- A message clears the table of nonces: a new challenge does.
  abbrev pub is_clearing : Server w → ServerMessage w → Bool
  is_clearing s (new_epoch_challenge challenge proof_target) =
      is_new w s.latest_epoch_number challenge
  is_clearing s request = false

  new_epoch_seen :
      (s : Server w) (challenge : w.EpochChallenge) (proof_target : ℕ)
      → (new_epoch w s challenge proof_target).0.nonce_seen
        ≡ (if is_new w s.latest_epoch_number challenge then [] else s.nonce_seen)
  unfolding new_epoch replace_challenge update_target
  new_epoch_seen s challenge proof_target =
      elim (Bool-cases (is_new w s.latest_epoch_number challenge)) [
        | inl new ↦ ground arith
        | inr old ↦ ground arith
      ]

  pub process_message_nonces :
      (now : ℕ) (s t : Server w) (request : ServerMessage w) (es : List (Effect w))
      → IsOther request
      → process_message w now s request ≡ done (t, es)
      → t.nonce_seen ≡ (if is_clearing s request then [] else s.nonce_seen)
  unfolding process_message connect authenticate disconnect
  process_message_nonces now s t (prover_connected p) es o h = cc h
  process_message_nonces now s t (prover_authenticated p a q) es o h = cc h
  process_message_nonces now s t (prover_disconnected p) es o h = cc h
  process_message_nonces now s t (prover_submit id p e n c q) es o h = absurd o
  process_message_nonces now s t (new_epoch_challenge challenge proof_target) es o h =
      let n : t.nonce_seen ≡ (new_epoch w s challenge proof_target).0.nonce_seen = cc h in
      n ∙ new_epoch_seen s challenge proof_target
  process_message_nonces now s t exit es o h = cc h
