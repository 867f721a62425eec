-- ===== src/Network/Frame.antt =====
-- What each message changes of what the server knows of a peer.
use aleo_pool_server.Prelude.{
  ℕ, ◌≡◌, refl, sym, ap, ◌∙◌, Bool, true, false, List, ite, arith, done, inl, inr, subst, some,
}
use aleo_pool_server.Map.{get, insert, contains}
use aleo_pool_server.Map.Laws.{get-insert, get-remove, contains-set_insert, contains-set_remove}
use aleo_pool_server.World.{World}
use aleo_pool_server.Server.{
  Server, ServerMessage, prover_connected, prover_authenticated, prover_disconnected, prover_submit,
  new_epoch_challenge, exit, Effect,
}
use aleo_pool_server.Server.Pool
use aleo_pool_server.Server.Prover
use aleo_pool_server.Server.Prover.{ProverState}
use aleo_pool_server.Server.Connections.{connect, authenticate, disconnect}
use aleo_pool_server.Server.Connections.Listing.{is_some}
use aleo_pool_server.Server.Epoch.{new_epoch, replace_challenge, update_target}
use aleo_pool_server.Server.Submit.{Submission}
use aleo_pool_server.Server.Submit.Cases.{Handled, ignored, refused, credited, Runs-unique}
use aleo_pool_server.Server.Submit.Totality.{IsSized, submit-Handled}
use aleo_pool_server.Server.Dispatch.{process_message}
use aleo_pool_server.Server.Dispatch.Invariant.{
  Keeps, IsServing, IsExpected, inform_all-Keeps, is_some-shape,
}

module _ (w : World) where
  open w use {Peer, EpochChallenge, dec_peer}

  -- Whether a peer has a state, and whether it is connected.
  abbrev pub known : Server w → Peer → Bool
  known s p = is_some (get dec_peer p s.prover_states)

  abbrev pub connected : Server w → Peer → Bool
  connected s p = contains dec_peer p s.connected_provers

  -- The same after a message, of what it was before.
  abbrev pub known_after : ServerMessage w → Peer → Bool → Bool
  known_after (prover_authenticated p address sender) q b = ite (dec_peer p q) true b
  known_after (prover_disconnected p) q b = ite (dec_peer p q) false b
  known_after request q b = b

  abbrev pub connected_after : ServerMessage w → Peer → Bool → Bool
  connected_after (prover_connected p) q b = ite (dec_peer p q) true b
  connected_after (prover_disconnected p) q b = ite (dec_peer p q) false b
  connected_after request q b = b

  Keeps-known :
      (s t : Server w) (q : Peer) → Keeps w s.prover_states t.prover_states → known t q ≡ known s q
  Keeps-known s t q k = is_some-shape w _ ∙ (ap is_some (k q) ∙ sym (is_some-shape w _))

  abbrev pub Frames : Server w → ServerMessage w → Peer → Server w → Type 0
  Frames s request q t =
      (known t q ≡ known_after request q (known s q))
      × (connected t q ≡ connected_after request q (connected s q))

  known-insert :
      (s : Server w) (p q : Peer) (state state' : ProverState w)
      → get dec_peer p s.prover_states ≡ some state
      → is_some (get dec_peer q (insert dec_peer p state' s.prover_states)) ≡ known s q
  known-insert s p q state state' e = ground (arith, get-insert dec_peer p q state' s.prover_states)

  Handled-same :
      {now : ℕ} (s t : Server w) (m : Submission w) (es : List (Effect w)) (q : Peer)
      → Handled w now s m t es
      → (known t q ≡ known s q) × (connected t q ≡ connected s q)
  Handled-same s t m es q (ignored e u n) = (ap (λ r. known r q) u, ap (λ r. connected r q) u)
  Handled-same s t m es q (refused sender code desc e (inl u) n) =
      (ap (λ r. known r q) u, ap (λ r. connected r q) u)
  Handled-same s t m es q (refused sender code desc e (inr u) n) =
      (ap (λ r. known r q) u, ap (λ r. connected r q) u)
  Handled-same s t m es q (credited sender state challenge bytes difficulty a fresh c n) = (
    ap (λ r. known r q) c.after ∙ known-insert s m.peer_addr q state c.state' a.stated,
    ap (λ r. connected r q) c.after,
  )

  new_epoch-same :
      (s : Server w) (challenge : EpochChallenge) (proof_target : ℕ) (q : Peer)
      → let t = (new_epoch w s challenge proof_target).0 in
        (known t q ≡ known s q) × (connected t q ≡ connected s q)
  unfolding new_epoch replace_challenge update_target Pool.next_global_target_modifier
  new_epoch-same s challenge proof_target q =
      let kept =
        inform_all-Keeps w challenge proof_target s.pool_state.next_global_target_modifier
          s.authenticated_provers s.prover_states in
      let t = (new_epoch w s challenge proof_target).0 in
      (Keeps-known s t q (λ p. ground (arith, kept p)), ground arith)

  -- If block hashes, addresses and digests have 32 bytes and the server serves, then after a message that was
  -- to be expected a peer has a state, and is connected, just as `known_after` and
  -- `connected_after` say.
  pub process_message_frame :
      (now : ℕ) (s t : Server w) (request : ServerMessage w) (es : List (Effect w)) (q : Peer)
      → IsSized w
      → IsServing w s
      → IsExpected w s request
      → process_message w now s request ≡ done (t, es)
      → Frames s request q t
  unfolding process_message connect authenticate disconnect
  process_message_frame now s t (prover_connected p) es q z v x run =
      let u : t ≡ (connect w s p).0 = cc run in
      rw u (refl, contains-set_insert dec_peer p q s.connected_provers)
  process_message_frame now s t (prover_authenticated p address sender) es q z v x run =
      let u : t ≡ (authenticate w now s p address sender).0 = cc run in
      rw u
        (ground (arith, get-insert dec_peer p q (Prover.new w now p address) s.prover_states), refl)
  process_message_frame now s t (prover_disconnected p) es q z v x run =
      let u : t ≡ disconnect w s p = cc run in
      rw u (
        ground (arith, get-remove dec_peer p q s.prover_states),
        contains-set_remove dec_peer p q s.connected_provers,
      )
  process_message_frame now s t (prover_submit id p epoch nonce commitment proof) es q z v x run =
      let m : Submission w = record {
        id = id;
        peer_addr = p;
        epoch_number = epoch;
        nonce = nonce;
        commitment = commitment;
        proof = proof;
      } in
      let (t', es', e, h) =
        submit-Handled w now s m
          (λ state stated. record {
            prover_uncached = v.metered p state stated;
            pool_uncached = v.pool_metered;
          })
          z x in
      subst (Frames s (prover_submit id p epoch nonce commitment proof) q)
        (Runs-unique w _ t' t es' es e run).0 (Handled-same s t' m es' q h)
  process_message_frame now s t (new_epoch_challenge challenge proof_target) es q z v x run =
      let u : t ≡ (new_epoch w s challenge proof_target).0 = cc run in
      rw u (new_epoch-same s challenge proof_target q)
  process_message_frame now s t exit es q z v x run =
      let u : t ≡ s = cc run in (ap (λ r. known r q) u, ap (λ r. connected r q) u)
