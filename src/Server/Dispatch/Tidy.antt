-- ===== src/Server/Dispatch/Tidy.antt =====
-- No peer is twice in a table of the server, nor in the connections of an address.
use aleo_pool_server.Prelude.{ℕ, ◌≡◌, refl, sym, List, arith, done, inl, inr, subst}
use aleo_pool_server.Map.{get}
use aleo_pool_server.Map.Distinct.{IsDistinct, keys}
use aleo_pool_server.World.{World}
use aleo_pool_server.Server.{
  Server, ServerMessage, prover_connected, prover_authenticated, prover_disconnected, prover_submit,
  new_epoch_challenge, exit, Effect, init,
}
use aleo_pool_server.Server.Pool
use aleo_pool_server.Server.Prover
use aleo_pool_server.Server.Prover.{ProverState}
use aleo_pool_server.Server.Connections.{connect, authenticate, disconnect}
use aleo_pool_server.Server.Epoch.{replace_challenge, update_target, new_epoch}
use aleo_pool_server.Server.Submit.{Submission, clear_nonce}
use aleo_pool_server.Server.Submit.Cases.{Handled, ignored, refused, credited, Runs-unique}
use aleo_pool_server.Server.Submit.Totality.{IsSized, submit-Handled}
use aleo_pool_server.Server.Dispatch.{process_message}
use aleo_pool_server.Server.Dispatch.Invariant.{IsServing, IsExpected}
use aleo_pool_server.Server.Dispatch.Reachable.{Reaches, starts, handles, clears, Reaches-IsServing}
use aleo_pool_server.Server.Connections.Grouping.{
  Grouped, insert-IsDistinct, remove-IsDistinct, add_connection-Grouped, forget_address-Grouped,
  inform_all-IsDistinct,
}

module _ (w : World) where
  open w use {f64, Peer, Address, Sender, EpochChallenge, dec_peer, dec_address}

  pub record IsTidy (s : Server w) : Type 0 where
    pub authenticated : IsDistinct dec_peer (keys dec_peer s.authenticated_provers)
    pub stated : IsDistinct dec_peer (keys dec_peer s.prover_states)
    pub grouped : Grouped w s.prover_address_connections

  -- Only the states of the provers are changed.
  stated-IsTidy :
      (s t : Server w)
      → t.authenticated_provers ≡ s.authenticated_provers
      → t.prover_address_connections ≡ s.prover_address_connections
      → IsDistinct dec_peer (keys dec_peer t.prover_states)
      → IsTidy s
      → IsTidy t
  stated-IsTidy s t e f d i = record {
    authenticated = subst (λ m. IsDistinct dec_peer (keys dec_peer m)) (sym e) i.authenticated;
    stated = d;
    grouped = subst (Grouped w) (sym f) i.grouped;
  }

  new_epoch-IsTidy :
      (s : Server w) (challenge : EpochChallenge) (proof_target : ℕ)
      → IsTidy s
      → IsTidy (new_epoch w s challenge proof_target).0
  unfolding new_epoch replace_challenge update_target Pool.next_global_target_modifier
  new_epoch-IsTidy s challenge proof_target i =
      let told =
        inform_all-IsDistinct w challenge proof_target s.pool_state.next_global_target_modifier
          s.authenticated_provers s.prover_states i.stated in
      stated-IsTidy s _ (ground arith) (ground arith) (ground (arith, told, i.stated)) i

  Handled-IsTidy :
      {now : ℕ} (s t : Server w) (m : Submission w) (es : List (Effect w))
      → Handled w now s m t es
      → IsTidy s
      → IsTidy t
  Handled-IsTidy s t m es (ignored e u n) i = subst IsTidy (sym u) i
  Handled-IsTidy s t m es (refused sender code desc e (inl u) n) i = subst IsTidy (sym u) i
  Handled-IsTidy s t m es (refused sender code desc e (inr u) n) i =
      subst IsTidy (sym u) (stated-IsTidy s _ refl refl i.stated i)
  Handled-IsTidy s t m es (credited sender state challenge bytes difficulty a fresh c n) i =
      subst IsTidy (sym c.after) (
        stated-IsTidy s _ refl refl
          (insert-IsDistinct w m.peer_addr c.state' s.prover_states i.stated) i)

  process_message-IsTidy :
      (now : ℕ) (s t : Server w) (request : ServerMessage w) (es : List (Effect w))
      → IsSized w
      → IsServing w s
      → IsExpected w s request
      → process_message w now s request ≡ done (t, es)
      → IsTidy s
      → IsTidy t
  unfolding process_message connect authenticate disconnect
  process_message-IsTidy now s t (prover_connected p) es z v x run i =
      let u : (connect w s p).0 ≡ t = cc run in
      subst IsTidy u (stated-IsTidy s _ refl refl i.stated i)
  process_message-IsTidy now s t (prover_authenticated p address sender) es z v x run i =
      let u : (authenticate w now s p address sender).0 ≡ t = cc run in
      subst IsTidy u (record {
        authenticated = insert-IsDistinct w p sender s.authenticated_provers i.authenticated;
        stated = insert-IsDistinct w p (Prover.new w now p address) s.prover_states i.stated;
        grouped = add_connection-Grouped w address p s.prover_address_connections i.grouped;
      })
  process_message-IsTidy now s t (prover_disconnected p) es z v x run i =
      let u : disconnect w s p ≡ t = cc run in
      subst IsTidy u (record {
        authenticated = remove-IsDistinct w p s.authenticated_provers i.authenticated;
        stated = remove-IsDistinct w p s.prover_states i.stated;
        grouped =
            forget_address-Grouped w (get dec_peer p s.prover_states) p s.prover_address_connections
              i.grouped;
      })
  process_message-IsTidy now s t (prover_submit id p epoch nonce commitment proof) es z v x run i =
      let m : Submission w = record {
        id = id;
        peer_addr = p;
        epoch_number = epoch;
        nonce = nonce;
        commitment = commitment;
        proof = proof;
      } in
      let (t', es', e, h) =
        submit-Handled w now s m
          (λ state stated. record {
            prover_uncached = v.metered p state stated;
            pool_uncached = v.pool_metered;
          })
          z x in
      subst IsTidy (Runs-unique w _ t' t es' es e run).0 (Handled-IsTidy s t' m es' h i)
  process_message-IsTidy now s t (new_epoch_challenge challenge proof_target) es z v x run i =
      let u : (new_epoch w s challenge proof_target).0 ≡ t = cc run in
      subst IsTidy u (new_epoch-IsTidy s challenge proof_target i)
  process_message-IsTidy now s t exit es z v x run i = let u : s ≡ t = cc run in subst IsTidy u i

  pub Reaches-IsTidy : {s : Server w} → IsSized w → Reaches w s → IsTidy s
  unfolding init clear_nonce get
  Reaches-IsTidy z (starts now address) = record {
    authenticated = tt;
    stated = tt;
    grouped = λ a peers e. absurd (ground (arith, e));
  }
  Reaches-IsTidy z (handles now s t request es r x run) =
      process_message-IsTidy now s t request es z (Reaches-IsServing w z r) x run
        (Reaches-IsTidy z r)
  Reaches-IsTidy z (clears s r) =
      let i = Reaches-IsTidy z r in stated-IsTidy s (clear_nonce s) refl refl i.stated i
