-- ===== src/Network/Reordered.antt =====
-- Two messages of one connection, handled in the other order than they were sent: the task that receives the
-- messages, of `Server::init` in src/server.rs, spawns a task for each, and the second may run first.
use aleo_pool_server.Prelude.{ℕ, ◌≡◌, ◌≢◌, refl, ◌∙◌, true, false, List, if_pos, if_neg, none, done}
use aleo_pool_server.Map.{get, contains}
use aleo_pool_server.Map.Laws.{get-remove_self}
use aleo_pool_server.World.{World}
use aleo_pool_server.Server.{
  Server, ServerMessage, prover_connected, prover_authenticated, prover_disconnected, Effect,
}
use aleo_pool_server.Server.Connections.{authenticate, disconnect}
use aleo_pool_server.Server.Connections.Listing.{is_some}
use aleo_pool_server.Server.Submit.{clear_nonce}
use aleo_pool_server.Server.Submit.Totality.{IsSized}
use aleo_pool_server.Server.Dispatch.{process_message}
use aleo_pool_server.Server.Dispatch.Invariant.{IsExpected}
use aleo_pool_server.Server.Dispatch.Reachable.{Reaches, Reaches-IsServing}
use aleo_pool_server.Server.Dispatch.Reachable
use aleo_pool_server.Network.Frame.{known, connected, Frames, process_message_frame}

module _ (w : World) where
  open w use {Peer, Address, Sender, dec_peer}

  -- A message that no connection of `p` sends or makes, but for submissions.
  abbrev pub IsElsewhere : Peer → ServerMessage w → Type 0
  IsElsewhere p (prover_connected q) = q ≢ p
  IsElsewhere p (prover_authenticated q address sender) = q ≢ p
  IsElsewhere p (prover_disconnected q) = q ≢ p
  IsElsewhere p request = Unit {0}

  -- What is reached from a state while no new connection has the peer `p`.
  pub data Continues (p : Peer) (s : Server w) : Server w → Type 0 where
    stays : Continues p s s
    handles :
        (now : ℕ) (t u : Server w) (request : ServerMessage w) (es : List (Effect w))
        → Continues p s t
        → IsElsewhere p request
        → IsExpected w t request
        → process_message w now t request ≡ done (u, es)
        → Continues p s u
    clears : (t : Server w) → Continues p s t → Continues p s (clear_nonce t)

  elsewhere_same :
      (s t : Server w) (p : Peer) (request : ServerMessage w)
      → IsElsewhere p request
      → Frames w s request p t
      → (known w t p ≡ known w s p) × (connected w t p ≡ connected w s p)
  elsewhere_same s t p (prover_connected q) n f = (f.0, f.1 ∙ if_neg (dec_peer q p) n _ _)
  elsewhere_same s t p (prover_authenticated q address sender) n f =
      (f.0 ∙ if_neg (dec_peer q p) n _ _, f.1)
  elsewhere_same s t p (prover_disconnected q) n f =
      (f.0 ∙ if_neg (dec_peer q p) n _ _, f.1 ∙ if_neg (dec_peer q p) n _ _)
  elsewhere_same s t p request n f = f

  Continues-same :
      (p : Peer) (s : Server w) {u : Server w}
      → IsSized w
      → Reaches w s
      → Continues p s u
      → Reaches w u × (known w u p ≡ known w s p) × (connected w u p ≡ connected w s p)
  unfolding clear_nonce
  Continues-same p s z r stays = (r, refl, refl)
  Continues-same p s z r (handles now t u request es c n x run) =
      let (r', k, d) = Continues-same p s z r c in
      let (k', d') =
        elsewhere_same t u p request n
          (process_message_frame w now t u request es p z (Reaches-IsServing w z r') x run) in
      (Reachable.handles now t u request es r' x run, k' ∙ k, d' ∙ d)
  Continues-same p s z r (clears t c) =
      let (r', k, d) = Continues-same p s z r c in (Reachable.clears t r', k, d)

  -- If block hashes, addresses and digests have 32 bytes, and in any state that the server reaches the end of
  -- a connection is handled, and then the authentication of its peer, sent before: the peer stays
  -- authenticated and keeps a state, though it is not connected, whatever follows of submissions, of
  -- messages of connections of other peers and of other messages, as long as no peer that has a state is
  -- authenticated again and no submitted commitment hashes to 0.
  pub reordered_leak :
      (now : ℕ) (s u : Server w) (p : Peer) (address : Address) (sender : Sender)
      → IsSized w
      → Reaches w s
      → Continues p (authenticate w now (disconnect w s p) p address sender).0 u
      → (is_some (get dec_peer p u.authenticated_provers) ≡ true)
        × (is_some (get dec_peer p u.prover_states) ≡ true)
        × (contains dec_peer p u.connected_provers ≡ false)
  unfolding process_message
  reordered_leak now s u p address sender z r c =
      let first = disconnect w s p in
      let second = (authenticate w now first p address sender).0 in
      let r₁ = Reachable.handles now s first (prover_disconnected p) _ r tt refl in
      let fresh : get dec_peer p first.prover_states ≡ none =
        unfold disconnect in get-remove_self dec_peer p s.prover_states in
      let r₂ =
        Reachable.handles now first second (prover_authenticated p address sender) _ r₁ fresh
          refl in
      let f₁ =
        process_message_frame w now s first (prover_disconnected p) _ p z (Reaches-IsServing w z r)
          tt refl in
      let f₂ =
        process_message_frame w now first second (prover_authenticated p address sender) _ p z
          (Reaches-IsServing w z r₁) fresh refl in
      let (r₃, k, d) = Continues-same p second z r₂ c in
      let stated = k ∙ f₂.0 ∙ if_pos (dec_peer p p) refl _ _ in
      (
        (Reaches-IsServing w z r₃).consistent.paired p ∙ stated,
        stated,
        d ∙ f₂.1 ∙ f₁.1 ∙ if_pos (dec_peer p p) refl _ _,
      )
