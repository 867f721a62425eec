-- ===== src/Server/Connections/Consistency.antt =====
-- The three tables of authenticated provers agree, and each handler keeps that so.
use aleo_pool_server.Prelude.{ℕ, ◌≡◌, ◌≢◌, true, false, [], none, some, ite, arith}
use aleo_pool_server.Map.{get, insert, contains}
use aleo_pool_server.Map.Laws.{get-insert, get-remove, get-remove_self, contains-set_remove}
use aleo_pool_server.World.{World}
use aleo_pool_server.Server.{Server}
use aleo_pool_server.Server.Prover
use aleo_pool_server.Server.Prover.{ProverState}
use aleo_pool_server.Server.Connections.Listing.{
  is_some, is_listed, has_address, is_listed-add_connection, is_listed-remove_connection,
  is_listed-forget_address, occupied-add_connection, occupied-forget_address,
}
use aleo_pool_server.Server.Connections.{add_connection, authenticate, forget_address, disconnect}

module _ (w : World) where
  open w use {Peer, Address, Sender, dec_peer, dec_address}

  -- An authenticated prover has a state and the other way round; the connections of an address are
  -- the peers whose state has it; and no address is kept without a connection.
  pub record IsConsistent (s : Server w) : Type 0 where
    pub paired :
        (p : Peer)
        → is_some (get dec_peer p s.authenticated_provers)
          ≡ is_some (get dec_peer p s.prover_states)
    pub grouped :
        (a : Address) (p : Peer)
        → is_listed w s.prover_address_connections a p
          ≡ has_address w (get dec_peer p s.prover_states) a
    pub occupied : (a : Address) → get dec_address a s.prover_address_connections ≢ some []

  authenticate-listed :
      (s : Server w) (now : ℕ) (p : Peer) (a : Address) (sender : Sender) (b : Address) (q : Peer)
      → IsConsistent s
      → get dec_peer p s.prover_states ≡ none
      → is_listed w (authenticate w now s p a sender).0.prover_address_connections b q
        ≡ has_address w (get dec_peer q (authenticate w now s p a sender).0.prover_states) b
  unfolding authenticate has_address Prover.new
  authenticate-listed s now p a sender b q c fresh = ground (
    arith,
    c.grouped b q,
    is_listed-add_connection w s.prover_address_connections a b p q,
    get-insert dec_peer p q (Prover.new w now p a) s.prover_states,
  )

  authenticate-paired :
      (s : Server w) (now : ℕ) (p : Peer) (a : Address) (sender : Sender) (q : Peer)
      → IsConsistent s
      → is_some (get dec_peer q (authenticate w now s p a sender).0.authenticated_provers)
        ≡ is_some (get dec_peer q (authenticate w now s p a sender).0.prover_states)
  unfolding authenticate
  authenticate-paired s now p a sender q c = ground (
    arith,
    c.paired q,
    get-insert dec_peer p q sender s.authenticated_provers,
    get-insert dec_peer p q (Prover.new w now p a) s.prover_states,
  )

  -- From consistent tables, the authentication of a peer that has no state yet leaves consistent
  -- tables.
  pub authenticate-IsConsistent :
      (s : Server w) (now : ℕ) (p : Peer) (a : Address) (sender : Sender)
      → IsConsistent s
      → get dec_peer p s.prover_states ≡ none
      → IsConsistent (authenticate w now s p a sender).0
  authenticate-IsConsistent s now p a sender c fresh = record {
    paired = λ q. authenticate-paired s now p a sender q c;
    grouped = λ b q. authenticate-listed s now p a sender b q c fresh;
    occupied = λ b.
        unfold authenticate in
        occupied-add_connection w s.prover_address_connections a b p (c.occupied b);
  }

  disconnect-listed :
      (s : Server w) (p : Peer) (b : Address) (q : Peer)
      → IsConsistent s
      → is_listed w (disconnect w s p).prover_address_connections b q
        ≡ has_address w (get dec_peer q (disconnect w s p).prover_states) b
  unfolding disconnect has_address
  disconnect-listed s p b q c = ground (
    arith,
    is_listed-forget_address w (get dec_peer p s.prover_states) s.prover_address_connections b p q
        (c.grouped b p),
    c.grouped b q,
    get-remove dec_peer p q s.prover_states,
  )

  disconnect-paired :
      (s : Server w) (p : Peer) (q : Peer)
      → IsConsistent s
      → is_some (get dec_peer q (disconnect w s p).authenticated_provers)
        ≡ is_some (get dec_peer q (disconnect w s p).prover_states)
  unfolding disconnect
  disconnect-paired s p q c = ground (
    arith,
    c.paired q,
    get-remove dec_peer p q s.authenticated_provers,
    get-remove dec_peer p q s.prover_states,
  )

  -- From consistent tables, a disconnection leaves consistent tables.
  pub disconnect-IsConsistent :
      (s : Server w) (p : Peer) → IsConsistent s → IsConsistent (disconnect w s p)
  disconnect-IsConsistent s p c = record {
    paired = λ q. disconnect-paired s p q c;
    grouped = λ b q. disconnect-listed s p b q c;
    occupied = λ b.
        unfold disconnect in
        occupied-forget_address w (get dec_peer p s.prover_states) s.prover_address_connections b p
          (c.occupied b);
  }

  -- After a disconnection, from consistent tables, nothing of the peer is left: it is not connected, has
  -- neither sender nor state, and no address lists it; for every other peer all of this is unchanged.
  pub disconnect_lem :
      (s : Server w) (p q : Peer) (b : Address)
      → IsConsistent s
      → let t = disconnect w s p in
        (contains dec_peer q t.connected_provers
          ≡ ite (dec_peer p q) false (contains dec_peer q s.connected_provers))
        × (get dec_peer q t.authenticated_provers
            ≡ ite (dec_peer p q) none (get dec_peer q s.authenticated_provers))
        × (get dec_peer q t.prover_states
            ≡ ite (dec_peer p q) none (get dec_peer q s.prover_states))
        × (is_listed w t.prover_address_connections b q
            ≡ ite (dec_peer p q) false (is_listed w s.prover_address_connections b q))
  unfolding disconnect
  disconnect_lem s p q b c = (
    contains-set_remove dec_peer p q s.connected_provers,
    get-remove dec_peer p q s.authenticated_provers,
    get-remove dec_peer p q s.prover_states,
    is_listed-forget_address w (get dec_peer p s.prover_states) s.prover_address_connections b p q
        (c.grouped b p),
  )

  -- From consistent tables, if a peer that still has a state is authenticated again under another
  -- address, its disconnection leaves it with no state, but still listed under the first address.
  pub authenticate_again_leak :
      (s : Server w) (now : ℕ) (p : Peer) (a : Address) (sender : Sender) (old : ProverState w)
      → IsConsistent s
      → get dec_peer p s.prover_states ≡ some old
      → old.address ≢ a
      → let t = disconnect w (authenticate w now s p a sender).0 p in
        (get dec_peer p t.prover_states ≡ none)
        × (is_listed w t.prover_address_connections old.address p ≡ true)
  unfolding disconnect authenticate forget_address has_address Prover.new
  authenticate_again_leak s now p a sender old c e ne =
      let pac = s.prover_address_connections in
      let new = Prover.new w now p a in
      (
        get-remove_self dec_peer p (insert dec_peer p new s.prover_states),
        ground (
          arith,
          get-insert dec_peer p p new s.prover_states,
          is_listed-remove_connection w (add_connection w a p pac) a old.address p p,
          is_listed-add_connection w pac a old.address p p,
          c.grouped old.address p,
        ),
      )
