-- ===== src/Server/Connections/Listing.antt =====
-- The lists of connections by address: what adding and removing a connection changes.
use aleo_pool_server.Prelude.{
  ◌≡◌, ◌≢◌, refl, Bool, true, false, List, [], ◌∷◌, Option, none, some, ite, arith, is_empty,
  Option-cases, inl, inr,
}
use aleo_pool_server.Map.{Map, get, contains, set_insert, set_remove}
use aleo_pool_server.Map.Laws.{get-insert, get-remove, contains-set_insert, contains-set_remove}
use aleo_pool_server.World.{World}
use aleo_pool_server.Server.Prover.{ProverState}
use aleo_pool_server.Server.Connections.{add_connection, remove_connection, forget_address}

abbrev pub is_some : {A : Type 0} → Option A → Bool
is_some none = false
is_some (some a) = true

module _ (w : World) where
  open w use {Peer, Address, Sender, dec_peer, dec_address}

  -- Whether the table of connections lists a peer under an address.
  unfoldable pub is_listed : Map Address (List Peer) → Address → Peer → Bool
  is_listed pac a p = elim (get dec_address a pac) [
    | none ↦ false
    | some peers ↦ contains dec_peer p peers
  ]

  -- Whether a peer's state has an address.
  unfoldable pub has_address : Option (ProverState w) → Address → Bool
  has_address none a = false
  has_address (some state) a = ite (dec_address state.address a) true false

  contains_of_is_empty :
      (q : Peer) (peers : List Peer) → is_empty peers ≡ true → contains dec_peer q peers ≡ false
  unfolding contains
  contains_of_is_empty q [] h = refl
  contains_of_is_empty q (p ∷ peers) h = cc

  set_insert-ne-nil : (p : Peer) (peers : List Peer) → set_insert dec_peer p peers ≢ []
  unfolding set_insert
  set_insert-ne-nil p [] = ground arith
  set_insert-ne-nil p (q ∷ peers) = ground arith

  pub is_listed-add_connection :
      (pac : Map Address (List Peer)) (a b : Address) (p q : Peer)
      → is_listed (add_connection w a p pac) b q
        ≡ ite (dec_address a b) (ite (dec_peer p q) true (is_listed pac b q)) (is_listed pac b q)
  unfolding is_listed add_connection contains
  is_listed-add_connection pac a b p q = elim (Option-cases (get dec_address a pac)) [
    | inl e ↦ rw (e, add_connection) (ground (arith, e, get-insert dec_address a b (p ∷ []) pac))
    | inr (peers, e) ↦
        rw (e, add_connection)
          (ground (
            arith,
            e,
            get-insert dec_address a b (set_insert dec_peer p peers) pac,
            contains-set_insert dec_peer p q peers,
          ))
  ]

  pub is_listed-remove_connection :
      (pac : Map Address (List Peer)) (a b : Address) (p q : Peer)
      → is_listed (remove_connection w a p pac) b q
        ≡ ite (dec_address a b) (ite (dec_peer p q) false (is_listed pac b q)) (is_listed pac b q)
  unfolding is_listed remove_connection
  is_listed-remove_connection pac a b p q = elim (Option-cases (get dec_address a pac)) [
    | inl e ↦ rw (e, remove_connection) (ground (arith, e))
    | inr (peers, e) ↦
        rw (e, remove_connection)
          (ground (
            arith,
            e,
            get-remove dec_address a b pac,
            get-insert dec_address a b (set_remove dec_peer p peers) pac,
            contains-set_remove dec_peer p q peers,
            contains_of_is_empty q (set_remove dec_peer p peers),
          ))
  ]

  pub occupied-add_connection :
      (pac : Map Address (List Peer)) (a b : Address) (p : Peer)
      → get dec_address b pac ≢ some []
      → get dec_address b (add_connection w a p pac) ≢ some []
  unfolding add_connection
  occupied-add_connection pac a b p h = elim (Option-cases (get dec_address a pac)) [
    | inl e ↦ rw (e, add_connection) (ground (arith, e, get-insert dec_address a b (p ∷ []) pac))
    | inr (peers, e) ↦
        rw (e, add_connection)
          (ground (
            arith,
            e,
            get-insert dec_address a b (set_insert dec_peer p peers) pac,
            set_insert-ne-nil p peers,
          ))
  ]

  pub occupied-remove_connection :
      (pac : Map Address (List Peer)) (a b : Address) (p : Peer)
      → get dec_address b pac ≢ some []
      → get dec_address b (remove_connection w a p pac) ≢ some []
  unfolding remove_connection
  occupied-remove_connection pac a b p h = elim (Option-cases (get dec_address a pac)) [
    | inl e ↦ rw (e, remove_connection) h
    | inr (peers, e) ↦
        rw (e, remove_connection)
          (ground (
            arith,
            e,
            get-remove dec_address a b pac,
            get-insert dec_address a b (set_remove dec_peer p peers) pac,
          ))
  ]

  pub is_listed-forget_address :
      (o : Option (ProverState w)) (pac : Map Address (List Peer)) (b : Address) (p q : Peer)
      → is_listed pac b p ≡ has_address o b
      → is_listed (forget_address w o p pac) b q ≡ ite (dec_peer p q) false (is_listed pac b q)
  unfolding forget_address has_address
  is_listed-forget_address none pac b p q h = ground arith
  is_listed-forget_address (some state) pac b p q h =
      ground (arith, is_listed-remove_connection pac state.address b p q)

  pub occupied-forget_address :
      (o : Option (ProverState w)) (pac : Map Address (List Peer)) (b : Address) (p : Peer)
      → get dec_address b pac ≢ some []
      → get dec_address b (forget_address w o p pac) ≢ some []
  unfolding forget_address
  occupied-forget_address none pac b p h = h
  occupied-forget_address (some state) pac b p h =
      occupied-remove_connection pac state.address b p h
