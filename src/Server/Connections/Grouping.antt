-- ===== src/Server/Connections/Grouping.antt =====
-- No handler puts a peer into a table, or into the connections of an address, a second time.
use aleo_pool_server.Prelude.{
  ℕ, ◌≡◌, refl, sym, ◌∙◌, if_pos, if_neg, List, [], ◌∷◌, Option, none, some, Bool-cases, is_empty,
  Option-cases, inl, inr, subst,
}
use aleo_pool_server.Map.{Map, get, insert, remove, contains, set_insert, set_remove}
use aleo_pool_server.Map.Laws.{get-insert, get-remove}
use aleo_pool_server.Map.Distinct.{
  IsDistinct, set_insert-IsDistinct, set_remove-IsDistinct, keys, keys-insert, keys-remove,
}
use aleo_pool_server.World.{World}
use aleo_pool_server.Server.Prover.{ProverState}
use aleo_pool_server.Server.Connections.{add_connection, remove_connection, forget_address}
use aleo_pool_server.Server.Epoch.{inform, inform_all}

module _ (w : World) where
  open w use {f64, Peer, Address, Sender, EpochChallenge, dec_peer, dec_address}

  -- No address has a connection twice.
  abbrev pub Grouped : Map Address (List Peer) → Type 0
  Grouped pac =
      (a : Address) (peers : List Peer)
      → get dec_address a pac ≡ some peers
      → IsDistinct dec_peer peers

  pub insert-IsDistinct :
      {V : Type 0} (p : Peer) (v : V) (m : Map Peer V)
      → IsDistinct dec_peer (keys dec_peer m)
      → IsDistinct dec_peer (keys dec_peer (insert dec_peer p v m))
  insert-IsDistinct p v m d =
      subst (IsDistinct dec_peer) (sym (keys-insert dec_peer p v m))
        (set_insert-IsDistinct dec_peer p (keys dec_peer m) d)

  pub remove-IsDistinct :
      {V : Type 0} (p : Peer) (m : Map Peer V)
      → IsDistinct dec_peer (keys dec_peer m)
      → IsDistinct dec_peer (keys dec_peer (remove dec_peer p m))
  remove-IsDistinct p m d =
      subst (IsDistinct dec_peer) (sym (keys-remove dec_peer p m))
        (set_remove-IsDistinct dec_peer p (keys dec_peer m) d)

  insert-Grouped :
      (a : Address) (peers : List Peer) (pac : Map Address (List Peer))
      → IsDistinct dec_peer peers
      → Grouped pac
      → Grouped (insert dec_address a peers pac)
  insert-Grouped a peers pac d g b others e = elim (dec_address a b) [
    | yes p ↦
        let same : some peers ≡ some others =
          sym (get-insert dec_address a b peers pac ∙ if_pos (dec_address a b) p _ _) ∙ e in
        let inner : peers ≡ others = cc same in subst (IsDistinct dec_peer) inner d
    | no n ↦
        g b others (sym (get-insert dec_address a b peers pac ∙ if_neg (dec_address a b) n _ _) ∙ e)
  ]

  remove-Grouped :
      (a : Address) (pac : Map Address (List Peer))
      → Grouped pac
      → Grouped (remove dec_address a pac)
  remove-Grouped a pac g b others e = elim (dec_address a b) [
    | yes p ↦ absurd (cc (get-remove dec_address a b pac ∙ if_pos (dec_address a b) p _ _, e))
    | no n ↦ g b others (sym (get-remove dec_address a b pac ∙ if_neg (dec_address a b) n _ _) ∙ e)
  ]

  pub add_connection-Grouped :
      (a : Address) (p : Peer) (pac : Map Address (List Peer))
      → Grouped pac
      → Grouped (add_connection w a p pac)
  unfolding add_connection contains
  add_connection-Grouped a p pac g = elim (Option-cases (get dec_address a pac)) [
    | inl e ↦ rw (e, add_connection) (insert-Grouped a (p ∷ []) pac (refl, tt) g)
    | inr (peers, e) ↦
        rw (e, add_connection)
          (insert-Grouped a (set_insert dec_peer p peers) pac
            (set_insert-IsDistinct dec_peer p peers (g a peers e)) g)
  ]

  remove_connection-Grouped :
      (a : Address) (p : Peer) (pac : Map Address (List Peer))
      → Grouped pac
      → Grouped (remove_connection w a p pac)
  unfolding remove_connection
  remove_connection-Grouped a p pac g = elim (Option-cases (get dec_address a pac)) [
    | inl e ↦ rw (e, remove_connection) g
    | inr (peers, e) ↦
        let rest = set_remove dec_peer p peers in
        elim (Bool-cases (is_empty rest)) [
          | inl empty ↦ rw (e, remove_connection, empty) (remove-Grouped a pac g)
          | inr filled ↦
              rw (e, remove_connection, filled)
                (insert-Grouped a rest pac (set_remove-IsDistinct dec_peer p peers (g a peers e)) g)
        ]
  ]

  pub forget_address-Grouped :
      (o : Option (ProverState w)) (p : Peer) (pac : Map Address (List Peer))
      → Grouped pac
      → Grouped (forget_address w o p pac)
  unfolding forget_address
  forget_address-Grouped none p pac g = g
  forget_address-Grouped (some state) p pac g = remove_connection-Grouped state.address p pac g

  pub inform_all-IsDistinct :
      (challenge : EpochChallenge) (proof_target : ℕ) (modifier : f64.Float)
      (provers : List (Peer × Sender)) (states : Map Peer (ProverState w))
      → IsDistinct dec_peer (keys dec_peer states)
      → IsDistinct dec_peer
          (keys dec_peer (inform_all w challenge proof_target modifier provers states).0)
  unfolding inform_all
  inform_all-IsDistinct challenge proof_target modifier [] states d = d
  inform_all-IsDistinct challenge proof_target modifier ((p, sender) ∷ provers) states d =
      elim (Option-cases (get dec_peer p states)) [
        | inl e ↦
            rw (e, inform_all)
              (inform_all-IsDistinct challenge proof_target modifier provers states d)
        | inr (state, e) ↦
            let state' = (inform w challenge proof_target modifier sender state).0 in
            rw (e, inform_all)
              (inform_all-IsDistinct challenge proof_target modifier provers
                (insert dec_peer p state' states) (insert-IsDistinct p state' states d))
      ]
