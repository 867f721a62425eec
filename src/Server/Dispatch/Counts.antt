-- ===== src/Server/Dispatch/Counts.antt =====
-- What the counts of provers, which the API answers, count.
use aleo_pool_server.Prelude.{
  ◌%◌, ◌≡◌, refl, sym, ap, ◌∙◌, false, ite, if_pos, if_neg, List, [], ◌∷◌, none, arith,
  Option-cases, inl, inr, subst, length, length-map, u32_mod,
}
use aleo_pool_server.Map.{Map, get, contains}
use aleo_pool_server.Map.Distinct.{IsDistinct, keys, length_unique}
use aleo_pool_server.World.{World}
use aleo_pool_server.Server.{Server}
use aleo_pool_server.Server.Prover.{ProverState}
use aleo_pool_server.Server.Connections.Listing.{is_some, is_listed, has_address}
use aleo_pool_server.Server.Connections.Consistency.{IsConsistent}
use aleo_pool_server.Server.Submit.Totality.{IsSized}
use aleo_pool_server.Server.Dispatch.{online_provers, address_prover_count}
use aleo_pool_server.Server.Dispatch.Reachable.{Reaches, Reaches-IsServing}
use aleo_pool_server.Server.Dispatch.Tidy.{IsTidy, Reaches-IsTidy}

module _ (w : World) where
  open w use {Peer, Address, dec_peer, dec_address}

  -- The peers whose state has an address.
  abbrev pub peers_at : Address → Map Peer (ProverState w) → List Peer
  peers_at a [] = []
  peers_at a ((p, state) ∷ m) = ite (dec_address state.address a) (p ∷ peers_at a m) (peers_at a m)

  get_absent :
      {V : Type 0} (p : Peer) (m : Map Peer V)
      → contains dec_peer p (keys dec_peer m) ≡ false
      → get dec_peer p m ≡ none
  unfolding get contains
  get_absent p [] e = refl
  get_absent p ((q, v) ∷ m) e = elim (dec_peer q p) [
    | yes same ↦ absurd (ground (arith, same))
    | no n ↦ if_neg (dec_peer q p) n _ _ ∙ get_absent p m (sym (if_neg (dec_peer q p) n _ _) ∙ e)
  ]

  contains-keys :
      {V : Type 0} (p : Peer) (m : Map Peer V)
      → contains dec_peer p (keys dec_peer m) ≡ is_some (get dec_peer p m)
  unfolding get contains
  contains-keys p [] = refl
  contains-keys p ((q, v) ∷ m) = ground (arith, contains-keys p m)

  contains-peers_at :
      (a : Address) (p : Peer) (m : Map Peer (ProverState w))
      → IsDistinct dec_peer (keys dec_peer m)
      → contains dec_peer p (peers_at a m) ≡ has_address w (get dec_peer p m) a
  unfolding contains get has_address
  contains-peers_at a p [] d = refl
  contains-peers_at a p ((q, state) ∷ m) d =
      let rest = contains-peers_at a p m d.1 in
      elim (dec_peer q p) [
        | yes same ↦
            let gone =
              get_absent p m
                (subst (λ i. contains dec_peer i (keys dec_peer m) ≡ false) same d.0) in
            ground (arith, same, rest, gone)
        | no n ↦ ground (arith, n, rest)
      ]

  peers_at-IsDistinct :
      (a : Address) (m : Map Peer (ProverState w))
      → IsDistinct dec_peer (keys dec_peer m)
      → IsDistinct dec_peer (peers_at a m)
  unfolding has_address
  peers_at-IsDistinct a [] d = tt
  peers_at-IsDistinct a ((p, state) ∷ m) d =
      let rest = peers_at-IsDistinct a m d.1 in
      let absent : contains dec_peer p (peers_at a m) ≡ false =
        contains-peers_at a p m d.1 ∙ ap (λ o. has_address w o a) (get_absent p m d.0) in
      elim (dec_address state.address a) [
        | yes same ↦ rw (if_pos (dec_address state.address a) same) (absent, rest)
        | no n ↦ rw (if_neg (dec_address state.address a) n) rest
      ]

  count_at :
      (s : Server w) (a : Address)
      → IsTidy w s
      → IsConsistent w s
      → address_prover_count w s a ≡ length (peers_at a s.prover_states) % u32_mod
  unfolding address_prover_count is_listed contains
  count_at s a i c =
      let states = s.prover_states in
      let same : (p : Peer)
          → is_listed w s.prover_address_connections a p ≡ contains dec_peer p (peers_at a states) =
        λ p. c.grouped a p ∙ sym (contains-peers_at a p states i.stated) in
      elim (Option-cases (get dec_address a s.prover_address_connections)) [
        | inl e ↦
            let none_at =
              length_unique dec_peer [] (peers_at a states) tt
                (peers_at-IsDistinct a states i.stated) (λ p. ground (arith, e, same p)) in
            rw (e, address_prover_count) (ap (λ n. n % u32_mod) none_at)
        | inr (peers, e) ↦
            rw (e, address_prover_count)
              (ap (λ n. n % u32_mod)
                (length_unique dec_peer peers (peers_at a states) (i.grouped a peers e)
                  (peers_at-IsDistinct a states i.stated) (λ p. ground (arith, e, same p))))
      ]

  -- If block hashes, addresses and digests have 32 bytes, then in every state that the server reaches from its
  -- start, by messages in any order and by clearing the nonces, where no peer that has a state was
  -- authenticated again and no submitted commitment hashed to 0: the number of provers that is answered for
  -- an address is that of the peers whose state has it, and the number of all provers online is that of the
  -- peers that have a state, as `u32`s.
  pub Reaches-counts :
      (s : Server w) (a : Address)
      → IsSized w
      → Reaches w s
      → (address_prover_count w s a ≡ length (peers_at a s.prover_states) % u32_mod)
        × (online_provers w s ≡ length s.prover_states % u32_mod)
  unfolding online_provers
  Reaches-counts s a z r =
      let i = Reaches-IsTidy w z r in
      let c = (Reaches-IsServing w z r).consistent in
      let same =
        length_unique dec_peer (keys dec_peer s.authenticated_provers)
          (keys dec_peer s.prover_states) i.authenticated i.stated
          (λ p.
            contains-keys p s.authenticated_provers
            ∙ (c.paired p ∙ sym (contains-keys p s.prover_states))) in
      (
        count_at s a i c,
        ap (λ n. n % u32_mod)
            (sym (length-map (λ e. e.0) s.authenticated_provers)
              ∙ (same ∙ length-map (λ e. e.0) s.prover_states)),
      )
