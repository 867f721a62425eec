-- ===== src/Network/Invariant.antt =====
-- In every state that the server and its connections reach, what the server knows of a peer follows from
-- how far its connection is.
use aleo_pool_server.Prelude.{
  ℕ, ◌≡◌, refl, sym, ap, ◌∙◌, false, List, [], ◌∷◌, Option, none, some, ite, done, inl, inr, subst,
}
use aleo_pool_server.Map.{get, contains}
use aleo_pool_server.Map.Laws.{get-insert}
use aleo_pool_server.World.{World}
use aleo_pool_server.Wire.{Wire}
use aleo_pool_server.Server.{
  Server, ServerMessage, prover_connected, prover_authenticated, prover_disconnected, prover_submit,
  new_epoch_challenge, exit, Effect, init,
}
use aleo_pool_server.Server.Connections.Listing.{is_some, is_listed, has_address}
use aleo_pool_server.Server.Connections.Consistency.{IsConsistent}
use aleo_pool_server.Server.Submit.{clear_nonce}
use aleo_pool_server.Server.Submit.Totality.{IsSized}
use aleo_pool_server.Server.Dispatch.{process_message}
use aleo_pool_server.Server.Dispatch.Invariant.{IsExpected}
use aleo_pool_server.Server.Dispatch.Reachable.{Reaches, Reaches-IsServing, Reaches-process_message}
use aleo_pool_server.Server.Dispatch.Reachable
use aleo_pool_server.Network.{
  Connections, advance, IsHashable, IsForeign, Serves, starts, accepts, handles, hears, clears,
}
use aleo_pool_server.Network.Frame.{known, connected, Frames, process_message_frame}
use aleo_pool_server.Network.Scripts.{run-IsScript}
use aleo_pool_server.Network.Places.{
  Place, left, get-advance, advance-own, Place-IsAbout, other_peer, same-Place,
}

is_none : {A : Type 0} (o : Option A) → is_some o ≡ false → o ≡ none
is_none none h = refl
is_none (some a) h = cc

module _ (w : World) where
  open w use {Peer, Address, dec_peer}

  -- Nothing of a peer is in the tables.
  pub record IsGone (s : Server w) (p : Peer) : Type 0 where
    pub unauthenticated : get dec_peer p s.authenticated_provers ≡ none
    pub stateless : get dec_peer p s.prover_states ≡ none
    pub disconnected : contains dec_peer p s.connected_provers ≡ false
    pub unlisted : (a : Address) → is_listed w s.prover_address_connections a p ≡ false

  Place-IsGone : (s : Server w) (p : Peer) → IsConsistent w s → Place w s p none → IsGone s p
  unfolding has_address
  Place-IsGone s p c h =
      let e = is_none (get dec_peer p s.prover_states) h.0 in
      record {
        unauthenticated = is_none _ (c.paired p ∙ h.0);
        stateless = e;
        disconnected = h.1;
        unlisted = λ a. c.grouped a p ∙ ap (λ o. has_address w o a) e;
      }

  Place-IsExpected :
      (s : Server w) (p : Peer) (request : ServerMessage w) (rest : List (ServerMessage w))
      → Place w s p (some (request ∷ rest))
      → IsHashable w request
      → IsExpected w s request
  Place-IsExpected s p (prover_connected q) rest h d = tt
  Place-IsExpected s p (prover_authenticated q address sender) rest (inl (k, h)) d =
      is_none (get dec_peer q s.prover_states) (ap (known w s) h.0 ∙ k)
  Place-IsExpected s p (prover_authenticated q address sender) rest (inr (k, h)) d = absurd h
  Place-IsExpected s p (prover_disconnected q) rest h d = tt
  Place-IsExpected s p (prover_submit id q epoch nonce commitment proof) rest h d = d
  Place-IsExpected s p (new_epoch_challenge challenge proof_target) rest h d = tt
  Place-IsExpected s p exit rest h d = tt

  foreign-IsExpected :
      (s : Server w) (request : ServerMessage w) → IsForeign w request → IsExpected w s request
  foreign-IsExpected s (new_epoch_challenge challenge proof_target) o = tt
  foreign-IsExpected s exit o = tt
  foreign-IsExpected s (prover_connected q) o = absurd o
  foreign-IsExpected s (prover_authenticated q address sender) o = absurd o
  foreign-IsExpected s (prover_disconnected q) o = absurd o
  foreign-IsExpected s (prover_submit id q epoch nonce commitment proof) o = absurd o

  foreign-same :
      (s t : Server w) (request : ServerMessage w) (q : Peer)
      → IsForeign w request
      → Frames w s request q t
      → (known w t q ≡ known w s q) × (connected w t q ≡ connected w s q)
  foreign-same s t (new_epoch_challenge challenge proof_target) q o f = f
  foreign-same s t exit q o f = f
  foreign-same s t (prover_connected p) q o f = absurd o
  foreign-same s t (prover_authenticated p address sender) q o f = absurd o
  foreign-same s t (prover_disconnected p) q o f = absurd o
  foreign-same s t (prover_submit id p epoch nonce commitment proof) q o f = absurd o

  abbrev Places : Server w → Connections w → Type 0
  Places s open_ = (q : Peer) → Place w s q (get dec_peer q open_)

  init-Places : (now : ℕ) (address : Address) → Places (init w now address) []
  unfolding init get contains
  init-Places now address q = (refl, refl)

  -- After a change at one peer, all others being left alone.
  either_peer :
      (s t : Server w) (p q : Peer) (new old : Option (List (ServerMessage w))) (d : Dec (p ≡ q))
      → Place w t p new
      → (¬ (p ≡ q) → (known w t q ≡ known w s q) × (connected w t q ≡ connected w s q))
      → Place w s q old
      → Place w t q (ite d new old)
  either_peer s t p q new old (yes e) own other h = subst (λ r. Place w t r new) e own
  either_peer s t p q new old (no n) own other h = same-Place w s t q old (other n) h

module _ (w : World) (x : Wire w) where
  open w use {Peer, Address, dec_peer}

  Serves-Places :
      {s : Server w} {open_ : Connections w}
      → IsSized w
      → Serves w x s open_
      → Reaches w s × Places w s open_
  unfolding clear_nonce
  Serves-Places z (starts now address) = (Reachable.starts now address, init-Places w now address)
  Serves-Places z
        (accepts now instant s t open_ p pool sender sendable sendable' first second happenings es r
          e run) =
      let (reached, places) = Serves-Places z r in
      let frame = λ (q : Peer).
        process_message_frame w now s t (prover_connected p) es q z (Reaches-IsServing w z reached)
          tt run in
      let before : Place w s p none = subst (Place w s p) e (places p) in
      (
        Reachable.handles now s t (prover_connected p) es reached tt run,
        λ q. subst (Place w t q) (sym (get-insert dec_peer p q _ open_)) (
            either_peer w s t p q _ (get dec_peer q open_) (dec_peer p q)
              (inl (
                (frame p).0 ∙ before.0,
                run-IsScript w x p pool sender sendable sendable' first second instant happenings,
              ))
              (λ n. other_peer w s t p q (prover_connected p) (frame q) refl n) (places q)),
      )
  Serves-Places z (handles now s t open_ p request rest es r e h run) =
      let (reached, places) = Serves-Places z r in
      let before : Place w s p (some (request ∷ rest)) = subst (Place w s p) e (places p) in
      let expected = Place-IsExpected w s p request rest before h in
      let frame = λ (q : Peer).
        process_message_frame w now s t request es q z (Reaches-IsServing w z reached) expected
          run in
      (
        Reachable.handles now s t request es reached expected run,
        λ q. subst (Place w t q) (sym (get-advance w p q request rest open_)) (
            either_peer w s t p q (left w request rest) (get dec_peer q open_) (dec_peer p q)
              (advance-own w s t p request rest (frame p) before)
              (λ n.
                other_peer w s t p q request (frame q) (Place-IsAbout w s p request rest before) n)
              (places q)),
      )
  Serves-Places z (hears now s t open_ request es r o run) =
      let (reached, places) = Serves-Places z r in
      let expected = foreign-IsExpected w s request o in
      (
        Reachable.handles now s t request es reached expected run,
        λ q.
            same-Place w s t q (get dec_peer q open_)
              (foreign-same w s t request q o (
                process_message_frame w now s t request es q z (Reaches-IsServing w z reached)
                  expected run))
              (places q),
      )
  Serves-Places z (clears s open_ r) =
      let (reached, places) = Serves-Places z r in
      (
        Reachable.clears s reached,
        λ q. same-Place w s (clear_nonce s) q (get dec_peer q open_) (refl, refl) (places q),
      )

  -- If block hashes, addresses and digests have 32 bytes, then in every state that the server and its
  -- connections reach from the start, where the messages of a connection are handled in their order, no two
  -- open connections have the same peer and no submitted commitment hashed to 0: the tables are consistent;
  -- and the next message of any connection, if it submits no commitment that hashes to 0, is handled
  -- without a panic, to another such state.
  pub Serves-handles :
      (now : ℕ) (s : Server w) (open_ : Connections w) (p : Peer) (request : ServerMessage w)
      (rest : List (ServerMessage w))
      → IsSized w
      → Serves w x s open_
      → get dec_peer p open_ ≡ some (request ∷ rest)
      → IsHashable w request
      → IsConsistent w s
        × (t : Server w) × (es : List (Effect w)) × (process_message w now s request ≡ done (t, es))
        × Serves w x t (advance w p request rest open_)
  Serves-handles now s open_ p request rest z r e h =
      let (reached, places) = Serves-Places z r in
      let expected = Place-IsExpected w s p request rest (subst (Place w s p) e (places p)) h in
      let (consistent, t, es, run, _) =
        Reaches-process_message w now s request z reached expected in
      (consistent, t, es, run, handles now s t open_ p request rest es r e h run)

  -- If block hashes, addresses and digests have 32 bytes, then in every state that the server and its
  -- connections reach from the start, where the messages of a connection are handled in their order, no two
  -- open connections have the same peer and no submitted commitment hashed to 0: nothing is left in the
  -- tables of a peer that has no open connection: it is not connected, has neither sender nor state, and no
  -- address lists it. A connection is open until its end is handled, so that one whose task panicked, which
  -- sends no end, stays open.
  pub Serves-IsGone :
      (s : Server w) (open_ : Connections w) (p : Peer)
      → IsSized w
      → Serves w x s open_
      → get dec_peer p open_ ≡ none
      → IsGone w s p
  Serves-IsGone s open_ p z r closed =
      let (reached, places) = Serves-Places z r in
      Place-IsGone w s p (Reaches-IsServing w z reached).consistent
        (subst (Place w s p) closed (places p))
