-- ===== src/Network/Places.antt =====
-- What the server knows of a peer, and how far its connection is: what a message changes of both.
use aleo_pool_server.Prelude.{
  ◌≡◌, ◌≢◌, ◌⊎◌, sym, ◌∙◌, true, false, List, ◌∷◌, Option, none, some, ite, if_pos, if_neg, inl,
  inr,
}
use aleo_pool_server.Map.{get}
use aleo_pool_server.Map.Laws.{get-insert, get-remove}
use aleo_pool_server.World.{World}
use aleo_pool_server.Server.{
  Server, ServerMessage, prover_connected, prover_authenticated, prover_disconnected, prover_submit,
  new_epoch_challenge, exit,
}
use aleo_pool_server.Network.{Connections, advance}
use aleo_pool_server.Network.Frame.{known, connected, Frames}
use aleo_pool_server.Network.Scripts.{IsRest, IsScript}

module _ (w : World) where
  open w use {Peer, Address, Sender, dec_peer}

  -- A peer with no open connection has no state and is not connected; with one, it has a state exactly
  -- after it was authenticated.
  abbrev pub Place : Server w → Peer → Option (List (ServerMessage w)) → Type 0
  Place s p none = (known w s p ≡ false) × (connected w s p ≡ false)
  Place s p (some script) =
      ((known w s p ≡ false) × IsScript w p script) ⊎ ((known w s p ≡ true) × IsRest w p script)

  -- What is left of a connection after a message.
  abbrev pub left : ServerMessage w → List (ServerMessage w) → Option (List (ServerMessage w))
  left (prover_disconnected p) rest = none
  left request rest = some rest

  pub get-advance :
      (p q : Peer) (request : ServerMessage w) (rest : List (ServerMessage w))
      (open_ : Connections w)
      → get dec_peer q (advance w p request rest open_)
        ≡ ite (dec_peer p q) (left request rest) (get dec_peer q open_)
  unfolding advance
  get-advance p q (prover_disconnected r) rest open_ = get-remove dec_peer p q open_
  get-advance p q request rest open_ = get-insert dec_peer p q rest open_

  pub advance-own :
      (s t : Server w) (p : Peer) (request : ServerMessage w) (rest : List (ServerMessage w))
      → Frames w s request p t
      → Place s p (some (request ∷ rest))
      → Place t p (left request rest)
  advance-own s t p (prover_connected q) rest f (inl (k, h)) = absurd h
  advance-own s t p (prover_connected q) rest f (inr (k, h)) = absurd h
  advance-own s t p (prover_authenticated q address sender) rest f (inl (k, h)) =
      inr (f.0 ∙ if_pos (dec_peer q p) h.0 _ _, h.1)
  advance-own s t p (prover_authenticated q address sender) rest f (inr (k, h)) = absurd h
  advance-own s t p (prover_disconnected q) rest f (inl (k, h)) =
      (f.0 ∙ if_pos (dec_peer q p) h.0 _ _, f.1 ∙ if_pos (dec_peer q p) h.0 _ _)
  advance-own s t p (prover_disconnected q) rest f (inr (k, h)) =
      (f.0 ∙ if_pos (dec_peer q p) h.0 _ _, f.1 ∙ if_pos (dec_peer q p) h.0 _ _)
  advance-own s t p (prover_submit id q epoch nonce commitment proof) rest f (inl (k, h)) = absurd h
  advance-own s t p (prover_submit id q epoch nonce commitment proof) rest f (inr (k, h)) =
      inr (f.0 ∙ k, h.1)
  advance-own s t p (new_epoch_challenge challenge proof_target) rest f (inl (k, h)) = absurd h
  advance-own s t p (new_epoch_challenge challenge proof_target) rest f (inr (k, h)) = absurd h
  advance-own s t p exit rest f (inl (k, h)) = absurd h
  advance-own s t p exit rest f (inr (k, h)) = absurd h

  -- A message that is about no other peer than `p`.
  abbrev pub IsAbout : Peer → ServerMessage w → Type 0
  IsAbout p (prover_connected q) = q ≡ p
  IsAbout p (prover_authenticated q address sender) = q ≡ p
  IsAbout p (prover_disconnected q) = q ≡ p
  IsAbout p request = Unit {0}

  pub Place-IsAbout :
      (s : Server w) (p : Peer) (request : ServerMessage w) (rest : List (ServerMessage w))
      → Place s p (some (request ∷ rest))
      → IsAbout p request
  Place-IsAbout s p (prover_connected q) rest (inl (k, h)) = absurd h
  Place-IsAbout s p (prover_connected q) rest (inr (k, h)) = absurd h
  Place-IsAbout s p (prover_authenticated q address sender) rest (inl (k, h)) = h.0
  Place-IsAbout s p (prover_authenticated q address sender) rest (inr (k, h)) = absurd h
  Place-IsAbout s p (prover_disconnected q) rest (inl (k, h)) = h.0
  Place-IsAbout s p (prover_disconnected q) rest (inr (k, h)) = h.0
  Place-IsAbout s p request rest h = tt

  differs : {p q r : Peer} → p ≢ q → r ≡ p → r ≢ q
  differs n e h = n (sym e ∙ h)

  -- A message about one peer changes nothing of another.
  pub other_peer :
      (s t : Server w) (p q : Peer) (request : ServerMessage w)
      → Frames w s request q t
      → IsAbout p request
      → p ≢ q
      → (known w t q ≡ known w s q) × (connected w t q ≡ connected w s q)
  other_peer s t p q (prover_connected r) f a n =
      (f.0, f.1 ∙ if_neg (dec_peer r q) (differs n a) _ _)
  other_peer s t p q (prover_authenticated r address sender) f a n =
      (f.0 ∙ if_neg (dec_peer r q) (differs n a) _ _, f.1)
  other_peer s t p q (prover_disconnected r) f a n =
      (f.0 ∙ if_neg (dec_peer r q) (differs n a) _ _, f.1 ∙ if_neg (dec_peer r q) (differs n a) _ _)
  other_peer s t p q request f a n = f

  pub same-Place :
      (s t : Server w) (q : Peer) (script : Option (List (ServerMessage w)))
      → (known w t q ≡ known w s q) × (connected w t q ≡ connected w s q)
      → Place s q script
      → Place t q script
  same-Place s t q none (k, c) h = (k ∙ h.0, c ∙ h.1)
  same-Place s t q (some script) (k, c) (inl (e, h)) = inl (k ∙ e, h)
  same-Place s t q (some script) (k, c) (inr (e, h)) = inr (k ∙ e, h)
