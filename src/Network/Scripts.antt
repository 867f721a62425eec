-- ===== src/Network/Scripts.antt =====
-- The messages that one connection sends, in their order.
use Prim.Native.String.{String}
use aleo_pool_server.Prelude.{ℕ, ◌≡◌, refl, Bool, List, [], ◌∷◌, ◌++◌, All, inl, inr}
use aleo_pool_server.World.{World}
use aleo_pool_server.Wire.{Wire}
use aleo_pool_server.Server.{
  ServerMessage, prover_connected, prover_authenticated, prover_disconnected, prover_submit,
  new_epoch_challenge, exit,
}
use aleo_pool_server.Connection.{Next, Happening, run}
use aleo_pool_server.Connection.Session.{requests, IsSubmitOf, IsClosing, requests-run}

module _ (w : World) where
  open w use {Peer}

  -- What a connection sends after its peer was authenticated: submissions, and at last perhaps its end.
  abbrev pub IsRest : Peer → List (ServerMessage w) → Type 0
  IsRest peer [] = Unit {0}
  IsRest peer (prover_submit id p epoch nonce commitment proof ∷ rest) =
      (p ≡ peer) × IsRest peer rest
  IsRest peer (prover_disconnected p ∷ rest) = (p ≡ peer) × (rest ≡ [])
  IsRest peer (request ∷ rest) = ⊥

  -- All that a connection sends: its end, or the authentication and what follows it.
  abbrev pub IsScript : Peer → List (ServerMessage w) → Type 0
  IsScript peer (prover_authenticated p address sender ∷ rest) = (p ≡ peer) × IsRest peer rest
  IsScript peer (prover_disconnected p ∷ rest) = (p ≡ peer) × (rest ≡ [])
  IsScript peer script = ⊥

  closing-IsRest :
      (peer : Peer) (closing : List (ServerMessage w))
      → IsClosing w peer closing
      → IsRest peer closing
  closing-IsRest peer closing (inl e) = rw e tt
  closing-IsRest peer closing (inr e) = rw e (refl, refl)

  submits-IsRest :
      (peer : Peer) (submits closing : List (ServerMessage w))
      → All (IsSubmitOf w peer) submits
      → IsRest peer closing
      → IsRest peer (submits ++ closing)
  submits-IsRest peer [] closing a c = c
  submits-IsRest peer (prover_submit id p epoch nonce commitment proof ∷ submits) closing a c =
      (a.0, submits-IsRest peer submits closing a.1 c)
  submits-IsRest peer (prover_connected p ∷ submits) closing a c = absurd a.0
  submits-IsRest peer (prover_authenticated p address sender ∷ submits) closing a c = absurd a.0
  submits-IsRest peer (prover_disconnected p ∷ submits) closing a c = absurd a.0
  submits-IsRest peer (new_epoch_challenge challenge proof_target ∷ submits) closing a c =
      absurd a.0
  submits-IsRest peer (exit ∷ submits) closing a c = absurd a.0

module _ (w : World) (x : Wire w) where
  open w use {Peer, Sender}

  pub run-IsScript :
      (peer : Peer) (pool_address : String) (sender : Sender) (sendable sendable' : Bool)
      (first second : Next w) (now : ℕ) (happenings : List (Happening w))
      → IsScript w peer (
          requests w
            (run w x peer pool_address sender sendable first sendable' second now happenings))
  run-IsScript peer pool_address sender sendable sendable' first second now happenings =
      elim (requests-run w x peer pool_address sender sendable sendable' first second now
        happenings) [
          | inl e ↦ rw e (refl, refl)
          | inr (address, submits, closing, e, a, c) ↦
              rw e (refl, submits-IsRest w peer submits closing a (closing-IsRest w peer closing c))
        ]
