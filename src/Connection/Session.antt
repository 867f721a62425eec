-- ===== src/Connection/Session.antt =====
-- What the server hears of one connection.
use Prim.Native.String.{String}
use aleo_pool_server.Prelude.{
  All-append, ℕ, ◌≡◌, ◌⊎◌, inl, inr, refl, Bool, List, [], ◌∷◌, ◌++◌, none, some, arith, All, ap,
  Option-cases, Outcome-cases, ◌∙◌,
}
use mathlib.Core.List.{append_assoc}
use aleo_pool_server.Stratum.{submit, subscribe, authorize}
use aleo_pool_server.World.{World}
use aleo_pool_server.Wire.{Wire}
use aleo_pool_server.Server.{
  ServerMessage, prover_authenticated, prover_disconnected, prover_submit,
}
use aleo_pool_server.Connection.{
  Next, Happening, Action, to_server, to_peer, Flow, outgoing, incoming, message, parse_submit,
  parse_job, parse_nonce, parse_commitment, parse_proof, goes_on, breaks, crashes, handshake,
  authorize_peer, step, after_parse, loop, run,
}

module _ (w : World) where
  -- The messages for the server.
  abbrev pub requests : List (Action w) → List (ServerMessage w)
  requests [] = []
  requests (to_server request ∷ actions) = request ∷ requests actions
  requests (to_peer reply ∷ actions) = requests actions

  -- A submission of the peer.
  abbrev pub IsSubmitOf : w.Peer → ServerMessage w → Type 0
  IsSubmitOf peer (prover_submit id p epoch nonce commitment proof) = p ≡ peer
  IsSubmitOf peer request = ⊥

  -- Nothing, or the end of the connection of the peer.
  abbrev pub IsClosing : w.Peer → List (ServerMessage w) → Type 0
  IsClosing peer closing = (closing ≡ []) ⊎ (closing ≡ prover_disconnected peer ∷ [])

module _ (w : World) (x : Wire w) where
  open w use {Peer, Address, Sender, RequestId}

  requests-append :
      (xs ys : List (Action w)) → requests w (xs ++ ys) ≡ requests w xs ++ requests w ys
  requests-append [] ys = refl
  requests-append (to_server request ∷ xs) ys = ap (◌∷◌ request) (requests-append xs ys)
  requests-append (to_peer reply ∷ xs) ys = requests-append xs ys

  parse_submit-IsSubmitOf :
      (peer : Peer) (now : ℕ) (id : RequestId) (job nonce commitment proof : String)
      → All
          (IsSubmitOf w peer)
          (requests w (after_parse w x now (parse_submit w x peer id job nonce commitment proof)).0)
  unfolding parse_submit after_parse
  parse_submit-IsSubmitOf peer now id job nonce commitment proof =
      elim (Option-cases (parse_job w x job)) [
        | inl e ↦ ground arith
        | inr (epoch, e) ↦ elim (Outcome-cases (parse_nonce w x nonce)) [
          | inl n ↦ ground arith
          | inr (none, n) ↦ ground arith
          | inr (some number, n) ↦ elim (Option-cases (parse_commitment w x commitment)) [
            | inl c ↦ ground arith
            | inr (c', c) ↦ elim (Option-cases (parse_proof w x proof)) [
              | inl p ↦ ground arith
              | inr (p', p) ↦ ground arith
            ]
          ]
        ]
      ]

  step-IsSubmitOf :
      (peer : Peer) (last : ℕ) (h : Happening w)
      → All (IsSubmitOf w peer) (requests w (step w x peer last h).0)
  unfolding step
  step-IsSubmitOf peer last (outgoing now reply) = ground arith
  step-IsSubmitOf peer last (incoming now (message (submit id worker job nonce commitment proof))) =
      parse_submit-IsSubmitOf peer now id job nonce commitment proof
  step-IsSubmitOf peer last (incoming now next) = ground arith

  -- What the server hears of the loop: submissions of the peer, and then at most its end.
  abbrev Heard : Peer → List (Action w) → Type 0
  Heard peer actions =
      (submits closing : List (ServerMessage w)) × (requests w actions ≡ submits ++ closing)
      × All (IsSubmitOf w peer) submits
      × IsClosing w peer closing

  Heard-append :
      (peer : Peer) (actions rest : List (Action w))
      → All (IsSubmitOf w peer) (requests w actions)
      → Heard peer rest
      → Heard peer (actions ++ rest)
  Heard-append peer actions rest a (submits, closing, e, b, c) = (
    requests w actions ++ submits,
    closing,
    cc (requests-append actions rest, e, append_assoc (requests w actions) submits closing),
    All-append (IsSubmitOf w peer) (requests w actions) submits a b,
    c,
  )

  loop-Heard :
      (peer : Peer) (last : ℕ) (happenings : List (Happening w))
      → Heard peer (loop w x peer last happenings)
  unfolding loop
  loop-Heard peer last [] = ([], [], refl, tt, inl refl)
  loop-Heard peer last (h ∷ happenings) =
      Heard-append peer (step w x peer last h).0 _ (step-IsSubmitOf peer last h)
        (rest (λ instant. loop-Heard peer instant happenings) (step w x peer last h).1)
    where
      rest :
          ((instant : ℕ) → Heard peer (loop w x peer instant happenings))
          → (flow : Flow)
          → Heard peer (elim flow [
            | goes_on instant ↦ loop w x peer instant happenings
            | breaks ↦ to_server (prover_disconnected peer) ∷ []
            | crashes ↦ []
          ])
      rest heard (goes_on instant) = heard instant
      rest heard breaks = ([], prover_disconnected peer ∷ [], refl, tt, inr refl)
      rest heard crashes = ([], [], refl, tt, inl refl)

  requests-silent :
      (xs ys : List (Action w)) → requests w xs ≡ [] → requests w (xs ++ ys) ≡ requests w ys
  requests-silent xs ys silent = requests-append xs ys ∙ ap (λ l. l ++ requests w ys) silent

  requests-handshake :
      (pool_address : String) (sendable : Bool) (next : Next w)
      → requests w (handshake w x pool_address sendable next).1 ≡ []
  unfolding handshake
  requests-handshake pool_address sendable (message (subscribe id agent version session)) =
      ground arith
  requests-handshake pool_address sendable next = ground arith

  requests-authorize_peer :
      (sendable : Bool) (next : Next w) → requests w (authorize_peer w x sendable next).1 ≡ []
  unfolding authorize_peer
  requests-authorize_peer sendable (message (authorize id address password)) = ground arith
  requests-authorize_peer sendable next = ground arith

  -- Whatever happens to a connection, the server hears only of its end; or first that the peer is
  -- authenticated, once, under an address, with the connection's own sender, then nothing but
  -- submissions of this peer, and at last nothing or its end, once.
  pub requests-run :
      (peer : Peer) (pool_address : String) (sender : Sender) (sendable sendable' : Bool)
      (first second : Next w) (now : ℕ) (happenings : List (Happening w))
      → let heard =
          requests w
            (run w x peer pool_address sender sendable first sendable' second now happenings) in
        (heard ≡ prover_disconnected peer ∷ [])
        ⊎ ((address : Address) × (submits closing : List (ServerMessage w)) × (heard
              ≡ prover_authenticated peer address sender ∷ (submits ++ closing))
            × All (IsSubmitOf w peer) submits
            × IsClosing w peer closing)
  unfolding run
  requests-run peer pool_address sender sendable sendable' first second now happenings =
      let greeting = handshake w x pool_address sendable first in
      let silent = requests-handshake pool_address sendable first in
      let authorization = authorize_peer w x sendable' second in
      let silent' = requests-authorize_peer sendable' second in
      elim (Option-cases greeting.0) [
        | inl e ↦ inl (rw e (requests-silent greeting.1 _ silent))
        | inr (known, e) ↦ elim (Option-cases authorization.0) [
          | inl e' ↦ inl (
              rw (e, e')
                (requests-silent greeting.1 _ silent ∙ requests-silent authorization.1 _ silent'))
          | inr (address, e') ↦
              let (submits, closing, h, a, c) = loop-Heard peer now happenings in
              inr (
                address,
                submits,
                closing,
                rw (e, e')
                    (requests-silent greeting.1 _ silent
                      ∙ (requests-silent authorization.1 _ silent'
                          ∙ ap (λ l. prover_authenticated peer address sender ∷ l) h)),
                a,
                c,
              )
        ]
      ]
