-- ===== src/Connection.antt =====
-- One connection of a prover, of src/connection.rs: the handshake, the authorization, and the loop, on
-- the list of what happens to it. What it says is a list of actions.
pub mod Parse
pub mod Session
use Prim.Native.String.{String}
use aleo_pool_server.Prelude.{
  ℕ, ◌-◌, Bool, true, false, ◌||◌, List, [], ◌∷◌, ◌++◌, Option, none, some, ltb, ◌==◌,
  if◌then◌else◌, length, from_le_bytes, split, ◌is◌, Outcome, done, panic, ◌>>=◌,
}
use aleo_pool_server.Stratum.{
  StratumMessage, subscribe, authorize, set_target, notify, submit, response, array, bool,
  option_string,
}
use aleo_pool_server.World.{World}
use aleo_pool_server.Wire.{Wire}
use aleo_pool_server.Server.{
  ServerMessage, prover_authenticated, prover_disconnected, prover_submit,
}
use aleo_pool_server.Server.Prover.{from_secs}

-- What the reading of a message gives, with its timeout: a message, an error, the end, or nothing.
pub data Next (w : World) : Type 0 where
  message : StratumMessage w.RequestId w.Error → Next w
  failed : Next w
  closed : Next w
  timed_out : Next w

-- What happens to the loop: a message of the server, at a time, or the result of a reading.
pub data Happening (w : World) : Type 0 where
  outgoing : ℕ → StratumMessage w.RequestId w.Error → Happening w
  incoming : ℕ → Next w → Happening w

pub data Action (w : World) : Type 0 where
  to_server : ServerMessage w → Action w
  to_peer : StratumMessage w.RequestId w.Error → Action w

-- How a connection goes on: with the time of the last message, to its end, or with a panic.
pub data Flow : Type 0 where
  goes_on : ℕ → Flow
  breaks : Flow
  crashes : Flow

module _ (w : World) (x : Wire w) where
  open w use {Peer, Address, Sender, RequestId}
  open x use {
    hex_decode, Version, version_new, version_parse, version_lt, commitment_from_bytes,
    proof_from_bytes, address_from_str,
  }

  -- The supported versions are those from `minimum` to `maximum`.
  unfoldable pub is_unsupported : Version → Bool
  is_unsupported version =
      version_lt version (version_new 2 0 0) || version_lt (version_new 2 0 0) version

  -- The version of a protocol, as `AleoStratum/2.0.0`.
  unfoldable pub protocol : String → Option Version
  protocol protocol_version = elim (split "/" protocol_version) [
    | name ∷ number ∷ [] ↦
        if name is "AleoStratum"
        then elim (version_parse number) [
          | none ↦ none
          | some version ↦ if is_unsupported version then none else some version
        ]
        else none
    | _ ↦ none
  ]

  -- The answer to a subscription.
  unfoldable pub subscribed : RequestId → String → StratumMessage RequestId w.Error
  subscribed id pool_address =
      response id
        (some (
          array (option_string none ∷ option_string none ∷ option_string (some pool_address) ∷ [])))
        none

  -- `handshake`: the result and what is sent, where `sendable` says whether sending succeeds.
  unfoldable pub handshake : String → Bool → Next w → Option (String × Version) × List (Action w)
  handshake pool_address sendable (message (subscribe id user_agent protocol_version session)) =
      elim (protocol protocol_version) [
        | none ↦ (none, [])
        | some version ↦
            if sendable
            then (some (user_agent, version), to_peer (subscribed id pool_address) ∷ [])
            else (none, [])
      ]
  handshake pool_address sendable next = (none, [])

  unfoldable pub authorize_peer : Bool → Next w → Option Address × List (Action w)
  authorize_peer sendable (message (authorize id address password)) =
      elim (address_from_str address) [
        | none ↦ (none, [])
        | some parsed ↦
            if sendable
            then (some parsed, to_peer (response id (some (bool true)) none) ∷ [])
            else (none, [])
      ]
  authorize_peer sendable next = (none, [])

  -- The epoch number of a job id, of four bytes.
  unfoldable pub parse_job : String → Option ℕ
  parse_job job_id = elim (hex_decode job_id) [
    | none ↦ none
    | some bytes ↦ if length bytes == 4 then some (from_le_bytes bytes) else none
  ]

  -- The nonce; `try_into().unwrap()` panics if there are not eight bytes.
  unfoldable pub parse_nonce : String → Outcome (Option ℕ)
  parse_nonce nonce = elim (hex_decode nonce) [
    | none ↦ done none
    | some bytes ↦ if length bytes == 8 then done (some (from_le_bytes bytes)) else panic
  ]

  unfoldable pub parse_commitment : String → Option w.Commitment
  parse_commitment commitment = elim (hex_decode commitment) [
    | none ↦ none
    | some bytes ↦ commitment_from_bytes bytes
  ]

  unfoldable pub parse_proof : String → Option w.Proof
  parse_proof proof = elim (hex_decode proof) [ none ↦ none | some bytes ↦ proof_from_bytes bytes ]

  -- The message of a submission for the server; `none` ends the connection.
  unfoldable pub parse_submit :
      Peer → RequestId → String → String → String → String → Outcome (Option (ServerMessage w))
  parse_submit peer_addr id job_id nonce commitment proof = elim (parse_job job_id) [
    | none ↦ done none
    | some epoch_number ↦ do
      nonce ← parse_nonce nonce
      elim nonce [
        | none ↦ done none
        | some nonce ↦ elim (parse_commitment commitment) [
          | none ↦ done none
          | some commitment ↦ elim (parse_proof proof) [
            | none ↦ done none
            | some proof ↦
                done (some (prover_submit id peer_addr epoch_number nonce commitment proof))
          ]
        ]
      ]
  ]

  unfoldable pub after_parse : ℕ → Outcome (Option (ServerMessage w)) → List (Action w) × Flow
  after_parse now panic = ([], crashes)
  after_parse now (done none) = ([], breaks)
  after_parse now (done (some request)) = (to_server request ∷ [], goes_on now)

  -- One round of the loop; the timeout is 180 seconds.
  unfoldable pub step : Peer → ℕ → Happening w → List (Action w) × Flow
  step peer_addr last (outgoing now reply) =
      if ltb (from_secs 180) (now - last) then ([], breaks) else (to_peer reply ∷ [], goes_on last)
  step peer_addr last (incoming now (message (submit id worker job_id nonce commitment proof))) =
      after_parse now (parse_submit peer_addr id job_id nonce commitment proof)
  step peer_addr last (incoming now next) = ([], breaks)

  -- The loop, and what follows it; with nothing left to happen the connection is still open.
  unfoldable pub loop : Peer → ℕ → List (Happening w) → List (Action w)
  loop peer_addr last [] = []
  loop peer_addr last (h ∷ happenings) =
      let (actions, flow) = step peer_addr last h in
      actions ++ elim flow [
        | goes_on instant ↦ loop peer_addr instant happenings
        | breaks ↦ to_server (prover_disconnected peer_addr) ∷ []
        | crashes ↦ []
      ]

  -- `Connection::run` on the two readings of the handshake and the authorization and on what happens
  -- afterwards, from the time `now` on.
  unfoldable pub run :
      Peer
      → String
      → Sender
      → Bool
      → Next w
      → Bool
      → Next w
      → ℕ
      → List (Happening w)
      → List (Action w)
  run peer_addr pool_address sender sendable first sendable' second now happenings =
      let (greeted, sent) = handshake pool_address sendable first in
      sent ++ elim greeted [
        | none ↦ to_server (prover_disconnected peer_addr) ∷ []
        | some known ↦
            let (address, sent') = authorize_peer sendable' second in
            sent' ++ elim address [
              | none ↦ to_server (prover_disconnected peer_addr) ∷ []
              | some address ↦
                  to_server (prover_authenticated peer_addr address sender)
                  ∷ loop peer_addr now happenings
            ]
      ]
