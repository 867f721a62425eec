-- ===== src/Legacy.antt =====
-- The messages of the earlier protocol, and their codec: src/message.rs.
pub mod Bytes
pub mod Frames
pub mod RoundTrip
use Prim.Native.String.{String}
use aleo_pool_server.Prelude.{
  ℕ, zero, suc, ◌+◌, ◌-◌, ◌%◌, ltb, if◌then◌else◌, Bool, true, false, List, [], ◌∷◌, ◌++◌, Option,
  none, some, length, ◌==◌, to_le_bytes, from_le_bytes, u32_mod,
}
use aleo_pool_server.Legacy.Bytes.{
  Result, ok, failed, Io, ◌>>=◌, pure, fail, write_all, read_u8, read_le, take, set_front,
}

-- What the codec uses of snarkVM and of bincode: how a value is written, and how it is read.
pub record Formats : Type 1 where
  pub Address : Type 0
  pub BlockTemplate : Type 0
  pub Nonce : Type 0
  pub Proof : Type 0
  pub write_address : Address → Io Unit
  pub read_address : Io Address
  pub write_text : String → Io Unit
  pub read_text : Io String
  pub write_template : BlockTemplate → Io Unit
  pub read_template : Io BlockTemplate
  pub write_nonce : Nonce → Io Unit
  pub read_nonce : Io Nonce
  pub write_proof : Proof → Io Unit
  pub read_proof : Io Proof

module _ (fm : Formats) where
  open fm use {
    Address, BlockTemplate, Nonce, Proof, write_address, read_address, write_text, read_text,
    write_template, read_template, write_nonce, read_nonce, write_proof, read_proof,
  }

  pub data ProverMessage : Type 0 where
    authorize : Address → String → ℕ → ProverMessage
    authorize_result : Bool → Option String → ProverMessage
    notify : BlockTemplate → ℕ → ProverMessage
    submit : ℕ → Nonce → Proof → ProverMessage
    submit_result : Bool → Option String → ProverMessage
    canary : ProverMessage

  abbrev pub our_version : ℕ
  our_version = 1

  unfoldable pub id : ProverMessage → ℕ
  id (authorize address password version) = 0
  id (authorize_result result message) = 1
  id (notify template difficulty) = 2
  id (submit height nonce proof) = 3
  id (submit_result result message) = 4
  id canary = 5

  unfoldable pub name : ProverMessage → String
  name (authorize address password version) = "Authorize"
  name (authorize_result result message) = "AuthorizeResult"
  name (notify template difficulty) = "Notify"
  name (submit height nonce proof) = "Submit"
  name (submit_result result message) = "SubmitResult"
  name canary = "Canary"

  unfoldable pub write_bool : Bool → List ℕ
  write_bool true = 1 ∷ []
  write_bool false = 0 ∷ []

  unfoldable pub write_message : Option String → Io Unit
  write_message (some message) = do _ ← write_all (1 ∷ []); write_text message
  write_message none = write_all (0 ∷ [])

  unfoldable pub write_result : Bool → Option String → Io Unit
  write_result result message = do _ ← write_all (write_bool result); write_message message

  -- The `match` of `encode`.
  unfoldable pub write_body : ProverMessage → Io Unit
  write_body (authorize address password version) = do
    _ ← write_address address
    _ ← write_text password
    write_all (to_le_bytes 2 version)
  write_body (authorize_result result message) = write_result result message
  write_body (submit_result result message) = write_result result message
  write_body (notify template difficulty) = do
    _ ← write_template template
    write_all (to_le_bytes 8 difficulty)
  write_body (submit height nonce proof) = do
    _ ← write_all (to_le_bytes 4 height)
    _ ← write_nonce nonce
    write_proof proof
  write_body canary = fail "Use of unsupported message"

  -- The last lines of `encode`: the length of the buffer, less 4, is written over its first 4 bytes.
  unfoldable pub write_length : Io Unit
  write_length = set_front 4 (λ dst. to_le_bytes 4 ((length dst - 4) % u32_mod))

  unfoldable pub encode : ProverMessage → Io Unit
  encode item = do
    _ ← write_all (to_le_bytes 4 0)
    _ ← write_all (id item ∷ [])
    _ ← write_body item
    write_length

  unfoldable pub read_bool : Io Bool
  read_bool = do byte ← read_u8; pure (byte == 1)

  unfoldable pub read_message : Bool → Io (Option String)
  read_message true = do message ← read_text; pure (some message)
  read_message false = pure none

  unfoldable pub read_authorize : Io ProverMessage
  read_authorize = do
    address ← read_address
    password ← read_text
    version ← read_le 2
    pure (authorize address password version)

  unfoldable pub read_result : (Bool → Option String → ProverMessage) → Io ProverMessage
  read_result make = do
    result ← read_bool
    more ← read_bool
    message ← read_message more
    pure (make result message)

  unfoldable pub read_notify : Io ProverMessage
  read_notify = do
    template ← read_template
    difficulty ← read_le 8
    pure (notify template difficulty)

  unfoldable pub read_submit : Io ProverMessage
  read_submit = do
    height ← read_le 4
    nonce ← read_nonce
    proof ← read_proof
    pure (submit height nonce proof)

  -- The `match` of `decode`.
  unfoldable pub read_body : ℕ → Io ProverMessage
  read_body msg_id =
      if msg_id == 0
      then read_authorize
      else if msg_id == 1
      then read_result authorize_result
      else if msg_id == 2
      then read_notify
      else if msg_id == 3
      then read_submit
      else if msg_id == 4
      then read_result submit_result
      else fail "Unknown message id"

  unfoldable pub read_frame : Io ProverMessage
  read_frame = do _ ← read_le 4; msg_id ← read_u8; read_body msg_id

  -- `src` holds less than a message.
  unfoldable pub decode : List ℕ → Result (Option ProverMessage) × List ℕ
  decode src =
      if ltb (length src) 4
      then (ok none, src)
      else let size = from_le_bytes (take 4 src) in
        if ltb 1048576 size
        then (failed "Message too long", src)
        else if ltb (length src) (4 + size)
        then (ok none, src)
        else Io.run (do msg ← read_frame; pure (some msg)) src
