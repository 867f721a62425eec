-- ===== src/Legacy/Frames.antt =====
-- The body of a message, written and read.
use Prim.Native.String.{String}
use aleo_pool_server.Prelude.{ap, [], ◌∷◌, ◌<◌, ◌^◌, Bool, true, false, Option, none, some, ◌==◌}
use aleo_pool_server.Legacy.{
  Formats, ProverMessage, authorize, authorize_result, notify, submit, submit_result, canary, id,
  write_bool, write_message, write_result, write_body, read_bool, read_message, read_authorize,
  read_result, read_notify, read_submit, read_body,
}
use aleo_pool_server.Legacy.Bytes.{
  after, Codes, Codes-after, Codes-pure, Codes-le, Codes-byte, write_all, read_u8, read_le, ◌>>=◌,
  pure,
}

-- What the codec relies on: the values of the other crates are read as they were written.
pub record IsReadable (fm : Formats) : Type 0 where
  pub reads_address : (a : fm.Address) → Codes (fm.write_address a) fm.read_address a
  pub reads_text : (s : String) → Codes (fm.write_text s) fm.read_text s
  pub reads_template : (t : fm.BlockTemplate) → Codes (fm.write_template t) fm.read_template t
  pub reads_nonce : (n : fm.Nonce) → Codes (fm.write_nonce n) fm.read_nonce n
  pub reads_proof : (p : fm.Proof) → Codes (fm.write_proof p) fm.read_proof p

module _ (fm : Formats) where
  open fm use {
    Address, BlockTemplate, Nonce, Proof, write_address, read_address, write_text, read_text,
    write_template, read_template, write_nonce, read_nonce, write_proof, read_proof,
  }

  -- A message that can be encoded; its numbers are of the types of the source.
  abbrev pub IsPlain : ProverMessage fm → Type 0
  IsPlain (authorize address password version) = version < 256 ^ 2
  IsPlain (authorize_result result message) = Unit {0}
  IsPlain (notify template difficulty) = difficulty < 256 ^ 8
  IsPlain (submit height nonce proof) = height < 256 ^ 4
  IsPlain (submit_result result message) = Unit {0}
  IsPlain canary = ⊥

  module _ (l : IsReadable fm) where
    bool-Codes : (b : Bool) → Codes (write_all (write_bool fm b)) (read_bool fm) b
    unfolding write_bool read_bool
    bool-Codes true = Codes-pure (write_all (1 ∷ [])) read_u8 (λ byte. byte == 1) 1 (Codes-byte 1)
    bool-Codes false = Codes-pure (write_all (0 ∷ [])) read_u8 (λ byte. byte == 1) 0 (Codes-byte 0)

    -- A text or none, and what is made of it.
    message-Codes :
        (make : Option String → ProverMessage fm) (message : Option String)
        → Codes
            (write_message fm message)
            (read_bool fm >>= (λ more. read_message fm more >>= (λ message. pure (make message))))
            (make message)
    unfolding write_message read_message write_bool
    message-Codes make (some message) =
        Codes-after (write_all (1 ∷ [])) (write_text message) (read_bool fm)
          (λ more. read_message fm more >>= (λ message. pure (make message))) true
          (make (some message)) (bool-Codes true)
          (Codes-pure (write_text message) (read_message fm true) make (some message) (
            Codes-pure (write_text message) read_text (λ m. some m) message (l.reads_text message)))
    message-Codes make none =
        let (bytes, w, r) = bool-Codes false in
        (
          bytes,
          w,
          λ rest.
              ap
                (λ s.
                  after (λ more. read_message fm more >>= (λ message. pure (make message))) s.0 s.1)
                (r rest),
        )

    result-Codes :
        (make : Bool → Option String → ProverMessage fm) (result : Bool) (message : Option String)
        → Codes (write_result fm result message) (read_result fm make) (make result message)
    unfolding write_result read_result
    result-Codes make result message =
        Codes-after (write_all (write_bool fm result)) (write_message fm message) (read_bool fm) _
          result (make result message) (bool-Codes result) (message-Codes (make result) message)

    pub body-Codes :
        (m : ProverMessage fm) → IsPlain m → Codes (write_body fm m) (read_body fm (id fm m)) m
    unfolding write_body read_body id read_authorize read_notify read_submit
    body-Codes (authorize address password version) h =
        Codes-after _ _ read_address _ address _ (l.reads_address address) (
          Codes-after _ _ read_text _ password _ (l.reads_text password)
            (Codes-pure _ (read_le 2) (authorize address password) version (Codes-le 2 version h)))
    body-Codes (authorize_result result message) h = result-Codes authorize_result result message
    body-Codes (notify template difficulty) h =
        Codes-after _ _ read_template _ template _ (l.reads_template template)
          (Codes-pure _ (read_le 8) (notify template) difficulty (Codes-le 8 difficulty h))
    body-Codes (submit height nonce proof) h =
        Codes-after _ _ (read_le 4) _ height _ (Codes-le 4 height h) (
          Codes-after _ _ read_nonce _ nonce _ (l.reads_nonce nonce)
            (Codes-pure _ read_proof (submit height nonce) proof (l.reads_proof proof)))
    body-Codes (submit_result result message) h = result-Codes submit_result result message
    body-Codes canary h = absurd h
