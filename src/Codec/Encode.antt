-- ===== src/Codec/Encode.antt =====
-- The `Serialize` of `ResponseParams`, and the `Encoder`.
use Prim.Native.String.{String}
use aleo_pool_server.Prelude.{List, [], ◌∷◌, Option, none, some, map}
use aleo_pool_server.Stratum.{
  BoxedType, option_u64, option_string, ResponseParams, StratumMessage, subscribe, authorize,
  set_target, notify, submit, response,
}
use aleo_pool_server.Stratum
use aleo_pool_server.Codec.{
  Checked, ◌>>=◌, Scalar, null, bool, number, string, Value, scalar, array, result, failure, Json,
}

module _ {RequestId Error : Type 0} (j : Json RequestId Error) where
  open j use {
    Number, Other, of_u64, Chunk, no_bytes, request_to_vec, response_to_vec, from_utf8, Buffer,
    delimit,
  }

  unfoldable pub optional_string : Option String → Scalar Number Other
  optional_string none = null
  optional_string (some s) = string s

  -- `serialize_element` on what implements `BoxedType`.
  unfoldable pub serialize_boxed : BoxedType → Scalar Number Other
  serialize_boxed (Stratum.string s) = string s
  serialize_boxed (option_u64 none) = null
  serialize_boxed (option_u64 (some n)) = number (of_u64 n)
  serialize_boxed (option_string s) = optional_string s

  unfoldable pub serialize_params : ResponseParams → Value Number Other
  serialize_params (Stratum.bool b) = scalar (bool b)
  serialize_params (Stratum.array v) = array (map serialize_boxed v)
  serialize_params Stratum.null = scalar null

  unfoldable pub serialize_result : Option ResponseParams → Value Number Other
  serialize_result none = scalar null
  serialize_result (some params) = serialize_params params

  unfoldable pub unwrap_or_default : Option Chunk → Chunk
  unwrap_or_default none = no_bytes
  unwrap_or_default (some bytes) = bytes

  unfoldable pub request_bytes : String → List (Scalar Number Other) → Option RequestId → Chunk
  request_bytes method params id =
      unwrap_or_default (request_to_vec (record { method = method; params = some params; id = id }))

  -- The bytes of a message, without the delimiter.
  unfoldable pub message_bytes : StratumMessage RequestId Error → Chunk
  message_bytes (subscribe id user_agent protocol_version session_id) =
      request_bytes "mining.subscribe"
        (string user_agent ∷ string protocol_version ∷ optional_string session_id ∷ []) (some id)
  message_bytes (authorize id worker_name worker_password) =
      request_bytes "mining.authorize" (string worker_name ∷ string worker_password ∷ []) (some id)
  message_bytes (set_target difficulty_target) =
      request_bytes "mining.set_target" (number (of_u64 difficulty_target) ∷ []) none
  message_bytes (notify job_id epoch_challenge address clean_jobs) =
      request_bytes "mining.notify"
        (string job_id ∷ string epoch_challenge ∷ optional_string address ∷ bool clean_jobs ∷ [])
        none
  message_bytes (submit id worker_name job_id nonce commitment proof) =
      request_bytes "mining.submit"
        (string worker_name ∷ string job_id ∷ string nonce ∷ string commitment ∷ string proof ∷ [])
        (some id)
  message_bytes (response id params (some error)) =
      unwrap_or_default (response_to_vec (record { payload = failure error; id = some id }))
  message_bytes (response id params none) =
      unwrap_or_default
        (response_to_vec (record { payload = result (serialize_result params); id = some id }))

  unfoldable pub encode : StratumMessage RequestId Error → Buffer → Checked Buffer
  encode item dst = do text ← from_utf8 (message_bytes item); delimit text dst
