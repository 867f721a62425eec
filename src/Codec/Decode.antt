-- ===== src/Codec/Decode.antt =====
-- The `Deserialize` of `ResponseParams`, and the `Decoder`.
use Prim.Native.String.{String}
use aleo_pool_server.Prelude.{ℕ, Bool, List, [], ◌∷◌, Option, none, some, if◌then◌else◌, not, ◌is◌}
use aleo_pool_server.Stratum.{
  BoxedType, option_u64, option_string, ResponseParams, StratumMessage, subscribe, authorize,
  set_target, notify, submit, response,
}
use aleo_pool_server.Stratum
use aleo_pool_server.Codec.{
  Checked, ok, invalid, ◌>>=◌, Scalar, null, bool, number, string, other, Value, scalar, array,
  Request, Response, result, failure, Json,
}

module _ {RequestId Error : Type 0} (j : Json RequestId Error) where
  open j use {
    zero_id, Number, Other, as_u64, Chunk, Document, from_slice, is_object, contains_key,
    request_from_value, response_from_value, Buffer, Delimiters, next_chunk,
  }

  -- The elements of an array; those of other types are skipped.
  unfoldable pub deserialize_elements : List (Scalar Number Other) → List BoxedType
  deserialize_elements [] = []
  deserialize_elements (null ∷ a) = option_string none ∷ deserialize_elements a
  deserialize_elements (string s ∷ a) = Stratum.string s ∷ deserialize_elements a
  deserialize_elements (number n ∷ a) = option_u64 (as_u64 n) ∷ deserialize_elements a
  deserialize_elements (bool b ∷ a) = deserialize_elements a
  deserialize_elements (other o ∷ a) = deserialize_elements a

  unfoldable pub deserialize_params : Value Number Other → Checked ResponseParams
  deserialize_params (scalar (bool b)) = ok (Stratum.bool b)
  deserialize_params (array a) = ok (Stratum.array (deserialize_elements a))
  deserialize_params (scalar null) = ok Stratum.null
  deserialize_params (scalar (number n)) = invalid "invalid response params"
  deserialize_params (scalar (string s)) = invalid "invalid response params"
  deserialize_params (scalar (other o)) = invalid "invalid response params"

  unfoldable pub unwrap_str_value : Scalar Number Other → Checked String
  unwrap_str_value (string s) = ok s
  unwrap_str_value _ = invalid "Param is not str"

  unfoldable pub unwrap_bool_value : Scalar Number Other → Checked Bool
  unwrap_bool_value (bool b) = ok b
  unwrap_bool_value _ = invalid "Param is not bool"

  unfoldable pub unwrap_u64_value : Scalar Number Other → Checked ℕ
  unwrap_u64_value (number n) = elim (as_u64 n) [
    | none ↦ invalid "Param is not u64"
    | some v ↦ ok v
  ]
  unwrap_u64_value _ = invalid "Param is not u64"

  -- A string or null.
  unfoldable pub unwrap_optional : Scalar Number Other → Checked (Option String)
  unwrap_optional (string s) = ok (some s)
  unwrap_optional null = ok none
  unwrap_optional _ = invalid "Invalid params"

  unfoldable pub id_or_zero : Option RequestId → RequestId
  id_or_zero none = zero_id
  id_or_zero (some id) = id

  unfoldable pub decode_subscribe :
      RequestId → List (Scalar Number Other) → Checked (StratumMessage RequestId Error)
  decode_subscribe id (user_agent ∷ protocol_version ∷ session_id ∷ []) = do
    user_agent ← unwrap_str_value user_agent
    protocol_version ← unwrap_str_value protocol_version
    session_id ← unwrap_optional session_id
    ok (subscribe id user_agent protocol_version session_id)
  decode_subscribe id _ = invalid "Invalid params"

  unfoldable pub decode_authorize :
      RequestId → List (Scalar Number Other) → Checked (StratumMessage RequestId Error)
  decode_authorize id (worker_name ∷ worker_password ∷ []) = do
    worker_name ← unwrap_str_value worker_name
    worker_password ← unwrap_str_value worker_password
    ok (authorize id worker_name worker_password)
  decode_authorize id _ = invalid "Invalid params"

  unfoldable pub decode_set_target :
      List (Scalar Number Other) → Checked (StratumMessage RequestId Error)
  decode_set_target (difficulty_target ∷ []) = do
    difficulty_target ← unwrap_u64_value difficulty_target
    ok (set_target difficulty_target)
  decode_set_target _ = invalid "Invalid params"

  unfoldable pub decode_notify :
      List (Scalar Number Other) → Checked (StratumMessage RequestId Error)
  decode_notify (job_id ∷ epoch_challenge ∷ address ∷ clean_jobs ∷ []) = do
    job_id ← unwrap_str_value job_id
    epoch_challenge ← unwrap_str_value epoch_challenge
    address ← unwrap_optional address
    clean_jobs ← unwrap_bool_value clean_jobs
    ok (notify job_id epoch_challenge address clean_jobs)
  decode_notify _ = invalid "Invalid params"

  unfoldable pub decode_submit :
      RequestId → List (Scalar Number Other) → Checked (StratumMessage RequestId Error)
  decode_submit id (worker_name ∷ job_id ∷ nonce ∷ commitment ∷ proof ∷ []) = do
    worker_name ← unwrap_str_value worker_name
    job_id ← unwrap_str_value job_id
    nonce ← unwrap_str_value nonce
    commitment ← unwrap_str_value commitment
    proof ← unwrap_str_value proof
    ok (submit id worker_name job_id nonce commitment proof)
  decode_submit id _ = invalid "Invalid params"

  -- The `match` on the method.
  unfoldable pub decode_method :
      String
      → Option RequestId
      → List (Scalar Number Other)
      → Checked (StratumMessage RequestId Error)
  decode_method method id params =
      if method is "mining.subscribe"
      then decode_subscribe (id_or_zero id) params
      else if method is "mining.authorize"
      then decode_authorize (id_or_zero id) params
      else if method is "mining.set_target"
      then decode_set_target params
      else if method is "mining.notify"
      then decode_notify params
      else if method is "mining.submit"
      then decode_submit (id_or_zero id) params
      else invalid "Unknown method"

  unfoldable pub decode_request :
      Request RequestId Number Other → Checked (StratumMessage RequestId Error)
  decode_request request = elim request.params [
    | none ↦ invalid "No params"
    | some params ↦ decode_method request.method request.id params
  ]

  unfoldable pub decode_response :
      Response RequestId Error ResponseParams → Checked (StratumMessage RequestId Error)
  decode_response r = elim r.payload [
    | result payload ↦ ok (response (id_or_zero r.id) (some payload) none)
    | failure error ↦ ok (response (id_or_zero r.id) none (some error))
  ]

  unfoldable pub decode_document : Document → Checked (StratumMessage RequestId Error)
  decode_document json =
      if not (is_object json)
      then invalid "Not an object"
      else if contains_key json "method"
      then (do request ← request_from_value json; decode_request request)
      else (do answer ← response_from_value deserialize_params json; decode_response answer)

  -- One message of a chunk, if there is a chunk.
  unfoldable pub decode_chunk : Option Chunk → Checked (Option (StratumMessage RequestId Error))
  decode_chunk none = ok none
  decode_chunk (some bytes) = do
    json ← from_slice bytes
    message ← decode_document json
    ok (some message)

  unfoldable pub decode :
      Delimiters → Buffer → Checked (Option (StratumMessage RequestId Error)) × Delimiters × Buffer
  decode codec src =
      let (chunk, codec', src') = next_chunk codec src in ((chunk >>= decode_chunk), codec', src')
