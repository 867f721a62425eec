-- ===== src/Codec/RoundTrip.antt =====
-- What is decoded from an encoded message.
use Prim.Native.String.{String}
use aleo_pool_server.Prelude.{
  ◌≡◌, refl, ap, List, [], ◌∷◌, ◌++◌, Option, none, some, map, All, arith,
}
use aleo_pool_server.Stratum.{
  BoxedType, option_u64, option_string, ResponseParams, StratumMessage, subscribe, authorize,
  set_target, notify, submit, response,
}
use aleo_pool_server.Stratum
use aleo_pool_server.Codec.{
  ok, ◌>>=◌, Scalar, bool, Value, scalar, array, Response, result, failure, Json,
}
use aleo_pool_server.Codec.Encode.{
  optional_string, serialize_boxed, serialize_params, serialize_result, request_bytes,
  message_bytes, unwrap_or_default, encode,
}
use aleo_pool_server.Codec.Decode.{
  deserialize_elements, deserialize_params, decode_document, decode_request, decode_method,
  decode_response, decode_chunk, decode, decode_subscribe, decode_authorize, decode_set_target,
  decode_notify, decode_submit, unwrap_str_value, unwrap_bool_value, unwrap_u64_value,
  unwrap_optional, id_or_zero,
}
use aleo_pool_server.Codec.Faithful.{
  normal_boxed, IsBoxedU64, normal, IsRegular, converted, IsNotNull, IsFaithful,
}

module _ {RequestId Error : Type 0} (j : Json RequestId Error) where
  open j use {
    Number, Other, of_u64, as_u64, Chunk, request_to_vec, response_to_vec, from_utf8, Document,
    from_slice, is_object, contains_key, request_from_value, response_from_value, Buffer,
    Delimiters, delimit, next_chunk,
  }

  -- A text that is read as a message.
  abbrev pub ReadsAs : Chunk → StratumMessage RequestId Error → Type 0
  ReadsAs c message =
      (from_utf8 c ≡ ok c)
      × (d : Document) × (from_slice c ≡ ok d)
      × (decode_document j d ≡ ok message)

  module _ (l : IsFaithful j) where
    request-ReadsAs :
        (method : String) (params : List (Scalar Number Other)) (id : Option RequestId)
        (message : StratumMessage RequestId Error)
        → decode_method j method id params ≡ ok message
        → ReadsAs (request_bytes j method params id) message
    unfolding request_bytes unwrap_or_default decode_document decode_request
    request-ReadsAs method params id message h =
        let (c, d, e, u, f, o, k, q) =
          l.reads_request (record { method = method; params = some params; id = id }) in
        (rw e u, d, rw e f, ground (arith, o, k, q, h))

    response-ReadsAs :
        (r : Response RequestId Error (Value Number Other))
        (message : StratumMessage RequestId Error)
        → IsNotNull j r
        → (converted j (deserialize_params j) r >>= decode_response j) ≡ ok message
        → ReadsAs (unwrap_or_default j (response_to_vec r)) message
    unfolding unwrap_or_default decode_document
    response-ReadsAs r message nn h =
        let (c, d, e, u, f, o, k, q) = l.reads_response r nn in
        (rw e u, d, rw e f, ground (arith, o, k, q (deserialize_params j), h))

    deserialize-serialize_boxed :
        (v : List BoxedType)
        → All IsBoxedU64 v
        → deserialize_elements j (map (λ b. serialize_boxed j b) v) ≡ map (λ b. normal_boxed b) v
    unfolding deserialize_elements serialize_boxed optional_string
    deserialize-serialize_boxed [] h = refl
    deserialize-serialize_boxed (Stratum.string s ∷ v) h =
        ap (◌∷◌ (Stratum.string s)) (deserialize-serialize_boxed v h.1)
    deserialize-serialize_boxed (option_u64 none ∷ v) h =
        ap (◌∷◌ (option_string none)) (deserialize-serialize_boxed v h.1)
    deserialize-serialize_boxed (option_u64 (some n) ∷ v) h =
        rw (l.reads_u64 n h.0) (ap (◌∷◌ (option_u64 (some n))) (deserialize-serialize_boxed v h.1))
    deserialize-serialize_boxed (option_string none ∷ v) h =
        ap (◌∷◌ (option_string none)) (deserialize-serialize_boxed v h.1)
    deserialize-serialize_boxed (option_string (some s) ∷ v) h =
        ap (◌∷◌ (Stratum.string s)) (deserialize-serialize_boxed v h.1)

    message-ReadsAs :
        (m : StratumMessage RequestId Error) → IsRegular m → ReadsAs (message_bytes j m) (normal m)
    unfolding message_bytes decode_method decode_subscribe decode_authorize decode_set_target
        decode_notify decode_submit unwrap_str_value unwrap_bool_value unwrap_u64_value
        unwrap_optional id_or_zero optional_string serialize_result serialize_params
        deserialize_params decode_response
    message-ReadsAs (subscribe id agent version none) h =
        request-ReadsAs "mining.subscribe" _ (some id) _ refl
    message-ReadsAs (subscribe id agent version (some s)) h =
        request-ReadsAs "mining.subscribe" _ (some id) _ refl
    message-ReadsAs (authorize id name password) h =
        request-ReadsAs "mining.authorize" _ (some id) _ refl
    message-ReadsAs (set_target n) h =
        request-ReadsAs "mining.set_target" _ none _ (ground (arith, l.reads_u64 n h))
    message-ReadsAs (notify job challenge none clean) h =
        request-ReadsAs "mining.notify" _ none _ refl
    message-ReadsAs (notify job challenge (some address) clean) h =
        request-ReadsAs "mining.notify" _ none _ refl
    message-ReadsAs (submit id name job nonce commitment proof) h =
        request-ReadsAs "mining.submit" _ (some id) _ refl
    message-ReadsAs (response id params (some error)) h =
        response-ReadsAs (record { payload = failure error; id = some id }) _ tt refl
    message-ReadsAs (response id none none) h = absurd h
    message-ReadsAs (response id (some Stratum.null) none) h = absurd h
    message-ReadsAs (response id (some (Stratum.bool b)) none) h =
        response-ReadsAs (record { payload = result (scalar (bool b)); id = some id }) _ tt refl
    message-ReadsAs (response id (some (Stratum.array v)) none) h =
        response-ReadsAs
          (record { payload = result (array (map (λ b. serialize_boxed j b) v)); id = some id }) _
          tt (rw (deserialize-serialize_boxed v h) refl)

    -- If the other crates read back what they wrote, as `IsFaithful` says, then a message whose numbers are
    -- `u64`s, and which is no answer with a null result, is encoded, if its text fits, behind what a buffer
    -- holds; and the first text that a buffer holds is decoded as the normal form of the message that
    -- it was encoded from.
    pub decode-encode :
        (cs : List Chunk) (m : StratumMessage RequestId Error)
        → IsRegular m
        → l.Fits (message_bytes j m)
        → All l.Fits cs
        → (encode j m (l.holding cs) ≡ ok (l.holding (cs ++ message_bytes j m ∷ [])))
          × (decode j l.fresh (l.holding (message_bytes j m ∷ cs))
              ≡ (ok (some (normal m)), l.fresh, l.holding cs))
    unfolding encode decode decode_chunk
    decode-encode cs m h fits all =
        let (u, d, f, e) = message-ReadsAs m h in
        (
          rw u (l.delimits cs (message_bytes j m) fits all),
          rw (l.next_of_some (message_bytes j m) cs fits all) (rw f (rw e refl)),
        )
