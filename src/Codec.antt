-- ===== src/Codec.antt =====
-- `StratumCodec` of stratum/src/codec.rs, between the messages of the protocol and the JSON-RPC texts of
-- other crates: serde_json, json_rpc_types, and the delimiter codec of tokio-util.
pub mod Encode
pub mod Decode
pub mod Faithful
pub mod RoundTrip
pub mod Stream
use Prim.Native.String.{String}
use aleo_pool_server.Prelude.{ℕ, Bool, List, Option}

-- A result that can be an `io::Error` of the kind `InvalidData`, with its text.
pub data Checked (A : Type 0) : Type 0 where
  ok : A → Checked A
  invalid : String → Checked A

infixl 5 ◌>>=◌
abbrev pub ◌>>=◌ : {A B : Type 0} → Checked A → (A → Checked B) → Checked B
ok a >>= f = f a
invalid e >>= f = invalid e

-- `serde_json::Value`, as far as the codec looks into it: the elements of an array that are arrays or
-- objects themselves are not read.
pub data Scalar (Number Other : Type 0) : Type 0 where
  null : Scalar Number Other
  bool : Bool → Scalar Number Other
  number : Number → Scalar Number Other
  string : String → Scalar Number Other
  other : Other → Scalar Number Other

pub data Value (Number Other : Type 0) : Type 0 where
  scalar : Scalar Number Other → Value Number Other
  array : List (Scalar Number Other) → Value Number Other

-- `json_rpc_types::Request`, whose parameters are an array.
pub record Request (RequestId Number Other : Type 0) : Type 0 where
  pub method : String
  pub params : Option (List (Scalar Number Other))
  pub id : Option RequestId

-- The payload of `json_rpc_types::Response`.
pub data Payload (Error A : Type 0) : Type 0 where
  result : A → Payload Error A
  failure : Error → Payload Error A

pub record Response (RequestId Error A : Type 0) : Type 0 where
  pub payload : Payload Error A
  pub id : Option RequestId

-- What the codec uses of the other crates.
pub record Json (RequestId Error : Type 0) : Type 1 where
  -- `Id::Num(0)`, and numbers.
  pub zero_id : RequestId
  pub Number : Type 0
  pub Other : Type 0
  pub of_u64 : ℕ → Number
  pub as_u64 : Number → Option ℕ
  -- The bytes of a JSON text; `none` is an error of `to_vec`, for which the codec takes no bytes.
  pub Chunk : Type 0
  pub no_bytes : Chunk
  pub request_to_vec : Request RequestId Number Other → Option Chunk
  pub response_to_vec : Response RequestId Error (Value Number Other) → Option Chunk
  pub from_utf8 : Chunk → Checked Chunk
  -- A parsed text, whether it is an object and has a key, and its conversions. `Response` converts its
  -- result with the `Deserialize` of its type.
  pub Document : Type 0
  pub from_slice : Chunk → Checked Document
  pub is_object : Document → Bool
  pub contains_key : Document → String → Bool
  pub request_from_value : Document → Checked (Request RequestId Number Other)
  pub response_from_value :
      {A : Type 0}
      → (Value Number Other → Checked A)
      → Document
      → Checked (Response RequestId Error A)
  -- `AnyDelimiterCodec`, its buffers, and its `encode` and `decode`.
  pub Buffer : Type 0
  pub Delimiters : Type 0
  pub delimit : Chunk → Buffer → Checked Buffer
  pub next_chunk : Delimiters → Buffer → Checked (Option Chunk) × Delimiters × Buffer
