-- ===== src/Tests/Texts.antt =====
-- JSON texts that are kept as they were before they were written, and messages between them.
use Prim.Native.String.{String}
use aleo_pool_server.Prelude.{
  ℕ, Bool, true, false, ◌≡◌, refl, List, [], ◌∷◌, ◌++◌, Option, some, none, arith, All,
}
use aleo_pool_server.Stratum.{
  StratumMessage, option_u64, option_string, authorize, set_target, notify, response,
}
use aleo_pool_server.Stratum
use aleo_pool_server.Codec.{
  Checked, ok, invalid, ◌>>=◌, Request, Value, Response, Json, result, failure,
}
use aleo_pool_server.Codec.Faithful.{IsFaithful, IsRegular}
use aleo_pool_server.Codec.Stream.{encode_all, decode_all, decode_all-encode_all}

pub data Text : Type 0 where
  asks : Request ℕ ℕ Unit → Text
  answers : Response ℕ String (Value ℕ Unit) → Text
  nothing : Text

abbrev pub is_text : Text → Bool
is_text nothing = false
is_text t = true

abbrev pub is_request : Text → String → Bool
is_request (asks r) key = true
is_request t key = false

abbrev pub as_request : Text → Checked (Request ℕ ℕ Unit)
as_request (asks r) = ok r
as_request t = invalid "Not a request"

abbrev pub as_response :
    {A : Type 0} → (Value ℕ Unit → Checked A) → Text → Checked (Response ℕ String A)
as_response f (answers r) = elim r.payload [
  | result v ↦ f v >>= (λ a. ok (record { payload = result a; id = r.id }))
  | failure e ↦ ok (record { payload = failure e; id = r.id })
]
as_response f t = invalid "Not a response"

abbrev pub first_text : Unit {0} → List Text → Checked (Option Text) × Unit {0} × List Text
first_text d [] = (ok none, d, [])
first_text d (t ∷ ts) = (ok (some t), d, ts)

abbrev pub json : Json ℕ String
json = record {
  zero_id = 0;
  Number = ℕ;
  Other = Unit;
  of_u64 = λ n. n;
  as_u64 = λ n. some n;
  Chunk = Text;
  no_bytes = nothing;
  request_to_vec = λ r. some (asks r);
  response_to_vec = λ r. some (answers r);
  from_utf8 = λ t. ok t;
  Document = Text;
  from_slice = λ t. ok t;
  is_object = is_text;
  contains_key = is_request;
  request_from_value = as_request;
  response_from_value = as_response;
  Buffer = List Text;
  Delimiters = Unit;
  delimit = λ t ts. ok (ts ++ t ∷ []);
  next_chunk = first_text;
}

json-IsFaithful : IsFaithful json
json-IsFaithful = record {
  reads_request = λ r. (asks r, asks r, refl, refl, refl, refl, refl, refl);
  reads_response = λ r h. (answers r, answers r, refl, refl, refl, refl, refl, λ f. refl);
  reads_u64 = λ n h. refl;
  Fits = λ t. Unit;
  holding = λ ts. ts;
  fresh = tt;
  delimits = λ ts t f a. refl;
  next_of_none = refl;
  next_of_some = λ t ts f a. refl;
}

-- A new challenge, a target, and an answer with a text that can be missing.
abbrev pub messages : List (StratumMessage ℕ String)
messages =
    notify "3" "00" none true
    ∷ set_target 512
    ∷ response 1 (some (Stratum.array (option_u64 (some 7) ∷ option_string (some "1") ∷ []))) none
    ∷ []

messages-IsRegular : All IsRegular messages
messages-IsRegular = (tt, (omega arith, ((omega arith, (tt, tt)), tt)))

decode_all-encode_all_example :
    (b : List Text) × (encode_all json json-IsFaithful messages [] ≡ ok b)
    × (decode_all json json-IsFaithful 4 tt b
        ≡ ok (
            notify "3" "00" none true
            ∷ set_target 512
            ∷ response 1 (some (Stratum.array (option_u64 (some 7) ∷ Stratum.string "1" ∷ []))) none
            ∷ []))
unfolding json-IsFaithful
decode_all-encode_all_example =
    decode_all-encode_all json json-IsFaithful messages messages-IsRegular (tt, (tt, (tt, tt)))
