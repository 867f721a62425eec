-- ===== src/Codec/Faithful.antt =====
-- What a message is read as, and what the codec relies on.
use aleo_pool_server.Prelude.{
  ℕ, ◌<◌, ◌≡◌, true, false, List, [], ◌∷◌, ◌++◌, Option, none, some, map, All, u64_mod,
}
use aleo_pool_server.Stratum.{
  BoxedType, option_u64, option_string, ResponseParams, StratumMessage, subscribe, authorize,
  set_target, notify, submit, response,
}
use aleo_pool_server.Stratum
use aleo_pool_server.Codec.{
  Checked, ok, ◌>>=◌, null, Value, scalar, Request, Response, result, failure, Json,
}

-- What a message is read as: an optional text in an answer is read as a text, a missing number as a
-- missing text, and an answer with an error has no result.
abbrev pub normal_boxed : BoxedType → BoxedType
normal_boxed (Stratum.string s) = Stratum.string s
normal_boxed (option_u64 none) = option_string none
normal_boxed (option_u64 (some n)) = option_u64 (some n)
normal_boxed (option_string none) = option_string none
normal_boxed (option_string (some s)) = Stratum.string s

abbrev pub normal_params : ResponseParams → ResponseParams
normal_params (Stratum.bool b) = Stratum.bool b
normal_params (Stratum.array v) = Stratum.array (map normal_boxed v)
normal_params Stratum.null = Stratum.null

-- The numbers of a message are those of a `u64`.
abbrev pub IsBoxedU64 : BoxedType → Type 0
IsBoxedU64 (option_u64 (some n)) = n < u64_mod
IsBoxedU64 b = Unit {0}

-- An answer with no error has a result other than null.
abbrev pub IsAnswer : Option ResponseParams → Type 0
IsAnswer (some (Stratum.bool b)) = Unit {0}
IsAnswer (some (Stratum.array v)) = All IsBoxedU64 v
IsAnswer (some Stratum.null) = ⊥
IsAnswer none = ⊥

module _ {RequestId Error : Type 0} where
  abbrev pub normal : StratumMessage RequestId Error → StratumMessage RequestId Error
  normal (response id params (some error)) = response id none (some error)
  normal (response id none none) = response id none none
  normal (response id (some params) none) = response id (some (normal_params params)) none
  normal message = message

  abbrev pub IsRegular : StratumMessage RequestId Error → Type 0
  IsRegular (set_target n) = n < u64_mod
  IsRegular (response id params none) = IsAnswer params
  IsRegular message = Unit {0}

module _ {RequestId Error : Type 0} (j : Json RequestId Error) where
  open j use {
    Number, Other, of_u64, as_u64, Chunk, request_to_vec, response_to_vec, from_utf8, Document,
    from_slice, is_object, contains_key, request_from_value, response_from_value, Buffer,
    Delimiters, delimit, next_chunk,
  }

  -- The result of a response, converted.
  abbrev pub converted :
      {A : Type 0}
      → (Value Number Other → Checked A)
      → Response RequestId Error (Value Number Other)
      → Checked (Response RequestId Error A)
  converted f r = elim r.payload [
    | result v ↦ f v >>= (λ a. ok (record { payload = result a; id = r.id }))
    | failure e ↦ ok (record { payload = failure e; id = r.id })
  ]

  abbrev pub IsNotNull : Response RequestId Error (Value Number Other) → Type 0
  IsNotNull r = elim r.payload [
    | result (scalar null) ↦ ⊥
    | result v ↦ Unit {0}
    | failure e ↦ Unit {0}
  ]

  -- What the codec relies on: requests, and responses whose result is not null, are read back from
  -- their texts; so is a `u64`; and texts that fit (no line feed, 4096 bytes at most) are read back from a
  -- buffer one by one.
  pub record IsFaithful : Type 1 where
    pub reads_request :
        (r : Request RequestId Number Other)
        → (c : Chunk) × (d : Document) × (request_to_vec r ≡ some c)
          × (from_utf8 c ≡ ok c)
          × (from_slice c ≡ ok d)
          × (is_object d ≡ true)
          × (contains_key d "method" ≡ true)
          × (request_from_value d ≡ ok r)
    pub reads_response :
        (r : Response RequestId Error (Value Number Other))
        → IsNotNull r
        → (c : Chunk) × (d : Document) × (response_to_vec r ≡ some c)
          × (from_utf8 c ≡ ok c)
          × (from_slice c ≡ ok d)
          × (is_object d ≡ true)
          × (contains_key d "method" ≡ false)
          × ((f : Value Number Other → Checked ResponseParams)
              → response_from_value f d ≡ converted f r)
    pub reads_u64 : (n : ℕ) → n < u64_mod → as_u64 (of_u64 n) ≡ some n
    pub Fits : Chunk → Type 0
    pub holding : List Chunk → Buffer
    pub fresh : Delimiters
    pub delimits :
        (cs : List Chunk) (c : Chunk)
        → Fits c
        → All Fits cs
        → delimit c (holding cs) ≡ ok (holding (cs ++ c ∷ []))
    pub next_of_none : next_chunk fresh (holding []) ≡ (ok none, fresh, holding [])
    pub next_of_some :
        (c : Chunk) (cs : List Chunk)
        → Fits c
        → All Fits cs
        → next_chunk fresh (holding (c ∷ cs)) ≡ (ok (some c), fresh, holding cs)
