-- ===== src/Stratum.antt =====
-- The messages of the stratum protocol: stratum/src/message.rs, and `ResponseParams` of
-- stratum/src/codec.rs. The request ids and the errors of JSON-RPC are those of a crate, and are
-- parameters.
use Prim.Native.String.{String}
use aleo_pool_server.Prelude.{ℕ, Bool, List, Option}

-- What implements `BoxedType`.
pub data BoxedType : Type 0 where
  string : String → BoxedType
  option_u64 : Option ℕ → BoxedType
  option_string : Option String → BoxedType

pub data ResponseParams : Type 0 where
  bool : Bool → ResponseParams
  array : List BoxedType → ResponseParams
  null : ResponseParams

pub data StratumMessage (RequestId Error : Type 0) : Type 0 where
  subscribe : RequestId → String → String → Option String → StratumMessage RequestId Error
  authorize : RequestId → String → String → StratumMessage RequestId Error
  set_target : ℕ → StratumMessage RequestId Error
  notify : String → String → Option String → Bool → StratumMessage RequestId Error
  submit : RequestId → String → String → String → String → String → StratumMessage RequestId Error
  response : RequestId → Option ResponseParams → Option Error → StratumMessage RequestId Error

unfoldable pub name : {RequestId Error : Type 0} → StratumMessage RequestId Error → String
name (subscribe _ _ _ _) = "mining.subscribe"
name (authorize _ _ _) = "mining.authorize"
name (set_target _) = "mining.set_target"
name (notify _ _ _ _) = "mining.notify"
name (submit _ _ _ _ _ _) = "mining.submit"
name (response _ _ _) = "mining.response"
