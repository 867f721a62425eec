-- ===== src/Api.antt =====
-- The handlers of the HTTP API in src/api.rs: what they answer, with the state that they leave. warp finds
-- the handler of a path.
use Prim.Native.String.{String}
use aleo_pool_server.Prelude.{
  ℕ, Bool, true, false, List, [], ◌∷◌, Option, none, some, Outcome, done, panic, ◌>>=◌, ◌≡◌, refl,
  ap,
}
use aleo_pool_server.Map.{Map}
use aleo_pool_server.Accounting
use aleo_pool_server.Accounting.{Accounting, RoundReport}
use aleo_pool_server.World.{World}
use aleo_pool_server.Wire.{Wire}
use aleo_pool_server.Server.{Server}
use aleo_pool_server.Server.Dispatch.{
  online_addresses, online_provers, pool_speed, address_speed, address_prover_count,
}

pub data StatusCode : Type 0 where
  ok bad_request method_not_allowed : StatusCode

-- The values of the objects that are answered.
pub data Value (Owner Float : Type 0) : Type 0 where
  number : ℕ → Value Owner Float
  floats : List Float → Value Owner Float
  text : String → Value Owner Float
  counts : Map Owner ℕ → Value Owner Float

pub data Body (Owner Float : Type 0) : Type 0 where
  message : String → Body Owner Float
  object : List (String × Value Owner Float) → Body Owner Float

module _ {Owner Float : Type 0} where
  -- The value of `Accounting::current_round`.
  unfoldable pub round_value : RoundReport Owner → Body Owner Float
  round_value r = object (
      ("n", number r.n)
      ∷ ("current_n", number r.current_n)
      ∷ ("provers", number r.provers)
      ∷ ("shares", counts r.shares)
      ∷ [])

  unfoldable pub current_round :
      {Commitment : Type 0}
      → Discrete Owner
      → ℕ
      → Accounting Commitment Owner
      → Body Owner Float × Accounting Commitment Owner
  current_round dec now s =
      let (data_, s') = Accounting.current_round dec now s in
      (
        object (
            ("n", number data_.n)
            ∷ ("current_n", number data_.current_n)
            ∷ ("provers", number data_.provers)
            ∷ []),
        s',
      )

  -- `addr` is the address of the client, if it is known, as `is_loopback` finds it.
  unfoldable pub admin_current_round :
      {Commitment : Type 0}
      → Discrete Owner
      → ℕ
      → Option Bool
      → Accounting Commitment Owner
      → Outcome (StatusCode × Body Owner Float × Accounting Commitment Owner)
  admin_current_round dec now none s = panic
  admin_current_round dec now (some false) s =
      done (method_not_allowed, message "Method Not Allowed", s)
  admin_current_round dec now (some true) s =
      let (pplns, s') = Accounting.current_round dec now s in done (ok, round_value pplns, s')

module _ (w : World) (wire : Wire w) where
  open w use {f64}

  unfoldable pub pool_stats : ℕ → Server w → Outcome (Body String f64.Float × Server w)
  pool_stats now s = do
    (speed, s') ← pool_speed w now s
    done (
      object (
          ("online_addresses", number (online_addresses w s))
          ∷ ("online_provers", number (online_provers w s))
          ∷ ("speed", floats speed)
          ∷ []),
      s',
    )

  unfoldable pub address_stats :
      ℕ → Server w → String → Outcome (StatusCode × Body String f64.Float × Server w)
  address_stats now s address = elim (wire.address_from_str address) [
    | none ↦ done (bad_request, object (("error", text "invalid address") ∷ []), s)
    | some address ↦ do
      (speed, s') ← address_speed w now s address
      done (
        ok,
        object (
            ("online_provers", number (address_prover_count w s' address))
            ∷ ("speed", floats speed)
            ∷ []),
        s',
      )
  ]

-- Whether an answer tells the shares of the provers.
abbrev pub tells_shares : {Owner Float : Type 0} → List (String × Value Owner Float) → Bool
tells_shares [] = false
tells_shares ((key, counts shares) ∷ entries) = true
tells_shares ((key, number n) ∷ entries) = tells_shares entries
tells_shares ((key, floats fs) ∷ entries) = tells_shares entries
tells_shares ((key, text s) ∷ entries) = tells_shares entries

abbrev pub tells : {Owner Float : Type 0} → Body Owner Float → Bool
tells (message s) = false
tells (object entries) = tells_shares entries

-- The shares of the provers are told only to a client on the same host: no answer of `current_round` tells
-- them, and one of `admin_current_round` only if the client's address is a loopback.
pub current_round_private :
    {Commitment Owner Float : Type 0} (dec : Discrete Owner) (now : ℕ) (client : Bool)
    (s s' : Accounting Commitment Owner) (code : StatusCode) (body : Body Owner Float)
    → admin_current_round dec now (some client) s ≡ done (code, body, s')
    → (tells (current_round {Float = Float} dec now s).0 ≡ false) × (tells body ≡ client)
unfolding current_round admin_current_round round_value
current_round_private dec now true s s' code body h =
    let same : body ≡ round_value (Accounting.current_round dec now s).0 = cc h in
    (refl, ap tells same)
current_round_private dec now false s s' code body h =
    let same : body ≡ message "Method Not Allowed" = cc h in (refl, ap tells same)
