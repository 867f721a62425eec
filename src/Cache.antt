-- ===== src/Cache.antt =====
-- The expiring cache of cache/src/lib.rs. An `Instant` is a number of nanoseconds; the time of a
-- call is an argument, and `Instant::elapsed` is a difference that stops at 0.
pub mod Reads
use aleo_pool_server.Prelude.{ℕ, ◌-◌, [], Option, none, some, ltb, if◌then◌else◌}
use aleo_pool_server.Map
use aleo_pool_server.Map.{Map}

pub record Cache (K V : Type 0) : Type 0 where
  pub duration : ℕ
  pub instants : Map K ℕ
  pub values : Map K V

unfoldable pub new : {K V : Type 0} → ℕ → Cache K V
new duration = record { duration = duration; instants = []; values = [] }

module _ {K V : Type 0} (dec : Discrete K) where
  unfoldable pub get : ℕ → Cache K V → K → Option V
  get now c key = elim (Map.get dec key c.instants) [
    | none ↦ none
    | some instant ↦ if ltb c.duration (now - instant) then none else Map.get dec key c.values
  ]

  unfoldable pub set : ℕ → Cache K V → K → V → Cache K V
  set now c key value = record c {
    values = Map.insert dec key value c.values;
    instants = Map.insert dec key now c.instants;
  }
