-- ===== src/Speedometer.antt =====
-- The sliding-window speedometer of speedometer/src/lib.rs. The time of a call is an argument, in
-- nanoseconds; an `Instant` is a number that `Instant::now() - cache_interval` does not make negative.
pub mod Window
pub mod History
pub mod Cached
use aleo_pool_server.Prelude.{
  ℕ, ◌-◌, Bool, true, false, ◌&&◌, List, [], ◌∷◌, ◌++◌, Option, none, some, ltb, if◌then◌else◌,
  add64, Outcome, done, panic, ◌>>=◌,
}
use aleo_pool_server.Floats.{F64}

-- An event: when it was, and its value.
abbrev pub Event : Type 0
Event = ℕ × ℕ

pub record Speedometer (Float : Type 0) : Type 0 where
  pub storage : List Event
  pub interval : ℕ
  pub cached : Bool
  pub cache_interval : Option ℕ
  pub cache_instant : Option ℕ
  pub cache_value : Float

-- The loop of `event` and `speed` that drops the events older than the interval.
unfoldable pub trim : ℕ → ℕ → List Event → List Event
trim now interval [] = []
trim now interval (t ∷ storage) =
    let rest = trim now interval storage in if ltb interval (now - t.0) then rest else t ∷ storage

-- `fold(0, |acc, t| acc + t.1)`
unfoldable pub sum_events : ℕ → List Event → ℕ
sum_events acc [] = acc
sum_events acc (t ∷ storage) = sum_events (add64 acc t.1) storage

unfoldable pub unwrap : {A : Type 0} → Option A → Outcome A
unwrap none = panic
unwrap (some a) = done a

unfoldable pub event : {Float : Type 0} → ℕ → Speedometer Float → ℕ → Speedometer Float
event now s value = record s { storage = trim now s.interval (s.storage ++ (now, value) ∷ []) }

unfoldable pub reset : {Float : Type 0} → Speedometer Float → Speedometer Float
reset s = record s { storage = [] }

module _ (f : F64) where
  open f use {Float, literal, of_u64, as_secs, div}

  unfoldable pub init : ℕ → Speedometer Float
  init interval = record {
    storage = [];
    interval = interval;
    cached = false;
    cache_interval = none;
    cache_instant = none;
    cache_value = literal 0 1;
  }

  unfoldable pub init_with_cache : ℕ → ℕ → ℕ → Speedometer Float
  init_with_cache now interval cache_interval = record {
    storage = [];
    interval = interval;
    cached = true;
    cache_interval = some cache_interval;
    cache_instant = some (now - cache_interval);
    cache_value = literal 0 1;
  }

  -- The test `self.cached && self.cache_instant.unwrap().elapsed() < self.cache_interval.unwrap()`.
  unfoldable pub has_fresh_cache : ℕ → Speedometer Float → Outcome Bool
  has_fresh_cache now s = elim s.cached [
    | false ↦ done false
    | true ↦ do
      instant ← unwrap s.cache_instant
      interval ← unwrap s.cache_interval
      done (ltb (now - instant) interval)
  ]

  -- What `speed` does when the cached value does not serve.
  unfoldable pub measure : ℕ → Speedometer Float → Float × Speedometer Float
  measure now s =
      let storage = trim now s.interval s.storage in
      let speed = div (of_u64 (sum_events 0 storage)) (as_secs s.interval) in
      (
        speed,
        if s.cached
            then record s { storage = storage; cache_instant = some now; cache_value = speed }
            else record s { storage = storage },
      )

  unfoldable pub speed : ℕ → Speedometer Float → Outcome (Float × Speedometer Float)
  speed now s = do
    fresh ← has_fresh_cache now s
    done (if fresh then (s.cache_value, s) else measure now s)
