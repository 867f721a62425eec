-- ===== src/Cache/Reads.antt =====
-- What can be read from the cache after any sequence of writes.
use aleo_pool_server.Prelude.{
  ℕ, ◌-◌, ◌≡◌, refl, ite, List, [], ◌∷◌, Option, none, some, arith, ltb, if◌then◌else◌,
}
use aleo_pool_server.Map
use aleo_pool_server.Map.Laws.{get-insert}
use aleo_pool_server.Cache.{Cache, new, get, set}

-- A write to the cache: its time, key and value.
pub record Write (K V : Type 0) : Type 0 where
  pub time : ℕ
  pub key : K
  pub value : V

module _ {K V : Type 0} (dec : Discrete K) where
  -- A write is read back until its age exceeds the duration, and the reads of every other key are
  -- what they were.
  pub get-set :
      (later now : ℕ) (c : Cache K V) (k j : K) (v : V)
      → get dec later (set dec now c k v) j
        ≡ ite (dec k j) (if ltb c.duration (later - now) then none else some v) (get dec later c j)
  unfolding get set
  get-set later now c k j v =
      ground (arith, get-insert dec k j now c.instants, get-insert dec k j v c.values)

  -- The cache after the writes of a history, newest first.
  unfoldable pub replay : ℕ → List (Write K V) → Cache K V
  replay duration [] = new duration
  replay duration (w ∷ ws) = set dec w.time (replay duration ws) w.key w.value

  -- The newest write to a key.
  unfoldable pub newest : K → List (Write K V) → Option (Write K V)
  newest k [] = none
  newest k (w ∷ ws) = ite (dec w.key k) (some w) (newest k ws)

  duration-replay : (d : ℕ) (ws : List (Write K V)) → (replay d ws).duration ≡ d
  unfolding replay new set
  duration-replay d [] = refl
  duration-replay d (w ∷ ws) = duration-replay d ws

  -- After any history of writes a read returns the value of the newest write to its key, if that
  -- write is no older than the duration, and nothing otherwise.
  pub get-replay :
      (now d : ℕ) (k : K) (ws : List (Write K V))
      → get dec now (replay d ws) k ≡ elim (newest k ws) [
        | none ↦ none
        | some w ↦ if ltb d (now - w.time) then none else some w.value
      ]
  unfolding replay newest
  get-replay now d k [] = unfold get new Map.get in refl
  get-replay now d k (w ∷ ws) = ground (
    arith,
    get-set now w.time (replay d ws) w.key k w.value,
    duration-replay d ws,
    get-replay now d k ws,
  )
