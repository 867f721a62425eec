-- ===== src/Server/Metering.antt =====
-- What an added share does to a prover's state and to the pool's.
use aleo_pool_server.Prelude.{
  ℕ, ◌-◌, ◌≤◌, ◌≡◌, refl, sym, ap, ◌∙◌, subst, false, List, [], ◌∷◌, ◌++◌, All, Bool-cases, inl,
  inr, ltb, done, arith,
}
use aleo_pool_server.Floats.{F64}
use aleo_pool_server.Speedometer.{Speedometer, Event, trim, event, measure}
use aleo_pool_server.Speedometer.Cached.{speed-event}
use aleo_pool_server.World.{World}
use aleo_pool_server.Server.Prover
use aleo_pool_server.Server.Prover.{ProverState}
use aleo_pool_server.Server.Pool
use aleo_pool_server.Server.Pool.{PoolState}

-- The newest event of a speedometer is one of a value at a time.
abbrev pub IsNewest : {Float : Type 0} → ℕ → ℕ → Speedometer Float → Type 0
IsNewest now value s = (older : List Event) × (s.storage ≡ older ++ (now, value) ∷ [])

trim-newest :
    (now interval value : ℕ) (storage : List Event)
    → (older : List Event) × (trim now interval (storage ++ (now, value) ∷ [])
        ≡ older ++ (now, value) ∷ [])
unfolding trim
trim-newest now interval value [] = ([], ground arith)
trim-newest now interval value (t ∷ storage) = elim (Bool-cases (ltb interval (now - t.0))) [
  | inl old ↦ let (older, e) = trim-newest now interval value storage in (older, rw (old, trim) e)
  | inr recent ↦ (t ∷ storage, rw (recent, trim) refl)
]

event-IsNewest :
    {Float : Type 0} (now value : ℕ) (s : Speedometer Float)
    → IsNewest now value (event now s value)
unfolding event
event-IsNewest now value s = trim-newest now s.interval value s.storage

measure-IsNewest :
    (f : F64) (now value : ℕ) (s : Speedometer f.Float)
    → IsNewest now value s
    → IsNewest now value (measure f now s).1
unfolding measure
measure-IsNewest f now value s (older, e) =
    let (older', e') = trim-newest now s.interval value older in
    elim (Bool-cases s.cached) [
      | inl c ↦ (older', rw c (ap (trim now s.interval) e ∙ e'))
      | inr c ↦ (older', rw c (ap (trim now s.interval) e ∙ e'))
    ]

module _ (w : World) where
  -- The speedometers whose speeds are read when a share is added have no cache, as `new` makes them.
  pub record IsMetered (state : ProverState w) (pool : PoolState w) : Type 0 where
    pub prover_uncached : state.speed_2m.cached ≡ false
    pub pool_uncached : pool.speed_1m.cached ≡ false

  -- A share at a time is the newest event of every speedometer: of the first of the pool as one share, of all
  -- others with its value.
  abbrev pub HasShare : ℕ → ℕ → ProverState w → Type 0
  HasShare now value p =
      All (IsNewest now value)
        (p.speed_2m ∷ p.speed_5m ∷ p.speed_15m ∷ p.speed_30m ∷ p.speed_1h ∷ [])

  abbrev pub PoolHasShare : ℕ → ℕ → PoolState w → Type 0
  PoolHasShare now value p =
      IsNewest now 1 p.speed_1m
      × All (IsNewest now value) (p.speed_5m ∷ p.speed_15m ∷ p.speed_30m ∷ p.speed_1h ∷ [])

  pub add_share_prover :
      (now : ℕ) (p : ProverState w) (value : ℕ)
      → p.speed_2m.cached ≡ false
      → (p' : ProverState w) × (Prover.add_share w now p value ≡ done p')
        × (p'.address ≡ p.address)
        × (p'.current_target ≡ p.current_target)
        × (1 ≤ p'.next_target)
        × (p'.speed_2m.cached ≡ false)
        × HasShare now value p'
  unfolding Prover.add_share Prover.with_share
  add_share_prover now p value c =
      let (x, m, e, c', same) = speed-event w.f64 now p.speed_2m value c in
      let measured = measure-IsNewest w.f64 now value _ (event-IsNewest now value p.speed_2m) in
      (
        Prover.with_share w now p value x m,
        rw e refl,
        refl,
        refl,
        omega arith,
        c',
        (
          subst (IsNewest now value) (sym same) measured,
          (
            event-IsNewest now value p.speed_5m,
            (
              event-IsNewest now value p.speed_15m,
              (event-IsNewest now value p.speed_30m, (event-IsNewest now value p.speed_1h, tt)),
            ),
          ),
        ),
      )

  pub add_share_pool :
      (now : ℕ) (p : PoolState w) (value : ℕ)
      → p.speed_1m.cached ≡ false
      → (p' : PoolState w) × (Pool.add_share w now p value ≡ done p')
        × (p'.current_global_target_modifier ≡ p.current_global_target_modifier)
        × (p'.speed_1m.cached ≡ false)
        × PoolHasShare now value p'
  unfolding Pool.add_share Pool.with_share
  add_share_pool now p value c =
      let (x, m, e, c', same) = speed-event w.f64 now p.speed_1m 1 c in
      let measured = measure-IsNewest w.f64 now 1 _ (event-IsNewest now 1 p.speed_1m) in
      (
        Pool.with_share w now p value x m,
        rw e refl,
        refl,
        c',
        (
          subst (IsNewest now 1) (sym same) measured,
          (
            event-IsNewest now value p.speed_5m,
            (
              event-IsNewest now value p.speed_15m,
              (event-IsNewest now value p.speed_30m, (event-IsNewest now value p.speed_1h, tt)),
            ),
          ),
        ),
      )
