-- ===== src/Speedometer/Cached.antt =====
-- When `speed` answers from its cache, and that it does not panic.
use aleo_pool_server.Prelude.{
  ℕ, ◌⊎◌, ◌-◌, ◌≡◌, refl, arith, ltb, if◌then◌else◌, Bool-cases, inl, inr, false, true, done, some,
}
use aleo_pool_server.Floats.{F64}
use aleo_pool_server.Speedometer.{Speedometer, event, measure, speed, has_fresh_cache, unwrap}

module _ (f : F64) where
  open f use {Float}

  -- The two values that a cached speed needs are there.
  abbrev pub IsUsable : Speedometer Float → Type 0
  IsUsable s =
      (s.cached ≡ false)
      ⊎ ((s.cached ≡ true)
          × (i : ℕ) × (t : ℕ) × (s.cache_interval ≡ some i)
          × (s.cache_instant ≡ some t))

  -- If a speedometer has no cache, or its cache has an interval and an instant, then `speed` does
  -- not panic, and this stays so.
  pub speed-IsUsable :
      (now : ℕ) (s : Speedometer Float)
      → IsUsable s
      → (x : Float) × (s' : Speedometer Float) × (speed f now s ≡ done (x, s')) × IsUsable s'
  unfolding speed has_fresh_cache unwrap measure
  speed-IsUsable now s (inl c) = ((measure f now s).0, (measure f now s).1, rw c, rw c (inl refl))
  speed-IsUsable now s (inr (c, i, t, ei, et)) = elim (Bool-cases (ltb (now - t) i)) [
    | inl fresh ↦ (s.cache_value, s, rw (c, et, ei, fresh), inr (c, i, t, ei, et))
    | inr old ↦ (
      (measure f now s).0,
      (measure f now s).1,
      rw (c, et, ei, old),
      rw c (inr (refl, i, now, ei, refl)),
    )
  ]

  -- With a cache of interval `i`, after a measurement at `now` the answer of `speed` at `later` is
  -- the measured speed, with no change to the speedometer, until `i` has passed; from then on it
  -- is what is measured again.
  speed-measure :
      (now later i : ℕ) (s : Speedometer Float)
      → s.cached ≡ true
      → s.cache_interval ≡ some i
      → let (x, s') = measure f now s in
        speed f later s' ≡ done (if ltb (later - now) i then (x, s') else measure f later s')
  unfolding speed has_fresh_cache unwrap measure
  speed-measure now later i s c ei = ground arith

  -- With no cache an event is followed by a measurement, which it leaves, and the speedometer still has none.
  pub speed-event :
      (now : ℕ) (s : Speedometer Float) (value : ℕ)
      → s.cached ≡ false
      → (x : Float) × (s' : Speedometer Float) × (speed f now (event now s value) ≡ done (x, s'))
        × (s'.cached ≡ false)
        × (s' ≡ (measure f now (event now s value)).1)
  unfolding speed event has_fresh_cache measure
  speed-event now s value c = (
    (measure f now (event now s value)).0,
    (measure f now (event now s value)).1,
    rw c refl,
    rw c refl,
    refl,
  )
