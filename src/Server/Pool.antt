-- ===== src/Server/Pool.antt =====
-- `PoolState` of src/server.rs: the speedometers of the pool and the modifier of all targets.
use aleo_pool_server.Prelude.{ℕ, ◌*◌, List, [], ◌∷◌, Outcome, done, ◌>>=◌}
use aleo_pool_server.Speedometer
use aleo_pool_server.Speedometer.{Speedometer}
use aleo_pool_server.World.{World}
use aleo_pool_server.Server.Prover.{from_secs}

pub record PoolState (w : World) : Type 0 where
  pub speed_1m : Speedometer w.f64.Float
  pub speed_5m : Speedometer w.f64.Float
  pub speed_15m : Speedometer w.f64.Float
  pub speed_30m : Speedometer w.f64.Float
  pub speed_1h : Speedometer w.f64.Float
  pub current_global_target_modifier : w.f64.Float
  pub next_global_target_modifier : w.f64.Float

module _ (w : World) where
  open w use {f64}

  unfoldable pub new : ℕ → PoolState w
  new now = record {
    speed_1m = Speedometer.init f64 (from_secs 60);
    speed_5m = Speedometer.init_with_cache f64 now (from_secs (60 * 5)) (from_secs 30);
    speed_15m = Speedometer.init_with_cache f64 now (from_secs (60 * 15)) (from_secs 30);
    speed_30m = Speedometer.init_with_cache f64 now (from_secs (60 * 30)) (from_secs 30);
    speed_1h = Speedometer.init_with_cache f64 now (from_secs (60 * 60)) (from_secs 30);
    current_global_target_modifier = f64.literal 10 1;
    next_global_target_modifier = f64.literal 10 1;
  }

  -- The first speedometer counts the shares, the others their values.
  unfoldable pub with_share : ℕ → PoolState w → ℕ → f64.Float → Speedometer f64.Float → PoolState w
  with_share now p value speed speed_1m = record p {
    speed_1m = speed_1m;
    speed_5m = Speedometer.event now p.speed_5m value;
    speed_15m = Speedometer.event now p.speed_15m value;
    speed_30m = Speedometer.event now p.speed_30m value;
    speed_1h = Speedometer.event now p.speed_1h value;
    next_global_target_modifier =
        f64.maximum (f64.div speed (f64.literal 2000 1)) (f64.literal 10 1);
  }

  unfoldable pub add_share : ℕ → PoolState w → ℕ → Outcome (PoolState w)
  add_share now p value = do
    (speed, speed_1m) ← Speedometer.speed f64 now (Speedometer.event now p.speed_1m 1)
    done (with_share now p value speed speed_1m)

  unfoldable pub next_global_target_modifier : PoolState w → f64.Float × PoolState w
  next_global_target_modifier p = (
    p.next_global_target_modifier,
    record p { current_global_target_modifier = p.next_global_target_modifier },
  )

  unfoldable pub speed : ℕ → PoolState w → Outcome (List f64.Float × PoolState w)
  speed now p = do
    (s5, speed_5m) ← Speedometer.speed f64 now p.speed_5m
    (s15, speed_15m) ← Speedometer.speed f64 now p.speed_15m
    (s30, speed_30m) ← Speedometer.speed f64 now p.speed_30m
    (s60, speed_1h) ← Speedometer.speed f64 now p.speed_1h
    done (
      s5 ∷ s15 ∷ s30 ∷ s60 ∷ [],
      record p {
        speed_5m = speed_5m;
        speed_15m = speed_15m;
        speed_30m = speed_30m;
        speed_1h = speed_1h;
      },
    )
