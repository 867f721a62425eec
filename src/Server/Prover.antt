-- ===== src/Server/Prover.antt =====
-- `ProverState` of src/server.rs: a prover's speedometers and its share target.
use aleo_pool_server.Prelude.{
  ℕ, ◌*◌, ◌^◌, List, [], ◌∷◌, ◌||◌, ltb, if◌then◌else◌, max, Outcome, done, ◌>>=◌,
}
use aleo_pool_server.Speedometer
use aleo_pool_server.Speedometer.{Speedometer}
use aleo_pool_server.World.{World}

pub record ProverState (w : World) : Type 0 where
  pub peer_addr : w.Peer
  pub address : w.Address
  pub speed_2m : Speedometer w.f64.Float
  pub speed_5m : Speedometer w.f64.Float
  pub speed_15m : Speedometer w.f64.Float
  pub speed_30m : Speedometer w.f64.Float
  pub speed_1h : Speedometer w.f64.Float
  pub current_target : ℕ
  pub next_target : ℕ

-- `Duration::from_secs`, in nanoseconds.
abbrev pub from_secs : ℕ → ℕ
from_secs secs = secs * 10 ^ 9

module _ (w : World) where
  open w use {Peer, Address, f64}

  unfoldable pub new : ℕ → Peer → Address → ProverState w
  new now peer_addr address = record {
    peer_addr = peer_addr;
    address = address;
    speed_2m = Speedometer.init f64 (from_secs 120);
    speed_5m = Speedometer.init_with_cache f64 now (from_secs (60 * 5)) (from_secs 30);
    speed_15m = Speedometer.init_with_cache f64 now (from_secs (60 * 15)) (from_secs 30);
    speed_30m = Speedometer.init_with_cache f64 now (from_secs (60 * 30)) (from_secs 30);
    speed_1h = Speedometer.init_with_cache f64 now (from_secs (60 * 60)) (from_secs 30);
    current_target = 512;
    next_target = 512;
  }

  -- A share of a value is counted by every speedometer, and the next target is twenty times the speed
  -- of the last two minutes, at least 1.
  unfoldable pub with_share :
      ℕ → ProverState w → ℕ → f64.Float → Speedometer f64.Float → ProverState w
  with_share now p value speed speed_2m = record p {
    speed_2m = speed_2m;
    speed_5m = Speedometer.event now p.speed_5m value;
    speed_15m = Speedometer.event now p.speed_15m value;
    speed_30m = Speedometer.event now p.speed_30m value;
    speed_1h = Speedometer.event now p.speed_1h value;
    next_target = max (f64.to_u64 (f64.mul speed (f64.literal 200 1))) 1;
  }

  unfoldable pub add_share : ℕ → ProverState w → ℕ → Outcome (ProverState w)
  add_share now p value = do
    (speed, speed_2m) ← Speedometer.speed f64 now (Speedometer.event now p.speed_2m value)
    done (with_share now p value speed speed_2m)

  -- The target moves only if it would change by more than a tenth.
  unfoldable pub next_target : ProverState w → ℕ × ProverState w
  next_target p =
      let current = f64.of_u64 p.current_target in
      let target =
        if ltb p.next_target (f64.to_u64 (f64.mul current (f64.literal 9 1)))
          || ltb (f64.to_u64 (f64.mul current (f64.literal 11 1))) p.next_target
        then p.next_target
        else p.current_target in
      (target, record p { current_target = target })

  unfoldable pub speed : ℕ → ProverState w → Outcome (List f64.Float × ProverState w)
  speed now p = do
    (s5, speed_5m) ← Speedometer.speed f64 now p.speed_5m
    (s15, speed_15m) ← Speedometer.speed f64 now p.speed_15m
    (s30, speed_30m) ← Speedometer.speed f64 now p.speed_30m
    (s60, speed_1h) ← Speedometer.speed f64 now p.speed_1h
    done (
      s5 ∷ s15 ∷ s30 ∷ s60 ∷ [],
      record p {
        speed_5m = speed_5m;
        speed_15m = speed_15m;
        speed_30m = speed_30m;
        speed_1h = speed_1h;
      },
    )
