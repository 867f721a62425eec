-- ===== src/Tests/Speeds.antt =====
-- Speedometers with millionths for numbers.
use aleo_pool_server.Prelude.{ℕ, ◌≡◌, refl, List, [], ◌∷◌, none, some, arith, true, sum_by}
use aleo_pool_server.Floats.{millionths}
use aleo_pool_server.Speedometer.{Speedometer, event, measure, trim, sum_events}
use aleo_pool_server.Speedometer.Window.{recent}
use aleo_pool_server.Speedometer.History.{Call, calls, counted, measure-calls}

abbrev meter : Speedometer ℕ
meter = record {
  storage = [];
  interval = 100;
  cached = true;
  cache_interval = some 30;
  cache_instant = some 0;
  cache_value = 0;
}

abbrev history : List Call
history = (1, some 9) ∷ (10, some 5) ∷ (40, none) ∷ (60, some 7) ∷ []

-- the first event is too old at 105
history_run :
    (measure millionths 105 (calls millionths meter history)).1.storage ≡ (10, 5) ∷ (60, 7) ∷ []
unfolding measure event trim sum_events
history_run = refl

measure-calls_example :
    (measure millionths 105 (calls millionths meter history)).0
    ≡ millionths.div
        (millionths.of_u64 (sum_by (λ t. t.1) (recent 105 100 (counted history))))
        (millionths.as_secs 100)
measure-calls_example =
    measure-calls millionths history 105 meter refl
      (omega arith, (omega arith, (omega arith, (omega arith, omega arith)))) (omega arith)
