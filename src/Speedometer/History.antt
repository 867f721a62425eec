-- ===== src/Speedometer/History.antt =====
-- What a speedometer measures after a history of its calls.
use aleo_pool_server.Prelude.{
  ℕ, ◌≤◌, ◌<◌, ◌≡◌, refl, sym, ap, ◌∙◌, subst, List, [], ◌∷◌, ◌++◌, Option, none, some, arith,
  sum_by, sum_by-append, u64_mod,
}
use mathlib.Core.List.{append-nil, append_assoc}
use aleo_pool_server.Floats.{F64}
use aleo_pool_server.Speedometer.{Speedometer, Event, event, measure}
use aleo_pool_server.Speedometer.Window.{recent, Tracks, event-Tracks, measure_lem}

-- A call at a time: an event with its value, or a measurement.
abbrev pub Call : Type 0
Call = ℕ × Option ℕ

-- The events among the calls.
abbrev pub counted : List Call → List Event
counted [] = []
counted ((t, none) ∷ cs) = counted cs
counted ((t, some v) ∷ cs) = (t, v) ∷ counted cs

-- The times of the calls do not fall, from a bound on, and reach no further than another.
abbrev pub IsTimed : ℕ → List Call → ℕ → Type 0
IsTimed lo [] hi = lo ≤ hi
IsTimed lo (c ∷ cs) hi = (lo ≤ c.0) × IsTimed c.0 cs hi

module _ (f : F64) where
  open f use {Float, of_u64, as_secs, div}

  -- The speedometer after the calls.
  abbrev pub calls : Speedometer Float → List Call → Speedometer Float
  calls s [] = s
  calls s ((t, none) ∷ cs) = calls (measure f t s).1 cs
  calls s ((t, some v) ∷ cs) = calls (event t s v) cs

  interval-measure : (now : ℕ) (s : Speedometer Float) → (measure f now s).1.interval ≡ s.interval
  unfolding measure
  interval-measure now s = ground arith

  interval-calls : (cs : List Call) (s : Speedometer Float) → (calls s cs).interval ≡ s.interval
  unfolding event
  interval-calls [] s = refl
  interval-calls ((t, none) ∷ cs) s = interval-calls cs (measure f t s).1 ∙ interval-measure t s
  interval-calls ((t, some v) ∷ cs) s = interval-calls cs (event t s v)

  calls-Tracks :
      (cs : List Call) (all : List Event) (now hi : ℕ) (s : Speedometer Float)
      → Tracks all now s
      → IsTimed now cs hi
      → sum_by (λ t. t.1) (all ++ counted cs) < u64_mod
      → (last : ℕ) × (last ≤ hi) × Tracks (all ++ counted cs) last (calls s cs)
  calls-Tracks [] all now hi s t o small =
      (now, o, subst (λ l. Tracks l now s) (sym (append-nil all)) t)
  calls-Tracks ((at, none) ∷ cs) all now hi s t o small =
      let below : sum_by (λ t. t.1) all < u64_mod =
        omega (arith, small, sum_by-append {0} (λ t. t.1) all (counted cs)) in
      calls-Tracks cs all at hi (measure f at s).1 (measure_lem f all now at s t o.0 below).1 o.1
        small
  calls-Tracks ((at, some v) ∷ cs) all now hi s t o small =
      let same = append_assoc all ((at, v) ∷ []) (counted cs) in
      let (last, within, tracked) =
        calls-Tracks cs (all ++ (at, v) ∷ []) at hi (event at s v)
          (event-Tracks all now s at v t o.0) o.1
          (subst (λ l. sum_by (λ t. t.1) l < u64_mod) (sym same) small) in
      (last, within, subst (λ l. Tracks l last (calls (event at s v) cs)) same tracked)

  -- After any history of events and measurements, in the order of their times, from a speedometer that is
  -- empty, if the sum of the values of all events is below 2^64: what is measured at a later time is the
  -- sum of the values of the events of the last interval, out of all of them, over its length.
  pub measure-calls :
      (cs : List Call) (now : ℕ) (s : Speedometer Float)
      → s.storage ≡ []
      → IsTimed 0 cs now
      → sum_by (λ t. t.1) (counted cs) < u64_mod
      → (measure f now (calls s cs)).0
        ≡ div (of_u64 (sum_by (λ t. t.1) (recent now s.interval (counted cs)))) (as_secs s.interval)
  measure-calls cs now s empty o small =
      let start : Tracks [] 0 s = record { held = empty; ordered = omega arith } in
      let (last, within, tracked) = calls-Tracks cs [] 0 now s start o small in
      let measured = (measure_lem f (counted cs) last now (calls s cs) tracked within small).0 in
      rw measured (
        ap (λ i. div (of_u64 (sum_by (λ t. t.1) (recent now i (counted cs)))) (as_secs i))
          (interval-calls cs s))
