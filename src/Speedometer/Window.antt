-- ===== src/Speedometer/Window.antt =====
-- The events of the window, and the speed, against all the events that there ever were.
use aleo_pool_server.Prelude.{
  ℕ, ◌+◌, ◌-◌, ◌≤◌, ◌<◌, ◌≡◌, ◌∙◌, refl, sym, ap, List, [], ◌∷◌, ◌++◌, arith, ltb, if◌then◌else◌,
  Bool-cases, inl, inr, sum_by, add64_exact, u64_mod,
}
use native.Mathlib.Nat.{zero-add}
use aleo_pool_server.Floats.{F64}
use aleo_pool_server.Speedometer.{Speedometer, Event, trim, event, sum_events, measure}

-- The times of the events do not fall along the list, from a bound on, and reach no further than another.
abbrev pub IsOrdered : ℕ → List Event → ℕ → Type 0
IsOrdered lo [] hi = lo ≤ hi
IsOrdered lo (t ∷ ts) hi = (lo ≤ t.0) × IsOrdered t.0 ts hi

-- The events that are no older than the interval.
abbrev pub recent : ℕ → ℕ → List Event → List Event
recent now interval [] = []
recent now interval (t ∷ ts) =
    if ltb interval (now - t.0) then recent now interval ts else t ∷ recent now interval ts

recent_all :
    (now interval lo : ℕ) (ts : List Event) (hi : ℕ)
    → now - lo ≤ interval
    → IsOrdered lo ts hi
    → recent now interval ts ≡ ts
recent_all now interval lo [] hi h o = refl
recent_all now interval lo (t ∷ ts) hi h o = ground (arith, recent_all now interval t.0 ts hi)

trim-recent :
    (now interval lo : ℕ) (ts : List Event) (hi : ℕ)
    → IsOrdered lo ts hi
    → trim now interval ts ≡ recent now interval ts
unfolding trim
trim-recent now interval lo [] hi o = refl
trim-recent now interval lo (t ∷ ts) hi o =
    ground (arith, trim-recent now interval t.0 ts hi, recent_all now interval t.0 ts hi)

recent-recent :
    (now later interval : ℕ) (ts : List Event)
    → now ≤ later
    → recent later interval (recent now interval ts) ≡ recent later interval ts
recent-recent now later interval [] h = refl
recent-recent now later interval (t ∷ ts) h = ground (arith, recent-recent now later interval ts)

recent-append :
    (now interval : ℕ) (xs ys : List Event)
    → recent now interval (xs ++ ys) ≡ recent now interval xs ++ recent now interval ys
recent-append now interval [] ys = refl
recent-append now interval (t ∷ xs) ys = ground (arith, recent-append now interval xs ys)

IsOrdered-le : (lo : ℕ) (ts : List Event) (hi : ℕ) → IsOrdered lo ts hi → lo ≤ hi
IsOrdered-le lo [] hi o = o
IsOrdered-le lo (t ∷ ts) hi o = omega (arith, IsOrdered-le t.0 ts hi o.1)

IsOrdered-below :
    (lo lo' : ℕ) (ts : List Event) (hi : ℕ) → lo' ≤ lo → IsOrdered lo ts hi → IsOrdered lo' ts hi
IsOrdered-below lo lo' [] hi h o = omega arith
IsOrdered-below lo lo' (t ∷ ts) hi h o = (omega arith, o.1)

IsOrdered-push :
    (lo : ℕ) (ts : List Event) (hi later v : ℕ)
    → IsOrdered lo ts hi
    → hi ≤ later
    → IsOrdered lo (ts ++ (later, v) ∷ []) later
IsOrdered-push lo [] hi later v o h = (omega arith, omega arith)
IsOrdered-push lo (t ∷ ts) hi later v o h = (o.0, IsOrdered-push t.0 ts hi later v o.1 h)

IsOrdered-recent :
    (now interval lo : ℕ) (ts : List Event) (hi : ℕ)
    → IsOrdered lo ts hi
    → IsOrdered lo (recent now interval ts) hi
IsOrdered-recent now interval lo [] hi o = o
IsOrdered-recent now interval lo (t ∷ ts) hi o = elim (Bool-cases (ltb interval (now - t.0))) [
  | inl old ↦ rw old (IsOrdered-recent now interval lo ts hi (IsOrdered-below t.0 lo ts hi o.0 o.1))
  | inr fresh ↦ rw fresh (o.0, IsOrdered-recent now interval t.0 ts hi o.1)
]

-- The speedometer holds the recent ones of all the events that there were, up to a time.
pub record Tracks {Float : Type 0} (all : List Event) (now : ℕ) (s : Speedometer Float)
    : Type 0 where
  pub held : s.storage ≡ recent now s.interval all
  pub ordered : IsOrdered 0 all now

-- If the speedometer holds the recent ones of all the events up to now, then after an event at a
-- later time it holds the recent ones of those and the new one.
pub event-Tracks :
    {Float : Type 0} (all : List Event) (now : ℕ) (s : Speedometer Float) (later v : ℕ)
    → Tracks all now s
    → now ≤ later
    → Tracks (all ++ (later, v) ∷ []) later (event later s v)
unfolding event
event-Tracks all now s later v t h = record {
  held = held;
  ordered = IsOrdered-push 0 all now later v t.ordered h;
}
  where
    new : List Event
    new = (later, v) ∷ []

    held : trim later s.interval (s.storage ++ new) ≡ recent later s.interval (all ++ new)
    held = rw t.held (
        trim-recent later s.interval 0 (recent now s.interval all ++ new) later
          (IsOrdered-push 0 _ now later v (IsOrdered-recent now s.interval 0 all now t.ordered) h)
        ∙ (recent-append later s.interval (recent now s.interval all) new
            ∙ (ap (λ l. l ++ recent later s.interval new) (recent-recent now later s.interval all h)
                ∙ sym (recent-append later s.interval all new))))

-- The events of a list, each at its time.
unfoldable pub events : {Float : Type 0} → Speedometer Float → List Event → Speedometer Float
events s [] = s
events s (t ∷ ts) = events (event t.0 s t.1) ts

sum_events_exact :
    (acc : ℕ) (ts : List Event)
    → acc + sum_by (λ t. t.1) ts < u64_mod
    → sum_events acc ts ≡ acc + sum_by (λ t. t.1) ts
unfolding sum_events
sum_events_exact acc [] h = omega arith
sum_events_exact acc (t ∷ ts) h =
    rw (add64_exact acc t.1 (omega arith))
      (omega (arith, sum_events_exact (acc + t.1) ts (omega arith)))

sum_by-recent-le :
    (now interval : ℕ) (ts : List Event)
    → sum_by (λ t. t.1) (recent now interval ts) ≤ sum_by (λ t. t.1) ts
sum_by-recent-le now interval [] = omega arith
sum_by-recent-le now interval (t ∷ ts) = ground (arith, sum_by-recent-le now interval ts)

IsOrdered-until :
    (lo : ℕ) (ts : List Event) (hi later : ℕ)
    → IsOrdered lo ts hi
    → hi ≤ later
    → IsOrdered lo ts later
IsOrdered-until lo [] hi later o h = omega arith
IsOrdered-until lo (t ∷ ts) hi later o h = (o.0, IsOrdered-until t.0 ts hi later o.1 h)

trim-Tracks :
    {Float : Type 0} (all : List Event) (now : ℕ) (s : Speedometer Float) (later : ℕ)
    → Tracks all now s
    → now ≤ later
    → trim later s.interval s.storage ≡ recent later s.interval all
trim-Tracks all now s later t h = rw t.held (
    trim-recent later s.interval 0 (recent now s.interval all) now
      (IsOrdered-recent now s.interval 0 all now t.ordered)
    ∙ recent-recent now later s.interval all h)

module _ (f : F64) where
  open f use {Float, of_u64, as_secs, div}

  -- If the speedometer holds the recent ones of all the events up to now, and the sum of all of
  -- them is below 2^64, then what it measures at a later time is the sum of the values of the
  -- events of the last interval, out of all of them, over the length of the interval; and it still
  -- holds the recent ones.
  pub measure_lem :
      (all : List Event) (now later : ℕ) (s : Speedometer Float)
      → Tracks all now s
      → now ≤ later
      → sum_by (λ t. t.1) all < u64_mod
      → ((measure f later s).0
          ≡ div (of_u64 (sum_by (λ t. t.1) (recent later s.interval all))) (as_secs s.interval))
        × Tracks all later (measure f later s).1
  unfolding measure
  measure_lem all now later s t h small =
      let trimmed = trim-Tracks all now s later t h in
      let ordered = IsOrdered-until 0 all now later t.ordered h in
      let exact =
        sum_events_exact 0 (recent later s.interval all)
          (omega (arith, sum_by-recent-le later s.interval all)) in
      (
        rw (trimmed, exact) (rw zero-add),
        elim (Bool-cases s.cached) [
          | inl c ↦ rw c (record { held = trimmed; ordered = ordered })
          | inr c ↦ rw c (record { held = trimmed; ordered = ordered })
        ],
      )
