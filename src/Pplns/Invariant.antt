-- ===== src/Pplns/Invariant.antt =====
-- The invariant of the window and that `set_n` and `add_share` keep it, panic free.
use aleo_pool_server.Prelude.{
  ℕ, ◌+◌, ◌≤◌, ◌<◌, ◌≡◌, refl, ◌∙◌, List, [], ◌∷◌, ◌++◌, arith, tests, ltb, Bool-cases, inl, inr,
  sum_by-append, add64, add64_exact, u64_mod, done,
}
use aleo_pool_server.Pplns.{Share, Pplns, set_n, add_share, empty}
use aleo_pool_server.Pplns.Window.{total, IsWindow, IsWindow-nil, shrink-IsWindow}

module _ {Owner : Type 0} where
  -- The counter is the exact sum of the queue, and it is within the window.
  pub record IsValid (p : Pplns Owner) : Type 0 where
    pub counted : p.current_n ≡ total p.queue
    pub within : p.current_n ≤ p.n
    pub bounded : p.n < u64_mod

  pub empty-IsValid : IsValid empty
  unfolding empty
  empty-IsValid = record { counted = refl; within = omega arith; bounded = omega arith }

  -- What an operation that asks for the window `n` of `queue` promises.
  abbrev pub Becomes : ℕ → List (Share Owner) → Pplns Owner → List (Share Owner) → Type 0
  Becomes n queue p' dropped = IsWindow n queue p'.queue dropped × IsValid p' × (p'.n ≡ n)

  -- In a valid state a new share is appended and the oldest shares are dropped, no more than needed,
  -- until the rest fits into the window; nothing panics and the state stays valid, if the sum with
  -- the new share is below 2^64.
  pub add_share-IsWindow :
      (p : Pplns Owner) (s : Share Owner)
      → IsValid p
      → total p.queue + s.value < u64_mod
      → (p' : Pplns Owner) × (dropped : List (Share Owner)) × (add_share p s ≡ done p')
        × Becomes p.n (p.queue ++ s ∷ []) p' dropped
  unfolding add_share
  add_share-IsWindow p s v h =
      let sum = sum_by-append (λ (x : Share Owner). x.value) p.queue (s ∷ []) in
      let (kept, dropped, run, w) = shrink-IsWindow p.n (p.queue ++ s ∷ []) (omega (arith, sum)) in
      let added : add64 p.current_n s.value ≡ total (p.queue ++ s ∷ []) =
        add64_exact p.current_n s.value (omega (arith, v.counted))
        ∙ omega (arith, sum, v.counted) in
      (
        record p { queue = kept; current_n = total kept },
        dropped,
        rw (added, run),
        (w, record { counted = refl; within = w.fits; bounded = v.bounded }, refl),
      )

  -- In a valid state `set_n` keeps the longest end of the queue that fits into the new window: all of
  -- it if the window grows. It does not panic and the state stays valid, with the new size.
  pub set_n-IsWindow :
      (p : Pplns Owner) (n : ℕ)
      → IsValid p
      → n < u64_mod
      → (p' : Pplns Owner) × (dropped : List (Share Owner)) × (set_n p n ≡ done p')
        × Becomes n p.queue p' dropped
  unfolding set_n
  set_n-IsWindow p n v h = elim (Bool-cases (ltb n p.n)) [
    | inl less ↦
        let (kept, dropped, run, w) =
          shrink-IsWindow n p.queue (omega (arith, v.counted, v.bounded)) in
        (
          record { queue = kept; current_n = total kept; n = n },
          dropped,
          rw (less, v.counted, run),
          (w, record { counted = refl; within = w.fits; bounded = h }, refl),
        )
    | inr more ↦ (
      record p { n = n },
      [],
      rw more,
      (
        IsWindow-nil n p.queue (omega (tests, v.counted)),
        record { counted = v.counted; within = omega tests; bounded = h },
        refl,
      ),
    )
  ]
