-- ===== src/Pplns/Window.antt =====
-- The loop that drops the oldest shares, against its specification: the longest end of the queue
-- that fits into the window.
use aleo_pool_server.Prelude.{
  ℕ, ◌≤◌, ◌<◌, ◌≡◌, ◌≢◌, refl, ap, List, [], ◌∷◌, ◌++◌, arith, ◌∙◌, tests, ltb, Bool-cases, inl,
  inr, sum_by, sub64, sub64_exact, u64_mod, done,
}
use aleo_pool_server.Pplns.{Share, shrink}

module _ {Owner : Type 0} where
  -- The exact sum of the values of a queue.
  abbrev pub total : List (Share Owner) → ℕ
  total = sum_by (λ s. s.value)

  -- `kept` is the longest end of `queue` whose total is at most `n`: it is what remains of `queue`
  -- behind `dropped`, it fits, and with any more of `dropped` it would not fit.
  pub record IsWindow (n : ℕ) (queue kept dropped : List (Share Owner)) : Type 0 where
    pub split : dropped ++ kept ≡ queue
    pub fits : total kept ≤ n
    pub longest :
        (front back : List (Share Owner))
        → front ++ back ≡ dropped
        → back ≢ []
        → n < total (back ++ kept)

  pub IsWindow-nil :
      (n : ℕ) (queue : List (Share Owner)) → total queue ≤ n → IsWindow n queue queue []
  IsWindow-nil n queue h = record {
    split = refl;
    fits = h;
    longest = λ front back e ne. absurd (ne (back_nil front back e));
  }
    where
      back_nil : (front back : List (Share Owner)) → front ++ back ≡ [] → back ≡ []
      back_nil [] back e = e
      back_nil (s ∷ front) back e = cc

  IsWindow-cons :
      (n : ℕ) (s : Share Owner) (queue kept dropped : List (Share Owner))
      → n < total (s ∷ queue)
      → IsWindow n queue kept dropped
      → IsWindow n (s ∷ queue) kept (s ∷ dropped)
  IsWindow-cons n s queue kept dropped over w = record {
    split = ap (◌∷◌ s) w.split;
    fits = w.fits;
    longest = longer;
  }
    where
      longer :
          (front back : List (Share Owner))
          → front ++ back ≡ s ∷ dropped
          → back ≢ []
          → n < total (back ++ kept)
      longer [] back e ne = rw e (rw w.split over)
      longer (f ∷ front) back e ne = w.longest front back (cc) ne

  sub64-total :
      (s : Share Owner) (queue : List (Share Owner))
      → total (s ∷ queue) < u64_mod
      → sub64 (total (s ∷ queue)) s.value ≡ total queue
  sub64-total s queue h = sub64_exact (total (s ∷ queue)) s.value (omega arith) h ∙ omega arith

  -- The loop never panics on a queue whose exact total is the counter, and it ends with the longest
  -- end of the queue that fits, and with its exact total as the counter.
  pub shrink-IsWindow :
      (n : ℕ) (queue : List (Share Owner))
      → total queue < u64_mod
      → (kept dropped : List (Share Owner)) × (shrink n queue (total queue)
          ≡ done (kept, total kept))
        × IsWindow n queue kept dropped
  unfolding shrink
  shrink-IsWindow n [] h = ([], [], ground arith, IsWindow-nil n [] (omega arith))
  shrink-IsWindow n (s ∷ queue) h = elim (Bool-cases (ltb n (total (s ∷ queue)))) [
    | inl over ↦
        let (kept, dropped, run, w) = shrink-IsWindow n queue (omega arith) in
        (
          kept,
          s ∷ dropped,
          rw (over, sub64-total s queue h) run,
          IsWindow-cons n s queue kept dropped (omega tests) w,
        )
    | inr under ↦ (s ∷ queue, [], rw under, IsWindow-nil n (s ∷ queue) (omega tests))
  ]
