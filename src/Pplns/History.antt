-- ===== src/Pplns/History.antt =====
-- The window over any number of shares: dropping as the shares come drops no more and no less than
-- looking at all of them at the end.
use aleo_pool_server.Prelude.{
  ℕ, ◌+◌, ◌<◌, ◌≡◌, ◌≢◌, ◌∙◌, ◌⊎◌, inl, inr, refl, sym, ap, List, [], ◌∷◌, ◌++◌, arith,
  sum_by-append, u64_mod, done, Outcome, ◌>>=◌,
}
use mathlib.Core.List.{append-nil, append_assoc}
use aleo_pool_server.Pplns.{Share, Pplns, add_share}
use aleo_pool_server.Pplns.Window.{total, IsWindow, IsWindow-nil}
use aleo_pool_server.Pplns.Invariant.{IsValid, add_share-IsWindow}

module _ {Owner : Type 0} where
  -- Where a list is cut in two ways, the second cut lies at or behind the first, or before it.
  append_cases :
      (front back d e : List (Share Owner))
      → front ++ back ≡ d ++ e
      → ((mid : List (Share Owner)) × (front ≡ d ++ mid) × (mid ++ back ≡ e))
        ⊎ ((mid : List (Share Owner)) × (front ++ mid ≡ d) × (back ≡ mid ++ e) × (mid ≢ []))
  append_cases front back [] e h = inl (front, refl, h)
  append_cases [] back (s ∷ d) e h = inr (s ∷ d, refl, h, λ eq. cc)
  append_cases (f ∷ front) back (s ∷ d) e h = elim (append_cases front back d e (cc)) [
    | inl (mid, p, q) ↦ inl (mid, cc, q)
    | inr (mid, p, q, ne) ↦ inr (mid, cc, q, ne)
  ]

  total-append : (xs ys : List (Share Owner)) → total (xs ++ ys) ≡ total xs + total ys
  total-append = sum_by-append (λ s. s.value)

  IsWindow-extend :
      (n : ℕ) (queue kept dropped more kept' dropped' : List (Share Owner))
      → IsWindow n queue kept dropped
      → IsWindow n (kept ++ more) kept' dropped'
      → IsWindow n (queue ++ more) kept' (dropped ++ dropped')
  IsWindow-extend n queue kept dropped more kept' dropped' w w' = record {
    split =
        append_assoc dropped dropped' kept'
        ∙ (ap (◌++◌ dropped) w'.split
            ∙ (sym (append_assoc dropped kept more) ∙ ap (λ l. l ++ more) w.split));
    fits = w'.fits;
    longest = λ front back e ne. elim (append_cases front back dropped dropped' e) [
      | inl (mid, p, q) ↦ w'.longest mid back q ne
      | inr (mid, p, q, ne') ↦ rw q (longer mid (w.longest front mid p ne'))
    ];
  }
    where
      longer :
          (mid : List (Share Owner))
          → n < total (mid ++ kept)
          → n < total (mid ++ dropped' ++ kept')
      longer mid over = omega (
        arith,
        total-append (mid ++ dropped') kept',
        total-append mid dropped',
        total-append dropped' kept',
        total-append mid kept,
        total-append kept more,
        ap total w'.split,
      )

  -- Every share of a list, in order.
  unfoldable pub add_shares : Pplns Owner → List (Share Owner) → Outcome (Pplns Owner)
  add_shares p [] = done p
  add_shares p (s ∷ shares) = do p' ← add_share p s; add_shares p' shares

  -- From a valid state, whatever shares come, as long as the window and the sum of the new shares
  -- stay below 2^64 together: nothing panics, and the queue is at the end the longest end of the old queue
  -- and all the new shares that fits into the window.
  pub add_shares-IsWindow :
      (p : Pplns Owner) (shares : List (Share Owner))
      → IsValid p
      → p.n + total shares < u64_mod
      → (p' : Pplns Owner) × (dropped : List (Share Owner)) × (add_shares p shares ≡ done p')
        × IsWindow p.n (p.queue ++ shares) p'.queue dropped
        × IsValid p'
  unfolding add_shares
  add_shares-IsWindow p [] v h =
      (p, [], refl, rw append-nil (IsWindow-nil p.n p.queue (omega (arith, v.counted))), v)
  add_shares-IsWindow p (s ∷ shares) v h =
      let (p₁, d₁, e₁, (w₁, v₁, n₁)) =
        add_share-IsWindow p s v (omega (arith, v.counted, v.within)) in
      let (p₂, d₂, e₂, w₂, v₂) = add_shares-IsWindow p₁ shares v₁ (omega (arith, n₁)) in
      (p₂, d₁ ++ d₂, rw e₁ e₂, extended p₁ d₁ p₂ d₂ w₁ n₁ w₂, v₂)
    where
      extended :
          (p₁ : Pplns Owner) (d₁ : List (Share Owner)) (p₂ : Pplns Owner) (d₂ : List (Share Owner))
          → IsWindow p.n (p.queue ++ s ∷ []) p₁.queue d₁
          → p₁.n ≡ p.n
          → IsWindow p₁.n (p₁.queue ++ shares) p₂.queue d₂
          → IsWindow p.n (p.queue ++ s ∷ shares) p₂.queue (d₁ ++ d₂)
      extended p₁ d₁ p₂ d₂ w₁ n₁ w₂ =
          rw append_assoc at (
            IsWindow-extend p.n (p.queue ++ s ∷ []) p₁.queue d₁ shares p₂.queue d₂ w₁ (rw n₁ at w₂))
