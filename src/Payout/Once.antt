-- ===== src/Payout/Once.antt =====
-- A paid solution is not paid again.
use aleo_pool_server.Prelude.{
  ℕ, ◌≡◌, refl, ap, ◌∙◌, true, false, List, [], ◌∷◌, none, some, Option-cases, inl, inr, ℤ, arith,
  Outcome, done, u32_mod, ◌%◌, as_i64,
}
use aleo_pool_server.Database.{
  Fault, no_fault, at_connect, in_transaction, Status, ok, error, mark_checked, set_reward,
  save_solution, set_solution_valid, get_should_pay_solutions,
}
use aleo_pool_server.Payout.{Bank, pay_solution}
use aleo_pool_server.Payout.Loop.{
  Reply, unreadable, null, found, Answer, Validity, is_valid, is_invalid, unknown, checked,
  check_solution, after_pay, after_check, pay_blocks, payout_pass, Event, pass, records, happen,
  forever,
}
use aleo_pool_server.Payout.Freezes.{
  payouts_of, is_paid, Freezes, is_paid-append, is_paid-map, Freezes-trans, pay_solution-Freezes,
  pay_solution-is_paid,
}

module _ {Commitment Owner : Type 0} where
  module _ (dec_commitment : Discrete Commitment) (dec : Discrete Owner) (cut : ℤ → ℤ) where
    -- A check that returns, and pays nothing.
    abbrev Checks : Bank Commitment Owner → Outcome (Bank Commitment Owner × Validity) → Type 0
    Checks b o =
        (b' : Bank Commitment Owner) × (v : Validity) × (o ≡ done (b', v))
        × (b'.payouts ≡ b.payouts)
        × ((j : ℕ) → is_paid j b' ≡ is_paid j b)

    check_solution-Checks :
        (fault : Fault) (reply : Reply) (b : Bank Commitment Owner) (c : Commitment)
        → Checks b (check_solution dec_commitment dec fault reply b c)
    unfolding check_solution checked set_solution_valid mark_checked set_reward
    check_solution-Checks no_fault null b c = (
      _,
      is_invalid,
      refl,
      refl,
      λ j. is_paid-map j (λ s. mark_checked dec_commitment c false s) _ (λ s. ground arith),
    )
    check_solution-Checks at_connect null b c = (b, unknown, refl, refl, λ j. refl)
    check_solution-Checks in_transaction null b c = (b, unknown, refl, refl, λ j. refl)
    check_solution-Checks no_fault (found (some height) (some reward)) b c = (
      _,
      is_valid,
      refl,
      refl,
      λ j.
          is_paid-map j
            (λ s. set_reward dec_commitment c (as_i64 (height % u32_mod)) (as_i64 reward) s) _
            (λ s. ground arith)
          ∙ is_paid-map j (λ s. mark_checked dec_commitment c true s) _ (λ s. ground arith),
    )
    check_solution-Checks at_connect (found (some height) (some reward)) b c =
        (b, unknown, refl, refl, λ j. refl)
    check_solution-Checks in_transaction (found (some height) (some reward)) b c =
        (b, unknown, refl, refl, λ j. refl)
    check_solution-Checks fault unreadable b c = (b, unknown, refl, refl, λ j. refl)
    check_solution-Checks fault (found none reward) b c = (b, unknown, refl, refl, λ j. refl)
    check_solution-Checks fault (found (some height) none) b c = (b, unknown, refl, refl, λ j. refl)

    -- A computation that returns a bank in which whatever was paid is frozen.
    abbrev pub Preserves : Bank Commitment Owner → Outcome (Bank Commitment Owner) → Type 0
    Preserves b o = (b' : Bank Commitment Owner) × (o ≡ done b') × ((j : ℕ) → Freezes j b b')

    after_pay-Preserves :
        (rest : Bank Commitment Owner → Outcome (Bank Commitment Owner)) (b : Bank Commitment Owner)
        (r : Bank Commitment Owner × Status)
        → ((j : ℕ) → Freezes j b r.0)
        → ((c : Bank Commitment Owner) → Preserves c (rest c))
        → Preserves b (after_pay dec_commitment dec rest r)
    unfolding after_pay
    after_pay-Preserves rest b (b', ok) f g =
        let (c, e, h) = g b' in (c, e, λ j. Freezes-trans j b b' c (f j) (h j))
    after_pay-Preserves rest b (b', error) f g = (b', refl, f)

    after_check-Preserves :
        (fault : Fault) (i : ℕ) (rest : Bank Commitment Owner → Outcome (Bank Commitment Owner))
        (b b' : Bank Commitment Owner) (v : Validity)
        → ((j : ℕ) → Freezes j b b')
        → ((c : Bank Commitment Owner) → Preserves c (rest c))
        → Preserves b (after_check dec_commitment dec cut fault i rest b' v)
    unfolding after_check
    after_check-Preserves fault i rest b b' unknown f g = (b', refl, f)
    after_check-Preserves fault i rest b b' is_invalid f g =
        let (c, e, h) = g b' in (c, e, λ j. Freezes-trans j b b' c (f j) (h j))
    after_check-Preserves fault i rest b b' is_valid f g =
        after_pay-Preserves rest b (pay_solution dec cut fault b' i)
          (λ j.
            Freezes-trans j b b' (pay_solution dec cut fault b' i).0 (f j)
              (pay_solution-Freezes dec cut fault i j b'))
          g

    pay_blocks-Preserves :
        (answers : ℕ → Answer) (blocks : List (ℕ × Commitment)) (b : Bank Commitment Owner)
        → Preserves b (pay_blocks dec_commitment dec cut answers blocks b)
    unfolding pay_blocks
    pay_blocks-Preserves answers [] b = (b, refl, λ j h. (h, refl))
    pay_blocks-Preserves answers ((i, c) ∷ blocks) b =
        let (b₁, v, e, kept, paid) =
          check_solution-Checks (answers i).check_fault (answers i).reply b c in
        rw (e, pay_blocks)
          (after_check-Preserves (answers i).pay_fault i
            (λ b'. pay_blocks dec_commitment dec cut answers blocks b') b b₁ v
            (λ j h. (paid j ∙ h, ap (λ rows. payouts_of j rows) kept))
            (λ b'. pay_blocks-Preserves answers blocks b'))

    -- One pass of the loop returns, and freezes what was paid.
    payout_pass-Preserves :
        (fault : Fault) (answers : ℕ → Answer) (b : Bank Commitment Owner)
        → Preserves b (payout_pass dec_commitment dec cut fault answers b)
    unfolding payout_pass
    payout_pass-Preserves fault answers b =
        elim (Option-cases (get_should_pay_solutions fault b.database)) [
          | inl e ↦ rw (e, payout_pass) (b, refl, λ j h. (h, refl))
          | inr (blocks, e) ↦ rw (e, payout_pass) (pay_blocks-Preserves answers blocks b)
        ]

    happen-Preserves :
        (b : Bank Commitment Owner) (event : Event dec_commitment dec)
        → Preserves b (happen dec_commitment dec cut b event)
    unfolding happen save_solution
    happen-Preserves b (pass fault answers) = payout_pass-Preserves fault answers b
    happen-Preserves b (records no_fault c shares) =
        (_, refl, λ j h. (is_paid-append j b.database.solutions _ h, refl))
    happen-Preserves b (records at_connect c shares) = (_, refl, λ j h. (h, refl))
    happen-Preserves b (records in_transaction c shares) = (_, refl, λ j h. (h, refl))

    forever-Preserves :
        (events : List (Event dec_commitment dec)) (b : Bank Commitment Owner)
        → Preserves b (forever dec_commitment dec cut events b)
    unfolding forever
    forever-Preserves [] b = (b, refl, λ j h. (h, refl))
    forever-Preserves (event ∷ events) b =
        let (b₁, e₁, f₁) = happen-Preserves b event in
        let (b₂, e₂, f₂) = forever-Preserves events b₁ in
        (b₂, rw (e₁, forever) e₂, λ j. Freezes-trans j b b₁ b₂ (f₁ j) (f₂ j))

    -- After a solution was paid, whatever passes of the loop follow, with whatever answers and failures, and
    -- whatever solutions are recorded between them: the loop returns, the solution stays paid, and its
    -- payouts stay the same.
    pub pay_solution_once :
        (fault : Fault) (i : ℕ) (b : Bank Commitment Owner)
        (events : List (Event dec_commitment dec))
        → (pay_solution dec cut fault b i).1 ≡ ok
        → let paid = (pay_solution dec cut fault b i).0 in
          (b' : Bank Commitment Owner) × (forever dec_commitment dec cut events paid ≡ done b')
          × (is_paid i b' ≡ true)
          × (payouts_of i b'.payouts ≡ payouts_of i paid.payouts)
    pay_solution_once fault i b events success =
        let (b', e, f) = forever-Preserves events (pay_solution dec cut fault b i).0 in
        let (p, same) = f i (pay_solution-is_paid dec cut fault i b success) in (b', e, p, same)
