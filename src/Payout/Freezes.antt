-- ===== src/Payout/Freezes.antt =====
-- What the statements of the loop leave as it is: paid solutions and their payouts.
use aleo_pool_server.Prelude.{
  ℕ, ◌≡◌, ◌≢◌, refl, ◌∙◌, Bool, true, false, List, [], ◌∷◌, ◌++◌, map, none, some, if◌then◌else◌,
  ◌==◌, ℕ_discrete, ℤ, ◌*ℤ◌, arith,
}
use mathlib.Core.List.{append-nil}
use aleo_pool_server.Map.{Map}
use aleo_pool_server.Database.{Solution, Fault, no_fault, at_connect, in_transaction, ok}
use aleo_pool_server.Payout.{
  PayoutRow, Bank, Paying, find_solution, mark_paid, pay_miner, pay_miners, pay_all, settled,
  procedure, pay_solution,
}
use aleo_pool_server.Payout.Settles.{aborts, settles, procedure-Settles}

-- Whether the solution that an id finds is paid.
abbrev pub is_paid_in : {Commitment : Type 0} → ℕ → List (Solution Commitment) → Bool
is_paid_in id rows = elim (find_solution id rows) [ none ↦ false | some s ↦ s.paid ]

-- The payouts of a solution.
abbrev pub payouts_of : {Owner : Type 0} → ℕ → List (PayoutRow Owner) → List (PayoutRow Owner)
payouts_of id [] = []
payouts_of id (row ∷ rows) =
    if row.solution_id == id then row ∷ payouts_of id rows else payouts_of id rows

module _ {Commitment : Type 0} where
  is_paid-mark_paid :
      (i j : ℕ) (rows : List (Solution Commitment))
      → is_paid_in j rows ≡ true
      → is_paid_in j (map (λ s. mark_paid i s) rows) ≡ true
  unfolding find_solution mark_paid
  is_paid-mark_paid i j [] h = h
  is_paid-mark_paid i j (s ∷ rows) h = ground (arith, is_paid-mark_paid i j rows)

  pub is_paid-append :
      (j : ℕ) (rows more : List (Solution Commitment))
      → is_paid_in j rows ≡ true
      → is_paid_in j (rows ++ more) ≡ true
  unfolding find_solution
  is_paid-append j [] more h = absurd (ground arith)
  is_paid-append j (s ∷ rows) more h = ground (arith, is_paid-append j rows more)

  find-mark_paid :
      (i : ℕ) (rows : List (Solution Commitment)) (s : Solution Commitment)
      → find_solution i rows ≡ some s
      → is_paid_in i (map (λ s. mark_paid i s) rows) ≡ true
  unfolding find_solution mark_paid
  find-mark_paid i [] s h = absurd (ground arith)
  find-mark_paid i (r ∷ rows) s h = ground (arith, find-mark_paid i rows s)

  pub is_paid-map :
      (j : ℕ) (f : Solution Commitment → Solution Commitment) (rows : List (Solution Commitment))
      → ((s : Solution Commitment) → ((f s).id ≡ s.id) × ((f s).paid ≡ s.paid))
      → is_paid_in j (map f rows) ≡ is_paid_in j rows
  unfolding find_solution
  is_paid-map j f [] h = refl
  is_paid-map j f (s ∷ rows) h = ground (arith, (h s).0, (h s).1, is_paid-map j f rows h)

module _ {Owner : Type 0} where
  payouts_of-append :
      (j : ℕ) (xs ys : List (PayoutRow Owner))
      → payouts_of j (xs ++ ys) ≡ payouts_of j xs ++ payouts_of j ys
  payouts_of-append j [] ys = refl
  payouts_of-append j (x ∷ xs) ys = ground (arith, payouts_of-append j xs ys)

  module _ (dec : Discrete Owner) where
    payouts_of-pay_miners :
        (i j : ℕ) (per_share : ℤ) (shares : Map Owner ℤ) (p : Paying Owner)
        → i ≢ j
        → payouts_of j (pay_miners dec i per_share shares p).payouts ≡ payouts_of j p.payouts
    unfolding pay_miners pay_miner
    payouts_of-pay_miners i j per_share [] p ne = refl
    payouts_of-pay_miners i j per_share (e ∷ shares) p ne =
        payouts_of-pay_miners i j per_share shares (pay_miner dec i per_share e p) ne
        ∙ (payouts_of-append j p.payouts _ ∙ other)
      where
        amount : ℤ
        amount = per_share *ℤ e.1

        other :
            payouts_of j p.payouts
              ++ payouts_of j (record { solution_id = i; address = e.0; amount = amount } ∷ [])
            ≡ payouts_of j p.payouts
        other = ground (arith, append-nil (payouts_of j p.payouts))

module _ {Commitment Owner : Type 0} where
  abbrev pub is_paid : ℕ → Bank Commitment Owner → Bool
  is_paid id b = is_paid_in id b.database.solutions

  -- If the solution of an id was paid, it still is, and has the same payouts.
  abbrev pub Freezes : ℕ → Bank Commitment Owner → Bank Commitment Owner → Type 0
  Freezes id b b' =
      is_paid id b ≡ true
      → (is_paid id b' ≡ true) × (payouts_of id b'.payouts ≡ payouts_of id b.payouts)

  pub Freezes-trans :
      (id : ℕ) (a b c : Bank Commitment Owner) → Freezes id a b → Freezes id b c → Freezes id a c
  Freezes-trans id a b c f g h = let (p, e) = f h in let (p', e') = g p in (p', e' ∙ e)

  module _ (dec : Discrete Owner) (cut : ℤ → ℤ) where
    settled-Freezes :
        (i j : ℕ) (raw reward per_share : ℤ) (shares : Map Owner ℤ) (b : Bank Commitment Owner)
        → i ≢ j
        → Freezes j b (settled dec i raw reward per_share shares b)
    unfolding settled pay_all
    settled-Freezes i j raw reward per_share shares b ne h = (
      is_paid-mark_paid i j b.database.solutions h,
      payouts_of-pay_miners dec i j per_share shares _ ne,
    )

    procedure-Freezes :
        (i j : ℕ) (b : Bank Commitment Owner) → Freezes j b (procedure dec cut i b).0
    procedure-Freezes i j b h = elim (procedure-Settles dec cut i b) [
      | aborts e ↦ rw e (h, refl)
      | settles s raw per_share e unpaid r (f, run) ↦ elim (ℕ_discrete i j) [
        | yes same ↦ absurd (ground (arith, same, e, unpaid, h))
        | no other ↦ rw run (settled-Freezes i j raw (cut raw) per_share _ b other h)
      ]
    ]

    pub pay_solution-Freezes :
        (fault : Fault) (i j : ℕ) (b : Bank Commitment Owner)
        → Freezes j b (pay_solution dec cut fault b i).0
    unfolding pay_solution
    pay_solution-Freezes no_fault i j b h = procedure-Freezes i j b h
    pay_solution-Freezes at_connect i j b h = (h, refl)
    pay_solution-Freezes in_transaction i j b h = (h, refl)

    -- A solution that was just paid is paid.
    pub pay_solution-is_paid :
        (fault : Fault) (i : ℕ) (b : Bank Commitment Owner)
        → (pay_solution dec cut fault b i).1 ≡ ok
        → is_paid i (pay_solution dec cut fault b i).0 ≡ true
    unfolding pay_solution settled
    pay_solution-is_paid no_fault i b h = elim (procedure-Settles dec cut i b) [
      | aborts e ↦ absurd (ground (arith, e, h))
      | settles s raw per_share e unpaid r (f, run) ↦
          rw run (find-mark_paid i b.database.solutions s e)
    ]
    pay_solution-is_paid at_connect i b h = absurd (ground arith)
    pay_solution-is_paid in_transaction i b h = absurd (ground arith)
