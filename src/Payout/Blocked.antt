-- ===== src/Payout/Blocked.antt =====
-- A solution that cannot be paid, and the solutions behind it.
use aleo_pool_server.Prelude.{
  ℕ, ◌<◌, ◌≡◌, refl, ◌∙◌, true, [], ℤ, arith, All, Option-cases, inl, inr,
}
use aleo_pool_server.Database.{
  Solution, Fault, no_fault, at_connect, in_transaction, error, should_pay, mark_checked,
  set_reward,
}
use aleo_pool_server.Payout.{Bank, share_rows_of, find_solution, procedure, pay_solution}
use aleo_pool_server.Payout.Loop.{Reply, null, Event, pass, records}
use aleo_pool_server.Payout.Queue.{is_waiting, is_later}

module _ {Commitment Owner : Type 0} (dec_commitment : Discrete Commitment) (dec : Discrete Owner)
    (cut : ℤ → ℤ) (id : ℕ) where
  -- A solution of the id is selected, with no shares recorded for it, and all solutions of a lesser id are
  -- paid.
  pub record IsBlocked (b : Bank Commitment Owner) : Type 0 where
    pub waits : is_waiting id b.database.solutions ≡ true
    pub first : All (λ r. is_later id r ≡ true) b.database.solutions
    pub shareless : share_rows_of dec id b.database.shares ≡ []
    pub recent : id < b.database.next_id

  -- The explorer does not answer null for the solution.
  abbrev pub IsKnown : Reply → Type 0
  IsKnown null = ⊥
  IsKnown reply = Unit {0}

  abbrev pub IsAnswered : Event dec_commitment dec → Type 0
  IsAnswered (pass fault answers) = IsKnown (answers id).reply
  IsAnswered (records fault commitment shares) = Unit {0}

  -- Nothing is paid, and the solution still blocks.
  pub record IsUnpaid (b b' : Bank Commitment Owner) : Type 0 where
    pub payouts : b'.payouts ≡ b.payouts
    pub balances : b'.balances ≡ b.balances
    pub stats : b'.stats ≡ b.stats
    pub blocked : IsBlocked b'

  pub IsUnpaid-refl : (b : Bank Commitment Owner) → IsBlocked b → IsUnpaid b b
  IsUnpaid-refl b i = record { payouts = refl; balances = refl; stats = refl; blocked = i }

  pub IsUnpaid-trans : (b c d : Bank Commitment Owner) → IsUnpaid b c → IsUnpaid c d → IsUnpaid b d
  IsUnpaid-trans b c d u v = record {
    payouts = v.payouts ∙ u.payouts;
    balances = v.balances ∙ u.balances;
    stats = v.stats ∙ u.stats;
    blocked = v.blocked;
  }

  pub pay_solution-fails :
      (fault : Fault) (b : Bank Commitment Owner)
      → share_rows_of dec id b.database.shares ≡ []
      → pay_solution dec cut fault b id ≡ (b, error)
  unfolding pay_solution procedure
  pay_solution-fails no_fault b e = elim (Option-cases (find_solution id b.database.solutions)) [
    | inl n ↦ rw (n, procedure) refl
    | inr (s, n) ↦ ground (arith, n, e)
  ]
  pay_solution-fails at_connect b e = refl
  pay_solution-fails in_transaction b e = refl

  pub mark_checked_keeps :
      (c : Commitment) (s : Solution Commitment)
      → ((mark_checked dec_commitment c true s).id ≡ s.id)
        × ((mark_checked dec_commitment c true s).paid ≡ s.paid)
  unfolding mark_checked
  mark_checked_keeps c s = ground arith

  pub set_reward_keeps :
      (c : Commitment) (height reward : ℤ) (s : Solution Commitment)
      → ((set_reward dec_commitment c height reward s).id ≡ s.id)
        × ((set_reward dec_commitment c height reward s).paid ≡ s.paid)
  unfolding set_reward
  set_reward_keeps c height reward s = ground arith

  pub mark_checked-should_pay :
      (c : Commitment) (s : Solution Commitment)
      → should_pay s ≡ true
      → should_pay (mark_checked dec_commitment c true s) ≡ true
  unfolding mark_checked should_pay
  mark_checked-should_pay c s h = ground arith

  pub set_reward-should_pay :
      (c : Commitment) (height reward : ℤ) (s : Solution Commitment)
      → should_pay s ≡ true
      → should_pay (set_reward dec_commitment c height reward s) ≡ true
  unfolding set_reward should_pay
  set_reward-should_pay c height reward s h = ground arith
