-- ===== src/Payout/Stalls.antt =====
-- The passes of the loop over a solution that cannot be paid.
use aleo_pool_server.Prelude.{
  ℕ, ◌%◌, ◌≡◌, refl, true, List, [], ◌∷◌, map, none, some, ℤ, as_i64, arith, All, All-append,
  Outcome, done, u32_mod, inl, inr, ◌⊎◌,
}
use aleo_pool_server.Database.{
  Solution, Fault, no_fault, at_connect, in_transaction, mark_checked, set_reward,
  set_solution_valid, save_solution, get_should_pay_solutions, select, order_by_id, new_solution,
}
use aleo_pool_server.Payout.{Bank}
use aleo_pool_server.Payout.Loop.{
  Reply, unreadable, null, found, Answer, Validity, is_valid, unknown, checked, check_solution,
  after_pay, after_check, pay_blocks, payout_pass, Event, pass, records, happen, forever,
}
use aleo_pool_server.Payout.Queue.{
  is_later, first_id, first_id-order_by_id, is_waiting-map, All_later-map, is_waiting-append,
  share_rows_of-append,
}
use aleo_pool_server.Payout.Blocked.{
  IsBlocked, IsKnown, IsAnswered, IsUnpaid, IsUnpaid-refl, IsUnpaid-trans, pay_solution-fails,
  mark_checked_keeps, set_reward_keeps, mark_checked-should_pay, set_reward-should_pay,
}

module _ {Commitment Owner : Type 0} (dec_commitment : Discrete Commitment) (dec : Discrete Owner)
    (cut : ℤ → ℤ) (id : ℕ) where
  -- What a check leaves: the bank, with the rows of the commitment marked if it succeeds.
  abbrev Blocks : Bank Commitment Owner → Outcome (Bank Commitment Owner × Validity) → Type 0
  Blocks b o =
      (b' : Bank Commitment Owner) × (v : Validity) × (o ≡ done (b', v))
      × IsUnpaid dec_commitment dec cut id b b'
      × ((v ≡ is_valid) ⊎ (v ≡ unknown))

  check_solution-Blocks :
      (fault : Fault) (reply : Reply) (b : Bank Commitment Owner) (c : Commitment)
      → IsKnown dec_commitment dec cut id reply
      → IsBlocked dec_commitment dec cut id b
      → Blocks b (check_solution dec_commitment dec fault reply b c)
  unfolding check_solution checked set_solution_valid
  check_solution-Blocks no_fault (found (some height) (some reward)) b c k i =
      let h = as_i64 (height % u32_mod) in
      let marked = map (λ s. mark_checked dec_commitment c true s) b.database.solutions in
      (
        _,
        is_valid,
        refl,
        record {
          payouts = refl;
          balances = refl;
          stats = refl;
          blocked = record {
            waits =
                is_waiting-map id (λ s. set_reward dec_commitment c h (as_i64 reward) s) marked
                  (λ s. (set_reward_keeps dec_commitment dec cut id c h (as_i64 reward) s).0)
                  (λ s. set_reward-should_pay dec_commitment dec cut id c h (as_i64 reward) s)
                  (is_waiting-map id (λ s. mark_checked dec_commitment c true s)
                    b.database.solutions (λ s. (mark_checked_keeps dec_commitment dec cut id c s).0)
                    (λ s. mark_checked-should_pay dec_commitment dec cut id c s) i.waits);
            first =
                All_later-map id (λ s. set_reward dec_commitment c h (as_i64 reward) s) marked
                  (λ s. set_reward_keeps dec_commitment dec cut id c h (as_i64 reward) s)
                  (All_later-map id (λ s. mark_checked dec_commitment c true s) b.database.solutions
                    (λ s. mark_checked_keeps dec_commitment dec cut id c s) i.first);
            shareless = i.shareless;
            recent = i.recent;
          };
        },
        inl refl,
      )
  check_solution-Blocks at_connect (found (some height) (some reward)) b c k i =
      (b, unknown, refl, IsUnpaid-refl dec_commitment dec cut id b i, inr refl)
  check_solution-Blocks in_transaction (found (some height) (some reward)) b c k i =
      (b, unknown, refl, IsUnpaid-refl dec_commitment dec cut id b i, inr refl)
  check_solution-Blocks fault null b c k i = absurd k
  check_solution-Blocks fault unreadable b c k i =
      (b, unknown, refl, IsUnpaid-refl dec_commitment dec cut id b i, inr refl)
  check_solution-Blocks fault (found none reward) b c k i =
      (b, unknown, refl, IsUnpaid-refl dec_commitment dec cut id b i, inr refl)
  check_solution-Blocks fault (found (some height) none) b c k i =
      (b, unknown, refl, IsUnpaid-refl dec_commitment dec cut id b i, inr refl)

  -- An event that returns, and pays nothing.
  abbrev Stalls : Bank Commitment Owner → Outcome (Bank Commitment Owner) → Type 0
  Stalls b o =
      (b' : Bank Commitment Owner) × (o ≡ done b') × IsUnpaid dec_commitment dec cut id b b'

  after_check-Stalls :
      (fault : Fault) (rest : Bank Commitment Owner → Outcome (Bank Commitment Owner))
      (b b' : Bank Commitment Owner) (v : Validity)
      → IsUnpaid dec_commitment dec cut id b b'
      → (v ≡ is_valid) ⊎ (v ≡ unknown)
      → Stalls b (after_check dec_commitment dec cut fault id rest b' v)
  unfolding after_check after_pay
  after_check-Stalls fault rest b b' v u (inl e) = (
    b',
    rw (e, pay_solution-fails dec_commitment dec cut id fault b' u.blocked.shareless) refl,
    u,
  )
  after_check-Stalls fault rest b b' v u (inr e) = (b', rw e refl, u)

  pay_blocks-Stalls :
      (answers : ℕ → Answer) (n : ℕ) (c : Commitment) (blocks : List (ℕ × Commitment))
      (b : Bank Commitment Owner)
      → n ≡ id
      → IsKnown dec_commitment dec cut id (answers id).reply
      → IsBlocked dec_commitment dec cut id b
      → Stalls b (pay_blocks dec_commitment dec cut answers ((n, c) ∷ blocks) b)
  unfolding pay_blocks
  pay_blocks-Stalls answers n c blocks b e k i =
      let (b', v, run, u, valid) =
        check_solution-Blocks (answers id).check_fault (answers id).reply b c k i in
      rw (e, run)
        (after_check-Stalls (answers id).pay_fault
          (λ d. pay_blocks dec_commitment dec cut answers blocks d) b b' v u valid)

  payout_pass-Stalls :
      (fault : Fault) (answers : ℕ → Answer) (b : Bank Commitment Owner)
      → IsKnown dec_commitment dec cut id (answers id).reply
      → IsBlocked dec_commitment dec cut id b
      → Stalls b (payout_pass dec_commitment dec cut fault answers b)
  unfolding payout_pass get_should_pay_solutions
  payout_pass-Stalls no_fault answers b k i =
      listed (order_by_id (select b.database.solutions))
        (first_id-order_by_id id b.database.solutions i.first i.waits)
    where
      listed :
          (rows : List (Solution Commitment))
          → first_id id rows ≡ some id
          → Stalls b
              (pay_blocks dec_commitment dec cut answers (map (λ s. (s.id, s.commitment)) rows) b)
      listed [] e = cc
      listed (r ∷ rows) e = pay_blocks-Stalls answers r.id r.commitment _ b (cc) k i
  payout_pass-Stalls at_connect answers b k i =
      (b, refl, IsUnpaid-refl dec_commitment dec cut id b i)
  payout_pass-Stalls in_transaction answers b k i =
      (b, refl, IsUnpaid-refl dec_commitment dec cut id b i)

  happen-Stalls :
      (b : Bank Commitment Owner) (event : Event dec_commitment dec)
      → IsAnswered dec_commitment dec cut id event
      → IsBlocked dec_commitment dec cut id b
      → Stalls b (happen dec_commitment dec cut b event)
  unfolding happen save_solution new_solution
  happen-Stalls b (pass fault answers) k i = payout_pass-Stalls fault answers b k i
  happen-Stalls b (records no_fault c shares) k i = (
    _,
    refl,
    record {
      payouts = refl;
      balances = refl;
      stats = refl;
      blocked = record {
        waits = is_waiting-append id b.database.solutions _ i.waits;
        first =
            All-append (λ r. is_later id r ≡ true) b.database.solutions
              (new_solution b.database.next_id c ∷ []) i.first (ground (arith, i.recent), tt);
        shareless =
            share_rows_of-append dec id b.database.next_id b.database.shares shares i.recent
              i.shareless;
        recent = omega (arith, i.recent);
      };
    },
  )
  happen-Stalls b (records at_connect c shares) k i =
      (b, refl, IsUnpaid-refl dec_commitment dec cut id b i)
  happen-Stalls b (records in_transaction c shares) k i = (
    _,
    refl,
    record {
      payouts = refl;
      balances = refl;
      stats = refl;
      blocked = record {
        waits = i.waits;
        first = i.first;
        shareless = i.shareless;
        recent = omega (arith, i.recent);
      };
    },
  )

  -- If a solution of an id that was given out is selected for payment but has no shares recorded, and all
  -- solutions of lesser ids are paid, then as long as the explorer does not answer null for it, whatever passes of the
  -- loop follow, with whatever other answers and failures, and whatever solutions are recorded between
  -- them: the loop returns, and nothing is paid to anybody, for whichever solution; and all of this still
  -- holds.
  pub forever-IsUnpaid :
      (events : List (Event dec_commitment dec)) (b : Bank Commitment Owner)
      → All (IsAnswered dec_commitment dec cut id) events
      → IsBlocked dec_commitment dec cut id b
      → (b' : Bank Commitment Owner) × (forever dec_commitment dec cut events b ≡ done b')
        × IsUnpaid dec_commitment dec cut id b b'
  unfolding forever
  forever-IsUnpaid [] b a i = (b, refl, IsUnpaid-refl dec_commitment dec cut id b i)
  forever-IsUnpaid (event ∷ events) b a i =
      let (c, e, u) = happen-Stalls b event a.0 i in
      let (d, e', v) = forever-IsUnpaid events c a.1 u.blocked in
      (d, rw (e, forever) e', IsUnpaid-trans dec_commitment dec cut id b c d u v)
