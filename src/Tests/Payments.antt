-- ===== src/Tests/Payments.antt =====
-- A solution that is paid to two miners.
use aleo_pool_server.Prelude.{
  ℕ, ◌-◌, ◌*◌, ◌/◌, ◌≤◌, ◌<◌, ◌≡◌, refl, List, [], ◌∷◌, ◌++◌, some, true, false, ℤ, pos, negsuc,
  ◌+ℤ◌, arith, done,
}
use native.Mathlib.Decide.{ℕ_discrete as dec}
use aleo_pool_server.Map.{Map, get, insert}
use aleo_pool_server.Database.{Solution, ShareRow, no_fault, at_connect, ok, new_solution}
use aleo_pool_server.Payout.{
  Bank, StatKey-discrete, total_paid, total_fee, total_rounding, find_solution, mark_paid, add_to,
  share_rows_of, share_data, sum_values, unpaid, pay_miner, pay_miners, pay_all, settled, add_stats,
  stats_in_range, pay_shares, procedure, pay_solution,
}
use aleo_pool_server.Payout.Loop.{Event, pass, records, Answer, found, forever}
use aleo_pool_server.Payout.Freezes.{payouts_of, is_paid}
use aleo_pool_server.Payout.Once.{pay_solution_once}
use aleo_pool_server.Payout.Amounts.{
  as_read, all_shares, payouts_for, shares_of, pay_solution-amounts,
}

program : Unit {0}
unfolding dec get insert find_solution mark_paid add_to share_rows_of share_data sum_values unpaid
    pay_miner pay_miners pay_all settled add_stats stats_in_range pay_shares procedure pay_solution
    StatKey-discrete new_solution
program = tt

abbrev solution : Solution ℕ
solution = record {
  id = 4;
  height = some (pos 90);
  reward = some (pos 1000);
  paid = false;
  valid = true;
  commitment = 60;
  checked = 1;
}

abbrev row : ℕ → ℕ → ShareRow ℕ
row address share = record { solution_id = 4; address = address; share = pos share }

abbrev shares : Map ℕ ℕ
shares = (1, 6) ∷ (2, 3) ∷ []

abbrev bank : Bank ℕ ℕ
bank = record {
  database = record { solutions = solution ∷ []; next_id = 5; shares = row 1 6 ∷ row 2 3 ∷ [] };
  payouts = [];
  balances = (2, pos 50) ∷ [];
  stats = [];
}

-- 0.995 of the reward
abbrev cut : ℤ → ℤ
cut (pos n) = pos (n * 995 / 1000)
cut (negsuc n) = negsuc n

paid_run : (pay_solution dec cut no_fault bank 4).0.balances ≡ (2, pos 380) ∷ (1, pos 660) ∷ []
unfolding program
paid_run = refl

paid_ok : (pay_solution dec cut no_fault bank 4).1 ≡ ok
unfolding program
paid_ok = refl

abbrev answers : ℕ → Answer
answers id = record {
  reply = found (some 90) (some 1000);
  check_fault = no_fault;
  pay_fault = no_fault;
}

abbrev events : List (Event {Commitment = ℕ} {Owner = ℕ} dec dec)
events = pass no_fault answers ∷ records no_fault 61 shares ∷ pass at_connect answers ∷ []

pay_solution_once_example :
    let paid = (pay_solution dec cut no_fault bank 4).0 in
    (b' : Bank ℕ ℕ) × (forever dec dec cut events paid ≡ done b')
    × (is_paid 4 b' ≡ true)
    × (payouts_of 4 b'.payouts ≡ payouts_of 4 paid.payouts)
pay_solution_once_example = pay_solution_once dec dec cut no_fault 4 bank events paid_ok

found_run : find_solution 4 bank.database.solutions ≡ some solution
unfolding program
found_run = refl

table_run : share_data dec [] (share_rows_of dec 4 bank.database.shares) ≡ as_read shares
unfolding program
table_run = refl

pay_solution-amounts_example :
    let b' = (pay_solution dec cut no_fault bank 4).0 in
    let per_share = 995 / all_shares shares in
    let paid = per_share * all_shares shares in
    let value = unpaid StatKey-discrete in
    (b'.payouts ≡ bank.payouts ++ payouts_for 4 per_share shares)
    × ((a : ℕ)
        → unpaid dec a b'.balances
          ≡ unpaid dec a bank.balances +ℤ pos (per_share * shares_of dec a shares))
    × (paid ≤ 995)
    × (995 - paid < all_shares shares)
    × (value total_paid b'.stats ≡ value total_paid bank.stats +ℤ pos paid)
    × (value total_fee b'.stats ≡ value total_fee bank.stats +ℤ pos (1000 - 995))
    × (value total_rounding b'.stats ≡ value total_rounding bank.stats +ℤ pos (995 - paid))
pay_solution-amounts_example =
    pay_solution-amounts dec cut 4 bank solution shares 1000 995 found_run refl refl (omega arith)
      table_run paid_ok
