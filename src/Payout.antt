-- ===== src/Payout.antt =====
-- The payment of solutions: `pay_solution` of src/db.rs with the stored procedure of pg_dump.sql, and
-- `check_solution` and `payout_loop` of src/accounting.rs. A failing statement aborts the procedure and
-- undoes what it did.
pub mod Loop
pub mod Settles
pub mod Freezes
pub mod Queue
pub mod Blocked
pub mod Stalls
pub mod Once
pub mod Amounts
use aleo_pool_server.Prelude.{
  ℕ, ◌&&◌, Bool, true, false, List, [], ◌∷◌, ◌++◌, map, Option, none, some, if◌then◌else◌, ◌==◌,
  ite, ℤ, pos, ◌+ℤ◌, ◌-ℤ◌, ◌*ℤ◌, floor_div, is_bigint, refl,
}
use aleo_pool_server.Map
use aleo_pool_server.Map.{Map}
use aleo_pool_server.Database.{
  Solution, ShareRow, Database, Fault, no_fault, at_connect, in_transaction, Status, ok, error,
}

pub record PayoutRow (Owner : Type 0) : Type 0 where
  pub solution_id : ℕ
  pub address : Owner
  pub amount : ℤ

pub data StatKey : Type 0 where
  total_paid : StatKey
  total_fee : StatKey
  total_rounding : StatKey

unfoldable pub StatKey-discrete : Discrete StatKey
StatKey-discrete total_paid total_paid = yes refl
StatKey-discrete total_fee total_fee = yes refl
StatKey-discrete total_rounding total_rounding = yes refl
StatKey-discrete total_paid total_fee = no (λ e. cc)
StatKey-discrete total_paid total_rounding = no (λ e. cc)
StatKey-discrete total_fee total_paid = no (λ e. cc)
StatKey-discrete total_fee total_rounding = no (λ e. cc)
StatKey-discrete total_rounding total_paid = no (λ e. cc)
StatKey-discrete total_rounding total_fee = no (λ e. cc)

-- The database with the tables `payout`, `balance` (its column `unpaid`) and `stats`.
pub record Bank (Commitment Owner : Type 0) : Type 0 where
  pub database : Database Commitment Owner
  pub payouts : List (PayoutRow Owner)
  pub balances : Map Owner ℤ
  pub stats : Map StatKey ℤ

-- `SELECT * FROM solution WHERE id = ...`, the first row.
unfoldable pub find_solution :
    {Commitment : Type 0} → ℕ → List (Solution Commitment) → Option (Solution Commitment)
find_solution id [] = none
find_solution id (s ∷ rows) = if s.id == id then some s else find_solution id rows

-- `UPDATE solution SET paid = true WHERE id = $1`
unfoldable pub mark_paid : {Commitment : Type 0} → ℕ → Solution Commitment → Solution Commitment
mark_paid id s = if s.id == id then record s { paid = true } else s

-- `INSERT ... ON CONFLICT DO UPDATE SET value = value + $2`
unfoldable pub add_to : {K : Type 0} → Discrete K → K → ℤ → Map K ℤ → Map K ℤ
add_to dec key amount m = elim (Map.get dec key m) [
  | none ↦ Map.insert dec key amount m
  | some value ↦ Map.insert dec key (value +ℤ amount) m
]

module _ {Owner : Type 0} (dec : Discrete Owner) where
  -- The rows of `SELECT * FROM share WHERE solution_id = ...`.
  unfoldable pub share_rows_of : ℕ → List (ShareRow Owner) → List (ShareRow Owner)
  share_rows_of id [] = []
  share_rows_of id (row ∷ rows) =
      if row.solution_id == id then row ∷ share_rows_of id rows else share_rows_of id rows

  -- `data[share["address"]] = share["share"]`
  unfoldable pub share_data : Map Owner ℤ → List (ShareRow Owner) → Map Owner ℤ
  share_data data_ [] = data_
  share_data data_ (row ∷ rows) = share_data (Map.insert dec row.address row.share data_) rows

-- `sum(data.values())`
unfoldable pub sum_values : {Owner : Type 0} → Map Owner ℤ → ℤ
sum_values [] = pos 0
sum_values (e ∷ m) = e.1 +ℤ sum_values m

-- The state of the loop over the miners: the tables, and `paid`.
pub record Paying (Owner : Type 0) : Type 0 where
  pub payouts : List (PayoutRow Owner)
  pub balances : Map Owner ℤ
  pub paid : ℤ
  -- Whether every value was a `bigint` so far.
  pub in_range : Bool

module _ {Owner : Type 0} (dec : Discrete Owner) where
  -- The number in a table; 0 if there is none.
  unfoldable pub unpaid : Owner → Map Owner ℤ → ℤ
  unpaid a m = elim (Map.get dec a m) [ none ↦ pos 0 | some value ↦ value ]

  -- One round of the loop: the payout and the balance.
  unfoldable pub pay_miner : ℕ → ℤ → Owner × ℤ → Paying Owner → Paying Owner
  pay_miner id reward_per_share (miner, share) p =
      let amount = reward_per_share *ℤ share in
      let balances = add_to dec miner amount p.balances in
      record {
        payouts = p.payouts ++ record { solution_id = id; address = miner; amount = amount } ∷ [];
        balances = balances;
        paid = p.paid +ℤ amount;
        in_range = p.in_range && (is_bigint amount && is_bigint (unpaid miner balances));
      }

  unfoldable pub pay_miners : ℕ → ℤ → Map Owner ℤ → Paying Owner → Paying Owner
  pay_miners id reward_per_share [] p = p
  pay_miners id reward_per_share (e ∷ shares) p =
      pay_miners id reward_per_share shares (pay_miner id reward_per_share e p)

-- The three statistics.
unfoldable pub add_stats : ℤ → ℤ → ℤ → Map StatKey ℤ → Map StatKey ℤ
add_stats raw_reward reward paid stats = add_to StatKey-discrete total_rounding (reward -ℤ paid) (
    add_to StatKey-discrete total_fee (raw_reward -ℤ reward)
      (add_to StatKey-discrete total_paid paid stats))

unfoldable pub stats_in_range : Map StatKey ℤ → Bool
stats_in_range [] = true
stats_in_range (e ∷ m) = is_bigint e.1 && stats_in_range m

module _ {Commitment Owner : Type 0} (dec : Discrete Owner) where
  -- The miners paid, from the tables of a bank.
  unfoldable pub pay_all : ℕ → ℤ → Map Owner ℤ → Bank Commitment Owner → Paying Owner
  pay_all id reward_per_share shares b =
      pay_miners dec id reward_per_share shares
        (record { payouts = b.payouts; balances = b.balances; paid = pos 0; in_range = true })

  -- The bank after all statements.
  unfoldable pub settled :
      ℕ → ℤ → ℤ → ℤ → Map Owner ℤ → Bank Commitment Owner → Bank Commitment Owner
  settled id raw_reward reward reward_per_share shares b =
      let p = pay_all id reward_per_share shares b in
      record {
        database = record b.database { solutions = map (λ s. mark_paid id s) b.database.solutions };
        payouts = p.payouts;
        balances = p.balances;
        stats = add_stats raw_reward reward p.paid b.stats;
      }

  -- The part of the procedure behind the division: its statements, or an error.
  unfoldable pub pay_shares :
      ℕ → ℤ → ℤ → ℤ → Map Owner ℤ → Bank Commitment Owner → Bank Commitment Owner × Status
  pay_shares id raw_reward reward reward_per_share shares b =
      let after = settled id raw_reward reward reward_per_share shares b in
      if (pay_all id reward_per_share shares b).in_range && stats_in_range after.stats
      then (after, ok)
      else (b, error)

  -- The procedure; `cut` is `int(raw_reward * 0.995)` in floating point.
  unfoldable pub procedure : (ℤ → ℤ) → ℕ → Bank Commitment Owner → Bank Commitment Owner × Status
  procedure cut id b = elim (find_solution id b.database.solutions) [
    | none ↦ (b, error)
    | some solution ↦
        if solution.paid then (b, error) else elim (share_rows_of dec id b.database.shares) [
          | [] ↦ (b, error)
          | row ∷ rows ↦ elim solution.reward [
            | none ↦ (b, error)
            | some raw_reward ↦
                let shares = share_data dec [] (row ∷ rows) in
                elim (floor_div (cut raw_reward) (sum_values shares)) [
                  | none ↦ (b, error)
                  | some reward_per_share ↦
                      pay_shares id raw_reward (cut raw_reward) reward_per_share shares b
                ]
          ]
        ]
  ]

  unfoldable pub pay_solution :
      (ℤ → ℤ) → Fault → Bank Commitment Owner → ℕ → Bank Commitment Owner × Status
  pay_solution cut no_fault b id = procedure cut id b
  pay_solution cut at_connect b id = (b, error)
  pay_solution cut in_transaction b id = (b, error)
