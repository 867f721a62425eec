-- ===== src/Database.antt =====
-- The database of src/db.rs: the tables `solution` and `share` of pg_dump.sql and the
-- statements that src/db.rs sends. A transaction that fails is rolled back; where it may fail is the
-- argument `Fault`. A sequence is not rolled back.
pub mod Validity
use aleo_pool_server.Prelude.{
  ℕ, ◌+◌, Bool, true, false, not, ◌&&◌, ◌||◌, List, [], ◌∷◌, ◌++◌, map, Option, none, some, ltb,
  leb, if◌then◌else◌, ite, ℤ, as_i64, Outcome, done, panic,
}
use aleo_pool_server.Map.{Map}

pub record Solution (Commitment : Type 0) : Type 0 where
  pub id : ℕ
  pub height : Option ℤ
  pub reward : Option ℤ
  pub paid : Bool
  pub valid : Bool
  pub commitment : Commitment
  pub checked : ℕ

pub record ShareRow (Owner : Type 0) : Type 0 where
  pub solution_id : ℕ
  pub address : Owner
  pub share : ℤ

pub record Database (Commitment Owner : Type 0) : Type 0 where
  pub solutions : List (Solution Commitment)
  pub next_id : ℕ
  pub shares : List (ShareRow Owner)

-- Where a transaction fails, if it does: before its first statement took effect, or later.
pub data Fault : Type 0 where
  no_fault : Fault
  at_connect : Fault
  in_transaction : Fault

pub data Status : Type 0 where
  ok : Status
  error : Status

module _ {Commitment : Type 0} where
  -- `INSERT INTO solution (commitment) VALUES ($1) RETURNING id`, with the defaults of the table.
  unfoldable pub new_solution : ℕ → Commitment → Solution Commitment
  new_solution id commitment = record {
    id = id;
    height = none;
    reward = none;
    paid = false;
    valid = false;
    commitment = commitment;
    checked = 0;
  }

unfoldable pub share_rows : {Owner : Type 0} → ℕ → Map Owner ℕ → List (ShareRow Owner)
share_rows id shares =
    map (λ e. record { solution_id = id; address = e.0; share = as_i64 e.1 }) shares

module _ {Commitment Owner : Type 0} where
  unfoldable pub save_solution :
      Fault
      → Database Commitment Owner
      → Commitment
      → Map Owner ℕ
      → Database Commitment Owner × Status
  save_solution no_fault db commitment shares =
      let id = db.next_id in
      (
        record db {
          solutions = db.solutions ++ new_solution id commitment ∷ [];
          next_id = id + 1;
          shares = db.shares ++ share_rows id shares;
        },
        ok,
      )
  save_solution at_connect db commitment shares = (db, error)
  save_solution in_transaction db commitment shares =
      (record db { next_id = db.next_id + 1 }, error)

module _ {Commitment : Type 0} (dec : Discrete Commitment) where
  -- `UPDATE solution SET valid = $1, checked = checked + 1 WHERE commitment = $2`
  unfoldable pub mark_checked : Commitment → Bool → Solution Commitment → Solution Commitment
  mark_checked commitment valid s =
      ite (dec s.commitment commitment) (record s { valid = valid; checked = s.checked + 1 }) s

  -- `UPDATE solution SET height = $1, reward = $2 WHERE commitment = $3`
  unfoldable pub set_reward : Commitment → ℤ → ℤ → Solution Commitment → Solution Commitment
  set_reward commitment height reward s =
      ite (dec s.commitment commitment) (record s { height = some height; reward = some reward }) s

module _ {Commitment Owner : Type 0} (dec : Discrete Commitment) where
  -- The transaction of `set_solution_valid`; `unwrap` panics if a valid solution comes without its
  -- height or its reward.
  unfoldable pub set_solution_valid :
      Fault
      → Database Commitment Owner
      → Commitment
      → Bool
      → Option ℕ
      → Option ℕ
      → Outcome (Database Commitment Owner × Status)
  set_solution_valid at_connect db commitment valid height reward = done (db, error)
  set_solution_valid in_transaction db commitment valid height reward = done (db, error)
  set_solution_valid no_fault db commitment true (some height) (some reward) = done (
    record db {
      solutions =
          map (λ s. set_reward dec commitment (as_i64 height) (as_i64 reward) s)
            (map (λ s. mark_checked dec commitment true s) db.solutions);
    },
    ok,
  )
  set_solution_valid no_fault db commitment true none reward = panic
  set_solution_valid no_fault db commitment true (some height) none = panic
  set_solution_valid no_fault db commitment false height reward =
      done
        (record db { solutions = map (λ s. mark_checked dec commitment false s) db.solutions }, ok)

module _ {Commitment : Type 0} where
  -- `WHERE paid = false AND ((valid = false AND checked < 3) OR valid = true)`
  unfoldable pub should_pay : Solution Commitment → Bool
  should_pay s = not s.paid && ((not s.valid && ltb s.checked 3) || s.valid)

  unfoldable pub select : List (Solution Commitment) → List (Solution Commitment)
  select [] = []
  select (s ∷ rows) = let rest = select rows in if should_pay s then s ∷ rest else rest

  -- `ORDER BY id`
  unfoldable pub place :
      Solution Commitment → List (Solution Commitment) → List (Solution Commitment)
  place s [] = s ∷ []
  place s (r ∷ rows) = if leb s.id r.id then s ∷ r ∷ rows else r ∷ place s rows

  unfoldable pub order_by_id : List (Solution Commitment) → List (Solution Commitment)
  order_by_id [] = []
  order_by_id (s ∷ rows) = place s (order_by_id rows)

unfoldable pub get_should_pay_solutions :
    {Commitment Owner : Type 0} → Fault → Database Commitment Owner → Option (List (ℕ × Commitment))
get_should_pay_solutions no_fault db =
    some (map (λ s. (s.id, s.commitment)) (order_by_id (select db.solutions)))
get_should_pay_solutions at_connect db = none
get_should_pay_solutions in_transaction db = none
