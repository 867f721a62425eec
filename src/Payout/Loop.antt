-- ===== src/Payout/Loop.antt =====
-- `check_solution` and `payout_loop` of src/accounting.rs.
use aleo_pool_server.Prelude.{
  ℕ, ◌%◌, true, false, List, [], ◌∷◌, Option, none, some, ℤ, u32_mod, Outcome, done, ◌>>=◌,
}
use aleo_pool_server.Map.{Map}
use aleo_pool_server.Database.{
  Database, Fault, Status, ok, error, save_solution, set_solution_valid, get_should_pay_solutions,
}
use aleo_pool_server.Payout.{Bank, pay_solution}

-- What the explorer answers: nothing readable, null, or an object with its `height` and `reward`, which
-- may be missing or no numbers.
pub data Reply : Type 0 where
  unreadable : Reply
  null : Reply
  found : Option ℕ → Option ℕ → Reply

-- What the outside does while one solution is handled.
pub record Answer : Type 0 where
  pub reply : Reply
  pub check_fault : Fault
  pub pay_fault : Fault

-- `Result<bool>`.
pub data Validity : Type 0 where
  is_valid : Validity
  is_invalid : Validity
  unknown : Validity

module _ {Commitment Owner : Type 0} (dec : Discrete Commitment) (dec_owner : Discrete Owner) where
  -- `.await?` on `set_solution_valid`, and `Ok(is_valid)`.
  unfoldable pub checked :
      Bank Commitment Owner
      → Validity
      → Database Commitment Owner × Status
      → Bank Commitment Owner × Validity
  checked b valid (database, ok) = (record b { database = database }, valid)
  checked b valid (database, error) = (record b { database = database }, unknown)

  unfoldable pub check_solution :
      Fault
      → Reply
      → Bank Commitment Owner
      → Commitment
      → Outcome (Bank Commitment Owner × Validity)
  check_solution fault unreadable b commitment = done (b, unknown)
  check_solution fault null b commitment = do
    r ← set_solution_valid dec fault b.database commitment false none none
    done (checked b is_invalid r)
  check_solution fault (found none reward) b commitment = done (b, unknown)
  check_solution fault (found (some height) none) b commitment = done (b, unknown)
  check_solution fault (found (some height) (some reward)) b commitment = do
    r ←
        set_solution_valid dec fault b.database commitment true (some (height % u32_mod))
          (some reward)
    done (checked b is_valid r)

  -- What follows a payment, and a check, in the loop over the solutions: an error ends it.
  unfoldable pub after_pay :
      (Bank Commitment Owner → Outcome (Bank Commitment Owner))
      → Bank Commitment Owner × Status
      → Outcome (Bank Commitment Owner)
  after_pay rest (b, ok) = rest b
  after_pay rest (b, error) = done b

  unfoldable pub after_check :
      (ℤ → ℤ)
      → Fault
      → ℕ
      → (Bank Commitment Owner → Outcome (Bank Commitment Owner))
      → Bank Commitment Owner
      → Validity
      → Outcome (Bank Commitment Owner)
  after_check cut fault id rest b unknown = done b
  after_check cut fault id rest b is_invalid = rest b
  after_check cut fault id rest b is_valid = after_pay rest (pay_solution dec_owner cut fault b id)

  unfoldable pub pay_blocks :
      (ℤ → ℤ)
      → (ℕ → Answer)
      → List (ℕ × Commitment)
      → Bank Commitment Owner
      → Outcome (Bank Commitment Owner)
  pay_blocks cut answers [] b = done b
  pay_blocks cut answers ((id, commitment) ∷ blocks) b = do
    (b', valid) ← check_solution (answers id).check_fault (answers id).reply b commitment
    after_check cut (answers id).pay_fault id (λ b. pay_blocks cut answers blocks b) b' valid

  -- One pass of `'forever`, up to a sleep.
  unfoldable pub payout_pass :
      (ℤ → ℤ) → Fault → (ℕ → Answer) → Bank Commitment Owner → Outcome (Bank Commitment Owner)
  payout_pass cut fault answers b = elim (get_should_pay_solutions fault b.database) [
    | none ↦ done b
    | some blocks ↦ pay_blocks cut answers blocks b
  ]

  -- What changes the tables: a pass of the loop, and a solution that the accounting task records.
  pub data Event : Type 0 where
    pass : Fault → (ℕ → Answer) → Event
    records : Fault → Commitment → Map Owner ℕ → Event

  unfoldable pub happen : (ℤ → ℤ) → Bank Commitment Owner → Event → Outcome (Bank Commitment Owner)
  happen cut b (pass fault answers) = payout_pass cut fault answers b
  happen cut b (records fault commitment shares) =
      let (database, status) = save_solution fault b.database commitment shares in
      done (record b { database = database })

  -- `'forever`, while solutions are recorded.
  unfoldable pub forever :
      (ℤ → ℤ) → List Event → Bank Commitment Owner → Outcome (Bank Commitment Owner)
  forever cut [] b = done b
  forever cut (event ∷ events) b = do b' ← happen cut b event; forever cut events b'
