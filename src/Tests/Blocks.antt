-- ===== src/Tests/Blocks.antt =====
-- Two solutions of the toy database: the first has no shares, the second one waits behind it.
use aleo_pool_server.Prelude.{
  ℕ, ◌≡◌, refl, List, [], ◌∷◌, some, true, false, ℤ, pos, negsuc, ◌*◌, ◌/◌, arith, done,
}
use native.Mathlib.Decide.{ℕ_discrete as dec}
use aleo_pool_server.Database.{Solution, no_fault, at_connect, should_pay}
use aleo_pool_server.Payout.{Bank, share_rows_of}
use aleo_pool_server.Payout.Loop.{Event, pass, records, Answer, found, unreadable, forever}
use aleo_pool_server.Payout.Blocked.{IsBlocked, IsUnpaid}
use aleo_pool_server.Payout.Stalls.{forever-IsUnpaid}

abbrev solution : ℕ → ℕ → Solution ℕ
solution id commitment = record {
  id = id;
  height = some (pos 90);
  reward = some (pos 1000);
  paid = false;
  valid = true;
  commitment = commitment;
  checked = 1;
}

abbrev bank : Bank ℕ ℕ
bank = record {
  database = record {
    solutions = solution 4 60 ∷ solution 5 61 ∷ [];
    next_id = 6;
    shares = record { solution_id = 5; address = 1; share = pos 6 } ∷ [];
  };
  payouts = [];
  balances = (2, pos 50) ∷ [];
  stats = [];
}

abbrev cut : ℤ → ℤ
cut (pos n) = pos (n * 995 / 1000)
cut (negsuc n) = negsuc n

abbrev answers : ℕ → Answer
answers id = record {
  reply = found (some 90) (some 1000);
  check_fault = no_fault;
  pay_fault = no_fault;
}

abbrev silent : ℕ → Answer
silent id = record { reply = unreadable; check_fault = no_fault; pay_fault = no_fault }

abbrev events : List (Event {Commitment = ℕ} {Owner = ℕ} dec dec)
events =
    pass no_fault answers
    ∷ records no_fault 62 ((1, 3) ∷ [])
    ∷ pass no_fault silent
    ∷ pass at_connect answers
    ∷ []

bank-IsBlocked : IsBlocked dec dec cut 4 bank
unfolding should_pay share_rows_of
bank-IsBlocked = record {
  waits = refl;
  first = (refl, (refl, tt));
  shareless = refl;
  recent = omega arith;
}

forever-IsUnpaid_example :
    (b' : Bank ℕ ℕ) × (forever dec dec cut events bank ≡ done b') × IsUnpaid dec dec cut 4 bank b'
forever-IsUnpaid_example =
    forever-IsUnpaid dec dec cut 4 events bank (tt, (tt, (tt, (tt, tt)))) bank-IsBlocked
