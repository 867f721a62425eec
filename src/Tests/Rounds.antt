-- ===== src/Tests/Rounds.antt =====
-- The accounting task with the window of the tests.
use aleo_pool_server.Prelude.{
  ℕ, ◌-◌, ◌≡◌, refl, List, [], ◌∷◌, ◌++◌, none, some, arith, true, false, ltb, if◌then◌else◌, All,
  done,
}
use native.Mathlib.Decide.{ℕ_discrete as dec}
use aleo_pool_server.Map.{get}
use aleo_pool_server.Cache
use aleo_pool_server.Database.{no_fault, in_transaction}
use aleo_pool_server.Pplns.{Pplns}
use aleo_pool_server.Accounting
use aleo_pool_server.Accounting.{
  Accounting, AccountingMessage, Outside, new_share, set_n, new_solution, exit, null, start, load,
  run, current_round, pplns_to_provers_shares, round_cache_duration, save, process,
}
use aleo_pool_server.Accounting.Round.{current_round_age}
use aleo_pool_server.Accounting.History.{IsBounded, IsSound, run-IsSound, run_exit-load}
use aleo_pool_server.Tests.Window.{window, window-IsValid}
use aleo_pool_server.Tests.Stores.{stored}

abbrev pub fine : Outside
fine = record { fault = no_fault; writable = true }

abbrev broken : Outside
broken = record { fault = in_transaction; writable = true }

abbrev messages : List (Outside × AccountingMessage ℕ ℕ)
messages =
    (fine, set_n 8)
    ∷ (fine, new_share 3 5)
    ∷ (broken, new_solution 80)
    ∷ (fine, new_solution 80)
    ∷ []

abbrev accounting : Accounting ℕ ℕ
accounting = record {
  pplns = window;
  database = stored;
  round_cache = record { duration = round_cache_duration; instants = []; values = [] };
  saved = none;
  exit_lock = false;
  closed = false;
}

pub window-IsSound : IsSound window
window-IsSound = record { valid = window-IsValid; small = omega arith }

messages-IsBounded : All (λ e. IsBounded {Commitment = ℕ} {Owner = ℕ} e.1) messages
messages-IsBounded = (omega arith, (omega arith, (tt, (tt, tt))))

run-IsSound_example :
    (s' : Accounting ℕ ℕ) × (run dec messages accounting ≡ done s') × IsSound s'.pplns
run-IsSound_example = run-IsSound dec messages accounting messages-IsBounded window-IsSound

loaded-IsSound : IsSound (load (some window))
unfolding load
loaded-IsSound = window-IsSound

run_exit-load_example :
    (s s' : Accounting ℕ ℕ) × (run dec messages (start (some window) stored) ≡ done s)
    × (run dec (messages ++ (fine, exit) ∷ []) (start (some window) stored) ≡ done s')
    × (load s'.saved ≡ s.pplns)
    × (s'.pplns ≡ s.pplns)
    × (s'.exit_lock ≡ true)
    × (s'.closed ≡ true)
run_exit-load_example =
    run_exit-load dec (some window) stored messages fine messages-IsBounded loaded-IsSound refl

abbrev no_shares : Pplns ℕ
no_shares = record { queue = []; current_n = 0; n = 0 }

cold : Cache.get Accounting.Null-discrete 5 accounting.round_cache null ≡ none
unfolding Cache.get Accounting.Null-discrete get
cold = refl

current_round_age_example :
    let (first, s') = current_round dec 5 accounting in
    let (second, _) = current_round dec 15 (record s' { pplns = no_shares }) in
    let stale = ltb round_cache_duration (15 - 5) in
    let table = pplns_to_provers_shares dec (if stale then no_shares else window) in
    (second.provers ≡ table.0)
    × (second.shares ≡ table.1)
    × (second.n ≡ no_shares.n)
    × (second.current_n ≡ no_shares.current_n)
current_round_age_example = current_round_age dec 5 15 accounting no_shares cold refl
