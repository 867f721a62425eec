-- ===== src/Tests/Stores.antt =====
-- A cache, and a database with one solution.
use aleo_pool_server.Prelude.{
  ℕ, ◌-◌, ◌≡◌, ◌≢◌, List, [], ◌∷◌, none, some, false, done, ltb, if◌then◌else◌, All,
}
use native.Mathlib.Decide.{ℕ_discrete as dec}
use aleo_pool_server.Cache.{get}
use aleo_pool_server.Cache.Reads.{Write, newest, replay, get-replay}
use aleo_pool_server.Database.{Database, no_fault, ok, new_solution, select, set_solution_valid}
use aleo_pool_server.Database.Validity.{set_solution_valid_thrice}

abbrev write : ℕ → ℕ → ℕ → Write ℕ ℕ
write time key value = record { time = time; key = key; value = value }

abbrev writes : List (Write ℕ ℕ)
writes = write 30 1 300 ∷ write 20 2 200 ∷ write 10 1 100 ∷ []

get-replay_example : get dec 35 (replay dec 10 writes) 1 ≡ elim (newest dec 1 writes) [
  | none ↦ none
  | some w ↦ if ltb 10 (35 - w.time) then none else some w.value
]
get-replay_example = get-replay dec 35 10 1 writes

abbrev pub stored : Database ℕ ℕ
stored = record { solutions = new_solution 2 70 ∷ new_solution 1 60 ∷ []; next_id = 3; shares = [] }

set_solution_valid_thrice_example :
    (d₁ d₂ d₃ : Database ℕ ℕ) × (set_solution_valid dec no_fault stored 70 false none none
      ≡ done (d₁, ok))
    × (set_solution_valid dec no_fault d₁ 70 false none none ≡ done (d₂, ok))
    × (set_solution_valid dec no_fault d₂ 70 false none none ≡ done (d₃, ok))
    × All (λ r. r.commitment ≢ 70) (select d₃.solutions)
set_solution_valid_thrice_example = set_solution_valid_thrice dec stored 70
