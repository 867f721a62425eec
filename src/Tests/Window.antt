-- ===== src/Tests/Window.antt =====
-- A window of size 10 with shares of three provers.
use aleo_pool_server.Prelude.{
  ℕ, ◌≡◌, refl, List, [], ◌∷◌, ◌++◌, arith, add64, sub64, done, panic, length, ◌%◌, u32_mod,
}
use native.Mathlib.Decide.{ℕ_discrete as dec}
use aleo_pool_server.Map.{get}
use aleo_pool_server.Pplns.{Share, Pplns, shrink, add_share}
use aleo_pool_server.Pplns.Window.{IsWindow}
use aleo_pool_server.Pplns.Invariant.{IsValid}
use aleo_pool_server.Pplns.History.{add_shares, add_shares-IsWindow}
use aleo_pool_server.Accounting.{pplns_to_provers_shares}
use aleo_pool_server.Accounting.Shares.{
  earned, paid_to_all, owners, get-pplns_to_provers_shares, pplns_to_provers_shares_total,
}

abbrev share : ℕ → ℕ → Share ℕ
share value owner = record { value = value; owner = owner }

abbrev pub window : Pplns ℕ
window = record { queue = share 4 1 ∷ share 3 2 ∷ share 2 1 ∷ []; current_n = 9; n = 10 }

pub window-IsValid : IsValid window
window-IsValid = record { counted = refl; within = omega arith; bounded = omega arith }

-- two old shares have to go for the new one
add_share_run :
    add_share window (share 5 3)
    ≡ done (record { queue = share 3 2 ∷ share 2 1 ∷ share 5 3 ∷ []; current_n = 10; n = 10 })
unfolding add_share shrink add64 sub64
add_share_run = refl

-- a counter above an empty queue would panic
shrink_empty : shrink {Owner = ℕ} 3 [] 4 ≡ panic
unfolding shrink
shrink_empty = refl

add_shares-IsWindow_example :
    (p' : Pplns ℕ) × (dropped : List (Share ℕ)) × (add_shares window (share 5 3 ∷ share 6 1 ∷ [])
      ≡ done p')
    × IsWindow 10 (window.queue ++ share 5 3 ∷ share 6 1 ∷ []) p'.queue dropped
    × IsValid p'
add_shares-IsWindow_example =
    add_shares-IsWindow window (share 5 3 ∷ share 6 1 ∷ []) window-IsValid (omega arith)

get-pplns_to_provers_shares_example :
    get dec 1 (pplns_to_provers_shares dec window).1 ≡ earned dec 1 window.queue
get-pplns_to_provers_shares_example = get-pplns_to_provers_shares dec window 1 window-IsValid

pplns_to_provers_shares_total_example :
    (paid_to_all (pplns_to_provers_shares dec window).1 ≡ 9)
    × ((pplns_to_provers_shares dec window).0 ≡ length (owners dec [] window.queue) % u32_mod)
pplns_to_provers_shares_total_example = pplns_to_provers_shares_total dec window window-IsValid
