-- ===== src/Payout/Settles.antt =====
-- When the procedure changes anything, and to what.
use aleo_pool_server.Prelude.{
  ℕ, ◌≡◌, false, [], some, Bool-cases, Option-cases, List-cases, inl, inr, ℤ, floor_div, arith,
  ◌&&◌,
}
use aleo_pool_server.Database.{Solution, ok, error}
use aleo_pool_server.Payout.{
  Bank, find_solution, pay_all, settled, pay_shares, procedure, share_rows_of, share_data,
  sum_values, stats_in_range,
}

module _ {Commitment Owner : Type 0} where
  module _ (dec : Discrete Owner) (cut : ℤ → ℤ) where
    -- The procedure changes nothing, or the solution was not paid and is settled.
    pub data Settles (id : ℕ) (b : Bank Commitment Owner) : Type 0 where
      aborts : procedure dec cut id b ≡ (b, error) → Settles id b
      settles :
          (s : Solution Commitment) (raw per_share : ℤ)
          → find_solution id b.database.solutions ≡ some s
          → s.paid ≡ false
          → s.reward ≡ some raw
          → (let shares = share_data dec [] (share_rows_of dec id b.database.shares) in
              (floor_div (cut raw) (sum_values shares) ≡ some per_share)
              × (procedure dec cut id b ≡ (settled dec id raw (cut raw) per_share shares b, ok)))
          → Settles id b

    unpaid_cases :
        (id : ℕ) (b : Bank Commitment Owner) (s : Solution Commitment) (raw : ℤ)
        → find_solution id b.database.solutions ≡ some s
        → s.paid ≡ false
        → s.reward ≡ some raw
        → Settles id b
    unfolding procedure pay_shares
    unpaid_cases id b s raw e unpaid r =
        let rows = share_rows_of dec id b.database.shares in
        let shares = share_data dec [] rows in
        elim (List-cases rows) [
          | inl none' ↦ aborts (ground (arith, none'))
          | inr (row, more, some') ↦ elim (Option-cases (floor_div (cut raw) (sum_values shares))) [
            | inl zero' ↦ aborts (ground (arith, some', zero'))
            | inr (per_share, f) ↦
                elim (Bool-cases (
                  (pay_all dec id per_share shares b).in_range
                  && stats_in_range (settled dec id raw (cut raw) per_share shares b).stats)) [
                    | inl within ↦
                        settles s raw per_share e unpaid r (f, ground (arith, some', f, within))
                    | inr outside ↦ aborts (ground (arith, some', f, outside))
                  ]
          ]
        ]

    pub procedure-Settles : (id : ℕ) (b : Bank Commitment Owner) → Settles id b
    unfolding procedure pay_shares
    procedure-Settles id b = elim (Option-cases (find_solution id b.database.solutions)) [
      | inl e ↦ aborts (ground arith)
      | inr (s, e) ↦ elim (Bool-cases s.paid) [
        | inl paid ↦ aborts (ground arith)
        | inr unpaid ↦ elim (Option-cases s.reward) [
          | inl r ↦ elim (List-cases (share_rows_of dec id b.database.shares)) [
            | inl none' ↦ aborts (ground (arith, none'))
            | inr (row, rows, some') ↦ aborts (ground (arith, some'))
          ]
          | inr (raw, r) ↦ unpaid_cases id b s raw e unpaid r
        ]
      ]
    ]
