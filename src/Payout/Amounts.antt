-- ===== src/Payout/Amounts.antt =====
-- Where the reward of a solution goes: to the miners by their shares, to the fee, and to the rounding.
use aleo_pool_server.Prelude.{
  ℕ, ◌+◌, ◌-◌, ◌*◌, ◌/◌, ◌≤◌, ◌<◌, ◌≡◌, refl, sym, ap, ◌∙◌, List, [], ◌∷◌, ◌++◌, map, some, sum_by,
  zero-add_int, sub_int, add_int_assoc, add_int_zero, floor_div-some, ℤ, pos, ◌+ℤ◌, ◌-ℤ◌, floor_div,
  arith, ite, true, inl, inr, Option-cases,
}
use mathlib.Core.List.{append-nil, append_assoc}
use native.Mathlib.Nat.{mul-add, div-mul-le_self, lt-div-mul-add}
use aleo_pool_server.Map.{Map, get}
use aleo_pool_server.Map.Laws.{get-insert}
use aleo_pool_server.Database.{Solution, no_fault, ok}
use aleo_pool_server.Payout.{
  PayoutRow, StatKey, total_paid, total_fee, total_rounding, StatKey-discrete, Bank, Paying,
  find_solution, add_to, pay_miner, pay_miners, pay_all, settled, pay_solution, procedure,
  share_rows_of, share_data, sum_values, add_stats, unpaid,
}
use aleo_pool_server.Payout.Settles.{aborts, settles, procedure-Settles}

module _ {Owner : Type 0} where
  -- A table of shares as the procedure reads it.
  abbrev pub as_read : Map Owner ℕ → Map Owner ℤ
  as_read = map (λ e. (e.0, pos e.1))

  abbrev pub all_shares : Map Owner ℕ → ℕ
  all_shares = sum_by (λ e. e.1)

  -- The payouts of shares at so much for each.
  abbrev pub payouts_for : ℕ → ℕ → Map Owner ℕ → List (PayoutRow Owner)
  payouts_for id per_share =
      map (λ e. record { solution_id = id; address = e.0; amount = pos (per_share * e.1) })

  sum_values-as_read : (m : Map Owner ℕ) → sum_values (as_read m) ≡ pos (all_shares m)
  unfolding sum_values
  sum_values-as_read [] = refl
  sum_values-as_read (e ∷ m) = rw (sum_values-as_read m) refl

  module _ (dec : Discrete Owner) where
    payouts-pay_miners :
        (id per_share : ℕ) (m : Map Owner ℕ) (p : Paying Owner)
        → (pay_miners dec id (pos per_share) (as_read m) p).payouts
          ≡ p.payouts ++ payouts_for id per_share m
    unfolding pay_miners pay_miner
    payouts-pay_miners id per_share [] p = sym (append-nil p.payouts)
    payouts-pay_miners id per_share (e ∷ m) p =
        payouts-pay_miners id per_share m (pay_miner dec id (pos per_share) (e.0, pos e.1) p)
        ∙ append_assoc p.payouts _ _

    paid-pay_miners :
        (id per_share q : ℕ) (m : Map Owner ℕ) (p : Paying Owner)
        → p.paid ≡ pos q
        → (pay_miners dec id (pos per_share) (as_read m) p).paid
          ≡ pos (q + per_share * all_shares m)
    unfolding pay_miners pay_miner
    paid-pay_miners id per_share q [] p h = h ∙ ap pos (omega arith)
    paid-pay_miners id per_share q (e ∷ m) p h =
        paid-pay_miners id per_share (q + per_share * e.1) m
          (pay_miner dec id (pos per_share) (e.0, pos e.1) p)
          (ap (λ z. z +ℤ pos (per_share * e.1)) h)
        ∙ ap pos (omega (arith, mul-add per_share e.1 (all_shares m)))

-- What one statement does to a number, seen through `unpaid`.
unpaid-add_to :
    {K : Type 0} (dec : Discrete K) (a b : K) (v : ℤ) (m : Map K ℤ)
    → unpaid dec b (add_to dec a v m) ≡ ite (dec a b) (unpaid dec b m +ℤ v) (unpaid dec b m)
unfolding unpaid add_to
unpaid-add_to dec a b v m = elim (Option-cases (get dec a m)) [
  | inl e ↦ ground (arith, e, get-insert dec a b v m, zero-add_int v)
  | inr (old, e) ↦ ground (arith, e, get-insert dec a b (old +ℤ v) m)
]

-- The three numbers of the statistics.
pub stat-add_stats :
    (raw reward paid : ℤ) (stats : Map StatKey ℤ)
    → let after = add_stats raw reward paid stats in
      let value = unpaid StatKey-discrete in
      (value total_paid after ≡ value total_paid stats +ℤ paid)
      × (value total_fee after ≡ value total_fee stats +ℤ (raw -ℤ reward))
      × (value total_rounding after ≡ value total_rounding stats +ℤ (reward -ℤ paid))
unfolding add_stats StatKey-discrete
stat-add_stats raw reward paid stats =
    let up =
      λ (a b : StatKey) (v : ℤ) (m : Map StatKey ℤ). unpaid-add_to StatKey-discrete a b v m in
    let s₁ = add_to StatKey-discrete total_paid paid stats in
    let s₂ = add_to StatKey-discrete total_fee (raw -ℤ reward) s₁ in
    (
      up total_rounding total_paid (reward -ℤ paid) s₂
          ∙ (up total_fee total_paid (raw -ℤ reward) s₁ ∙ up total_paid total_paid paid stats),
      up total_rounding total_fee (reward -ℤ paid) s₂
          ∙ (up total_fee total_fee (raw -ℤ reward) s₁
              ∙ ap (λ z. z +ℤ (raw -ℤ reward)) (up total_paid total_fee paid stats)),
      up total_rounding total_rounding (reward -ℤ paid) s₂
          ∙ ap (λ z. z +ℤ (reward -ℤ paid))
              (up total_fee total_rounding (raw -ℤ reward) s₁
                ∙ up total_paid total_rounding paid stats),
    )

module _ {Owner : Type 0} (dec : Discrete Owner) where
  -- What an owner has in a table of shares.
  abbrev pub shares_of : Owner → Map Owner ℕ → ℕ
  shares_of a = sum_by (λ e. ite (dec e.0 a) e.1 0)

  unpaid-pay_miners :
      (a : Owner) (id per_share : ℕ) (m : Map Owner ℕ) (p : Paying Owner)
      → unpaid dec a (pay_miners dec id (pos per_share) (as_read m) p).balances
        ≡ unpaid dec a p.balances +ℤ pos (per_share * shares_of a m)
  unfolding pay_miners pay_miner
  unpaid-pay_miners a id per_share [] p =
      sym (add_int_zero (unpaid dec a p.balances) (per_share * 0) (omega arith))
  unpaid-pay_miners a id per_share (e ∷ m) p =
      let amount = pos (per_share * e.1) in
      unpaid-pay_miners a id per_share m (pay_miner dec id (pos per_share) (e.0, pos e.1) p)
      ∙ (ap (λ z. z +ℤ pos (per_share * shares_of a m)) (unpaid-add_to dec e.0 a amount p.balances)
          ∙ regroup (dec e.0 a) (unpaid dec a p.balances) (shares_of a m))
    where
      regroup :
          (d : Dec (e.0 ≡ a)) (v : ℤ) (n : ℕ)
          → ite d (v +ℤ pos (per_share * e.1)) v +ℤ pos (per_share * n)
            ≡ v +ℤ pos (per_share * (ite d e.1 0 + n))
      regroup (yes h) v n =
          add_int_assoc v (per_share * e.1) (per_share * n)
          ∙ ap (λ k. v +ℤ pos k) (sym (mul-add per_share e.1 n))
      regroup (no h) v n = ap (λ k. v +ℤ pos (per_share * k)) (omega arith)

module _ {Commitment Owner : Type 0} (dec : Discrete Owner) where
  settled-amounts :
      (id : ℕ) (b : Bank Commitment Owner) (m : Map Owner ℕ) (r c per_share : ℕ)
      → c ≤ r
      → per_share * all_shares m ≤ c
      → let b' = settled dec id (pos r) (pos c) (pos per_share) (as_read m) b in
        let paid = per_share * all_shares m in
        let value = unpaid StatKey-discrete in
        (b'.payouts ≡ b.payouts ++ payouts_for id per_share m)
        × ((a : Owner)
            → unpaid dec a b'.balances
              ≡ unpaid dec a b.balances +ℤ pos (per_share * shares_of dec a m))
        × (value total_paid b'.stats ≡ value total_paid b.stats +ℤ pos paid)
        × (value total_fee b'.stats ≡ value total_fee b.stats +ℤ pos (r - c))
        × (value total_rounding b'.stats ≡ value total_rounding b.stats +ℤ pos (c - paid))
  unfolding settled pay_all
  settled-amounts id b m r c per_share le below =
      let start : Paying Owner = record {
        payouts = b.payouts;
        balances = b.balances;
        paid = pos 0;
        in_range = true;
      } in
      let total = paid-pay_miners dec id per_share 0 m start refl ∙ ap pos (omega arith) in
      let (x, y, z) = stat-add_stats (pos r) (pos c) (pos (per_share * all_shares m)) b.stats in
      (
        payouts-pay_miners dec id per_share m start,
        λ a. unpaid-pay_miners dec a id per_share m start,
        rw total x,
        rw total (y ∙ ap (λ v. unpaid StatKey-discrete total_fee b.stats +ℤ v) (sub_int r c le)),
        rw total (
            z
            ∙ ap (λ v. unpaid StatKey-discrete total_rounding b.stats +ℤ v)
                (sub_int c (per_share * all_shares m) below)),
      )

  -- If the solution of an id has a reward `r`, of which `c` is left after the fee, the shares recorded for it
  -- are those of a table `m` and are not negative, and its payment succeeds, then: a share is worth the
  -- quotient of `c` by all shares; the payouts are extended by one row for each entry of the table, of
  -- its shares at that worth; the balance of every owner grows by that; the amounts paid are at most `c`
  -- and miss it by less than the number of shares; and the statistics grow by what is paid, by the fee
  -- `r - c` and by the rest of `c`.
  pub pay_solution-amounts :
      (cut : ℤ → ℤ) (id : ℕ) (b : Bank Commitment Owner) (s : Solution Commitment) (m : Map Owner ℕ)
      (r c : ℕ)
      → find_solution id b.database.solutions ≡ some s
      → s.reward ≡ some (pos r)
      → cut (pos r) ≡ pos c
      → c ≤ r
      → share_data dec [] (share_rows_of dec id b.database.shares) ≡ as_read m
      → (pay_solution dec cut no_fault b id).1 ≡ ok
      → let b' = (pay_solution dec cut no_fault b id).0 in
        let per_share = c / all_shares m in
        let paid = per_share * all_shares m in
        let value = unpaid StatKey-discrete in
        (b'.payouts ≡ b.payouts ++ payouts_for id per_share m)
        × ((a : Owner)
            → unpaid dec a b'.balances
              ≡ unpaid dec a b.balances +ℤ pos (per_share * shares_of dec a m))
        × (paid ≤ c)
        × (c - paid < all_shares m)
        × (value total_paid b'.stats ≡ value total_paid b.stats +ℤ pos paid)
        × (value total_fee b'.stats ≡ value total_fee b.stats +ℤ pos (r - c))
        × (value total_rounding b'.stats ≡ value total_rounding b.stats +ℤ pos (c - paid))
  unfolding pay_solution
  pay_solution-amounts cut id b s m r c found reward left le table success =
      elim (procedure-Settles dec cut id b) [
        | aborts e ↦ absurd (ground (arith, e, success))
        | settles s' raw per_share e unpaid' w (f, run) ↦
            let same : raw ≡ pos r = cc in
            let kept : cut raw ≡ pos c = ap cut same ∙ left in
            let sum = ap sum_values table ∙ sum_values-as_read m in
            let (some', worth) = floor_div-some c (all_shares m) per_share (
              sym (ap (λ a. floor_div a (pos (all_shares m))) kept)
              ∙ (sym (ap (λ n. floor_div (cut raw) n) sum) ∙ f)) in
            let done' : procedure dec cut id b
                ≡ (settled dec id (pos r) (pos c) (pos (c / all_shares m)) (as_read m) b, ok) =
              cc (run, same, kept, worth, table) in
            let (p, q, x, y, z) =
              settled-amounts id b m r c (c / all_shares m) le (div-mul-le_self c (all_shares m)) in
            rw done' (
              p,
              q,
              div-mul-le_self c (all_shares m),
              omega (arith, lt-div-mul-add {a = c} {b = all_shares m} some'),
              x,
              y,
              z,
            )
      ]
