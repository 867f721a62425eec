-- ===== src/Accounting/Shares.antt =====
-- `pplns_to_provers_shares` against the shares that each owner has in the queue.
use aleo_pool_server.Prelude.{
  ℕ, ◌+◌, ◌≤◌, ◌<◌, ◌≡◌, ◌∙◌, sym, ap, refl, ite, List, [], ◌∷◌, Option, none, some, arith, sum_by,
  length, length-map, map, add64, add64_exact, u64_mod, u32_mod, ◌%◌,
}
use aleo_pool_server.Map.{Map, get, insert, set_insert}
use aleo_pool_server.Map.Laws.{get-insert}
use aleo_pool_server.Pplns.{Share, Pplns}
use aleo_pool_server.Pplns.Invariant.{IsValid}
use aleo_pool_server.Pplns.Window.{total}
use aleo_pool_server.Accounting.{add_to_owner, fold_shares, pplns_to_provers_shares}

-- The sum of two entries; `none` is no entry.
abbrev pub plus : Option ℕ → Option ℕ → Option ℕ
plus none e = e
plus (some v) none = some v
plus (some v) (some w) = some (v + w)

abbrev pub amount : Option ℕ → ℕ
amount none = 0
amount (some v) = v

-- The sum of all the entries.
abbrev pub paid_to_all : {Owner : Type 0} → Map Owner ℕ → ℕ
paid_to_all = sum_by (λ e. e.1)

module _ {Owner : Type 0} (dec : Discrete Owner) where
  -- What an owner has in a queue: the exact sum of their shares, `none` if there is none.
  abbrev pub earned : Owner → List (Share Owner) → Option ℕ
  earned a [] = none
  earned a (s ∷ queue) = ite (dec s.owner a) (plus (some s.value) (earned a queue)) (earned a queue)

  -- The owners of a queue, each once, in the order of their first shares.
  abbrev pub owners : List Owner → List (Share Owner) → List Owner
  owners known [] = known
  owners known (s ∷ queue) = owners (set_insert dec s.owner known) queue

  get-add_to_owner :
      (a : Owner) (m : Map Owner ℕ) (s : Share Owner)
      → amount (get dec a m) + s.value < u64_mod
      → get dec a (add_to_owner dec m s)
        ≡ ite (dec s.owner a) (plus (get dec a m) (some s.value)) (get dec a m)
  unfolding add_to_owner
  get-add_to_owner a m s h =
      let old = amount (get dec s.owner m) in
      ground (
        arith,
        get-insert dec s.owner a s.value m,
        get-insert dec s.owner a (add64 old s.value) m,
        add64_exact (amount (get dec a m)) s.value,
      )

  earned-le-total : (a : Owner) (queue : List (Share Owner)) → amount (earned a queue) ≤ total queue
  earned-le-total a [] = omega arith
  earned-le-total a (s ∷ queue) = ground (arith, earned-le-total a queue)

  get-fold_shares :
      (a : Owner) (m : Map Owner ℕ) (queue : List (Share Owner))
      → amount (get dec a m) + total queue < u64_mod
      → get dec a (fold_shares dec m queue) ≡ plus (get dec a m) (earned a queue)
  unfolding fold_shares
  get-fold_shares a m [] h = ground arith
  get-fold_shares a m (s ∷ queue) h =
      ground (arith, get-add_to_owner a m s, get-fold_shares a (add_to_owner dec m s) queue)

  paid_to_all-insert :
      (k : Owner) (v : ℕ) (m : Map Owner ℕ)
      → paid_to_all (insert dec k v m) + amount (get dec k m) ≡ paid_to_all m + v
  unfolding get insert
  paid_to_all-insert k v [] = omega arith
  paid_to_all-insert k v ((j, w) ∷ m) = ground (arith, paid_to_all-insert k v m)

  amount-get-le : (k : Owner) (m : Map Owner ℕ) → amount (get dec k m) ≤ paid_to_all m
  unfolding get
  amount-get-le k [] = omega arith
  amount-get-le k ((j, w) ∷ m) = ground (arith, amount-get-le k m)

  paid_to_all-add_to_owner :
      (m : Map Owner ℕ) (s : Share Owner)
      → paid_to_all m + s.value < u64_mod
      → paid_to_all (add_to_owner dec m s) ≡ paid_to_all m + s.value
  unfolding add_to_owner
  paid_to_all-add_to_owner m s h =
      let old = amount (get dec s.owner m) in
      ground (
        arith,
        amount-get-le s.owner m,
        paid_to_all-insert s.owner s.value m,
        paid_to_all-insert s.owner (add64 old s.value) m,
        add64_exact old s.value,
      )

  paid_to_all-fold_shares :
      (m : Map Owner ℕ) (queue : List (Share Owner))
      → paid_to_all m + total queue < u64_mod
      → paid_to_all (fold_shares dec m queue) ≡ paid_to_all m + total queue
  unfolding fold_shares
  paid_to_all-fold_shares m [] h = omega arith
  paid_to_all-fold_shares m (s ∷ queue) h =
      ground
        (arith, paid_to_all-add_to_owner m s, paid_to_all-fold_shares (add_to_owner dec m s) queue)

  keys-insert :
      (k : Owner) (v : ℕ) (m : Map Owner ℕ)
      → map (λ e. e.0) (insert dec k v m) ≡ set_insert dec k (map (λ e. e.0) m)
  unfolding insert set_insert
  keys-insert k v [] = refl
  keys-insert k v ((j, w) ∷ m) = ground (arith, keys-insert k v m)

  keys-add_to_owner :
      (m : Map Owner ℕ) (s : Share Owner)
      → map (λ e. e.0) (add_to_owner dec m s) ≡ set_insert dec s.owner (map (λ e. e.0) m)
  unfolding add_to_owner
  keys-add_to_owner m s = ground (
    arith,
    keys-insert s.owner s.value m,
    keys-insert s.owner (add64 (amount (get dec s.owner m)) s.value) m,
  )

  keys-fold_shares :
      (m : Map Owner ℕ) (queue : List (Share Owner))
      → map (λ e. e.0) (fold_shares dec m queue) ≡ owners (map (λ e. e.0) m) queue
  unfolding fold_shares
  keys-fold_shares m [] = refl
  keys-fold_shares m (s ∷ queue) =
      keys-fold_shares (add_to_owner dec m s) queue
      ∙ ap (λ known. owners known queue) (keys-add_to_owner m s)

  -- If the counter of the window is the exact sum of its queue, within the window and below 2^64,
  -- then the table holds for each owner the exact sum of their shares in the queue, and no entry
  -- for anybody else.
  pub get-pplns_to_provers_shares :
      (p : Pplns Owner) (a : Owner)
      → IsValid p
      → get dec a (pplns_to_provers_shares dec p).1 ≡ earned a p.queue
  unfolding pplns_to_provers_shares get
  get-pplns_to_provers_shares p a v = get-fold_shares a [] p.queue (omega (arith, v.counted))

  -- If the counter of the window is the exact sum of its queue, within the window and below 2^64,
  -- then the entries of the table add up to the counter, and the number of provers is the number
  -- of distinct owners in the queue, as a `u32`.
  pub pplns_to_provers_shares_total :
      (p : Pplns Owner)
      → IsValid p
      → (paid_to_all (pplns_to_provers_shares dec p).1 ≡ p.current_n)
        × ((pplns_to_provers_shares dec p).0 ≡ length (owners [] p.queue) % u32_mod)
  unfolding pplns_to_provers_shares
  pplns_to_provers_shares_total p v = (
    omega (arith, paid_to_all-fold_shares [] p.queue (omega (arith, v.counted)), v.counted),
    ap (λ k. k % u32_mod)
        (sym (length-map (λ e. e.0) (fold_shares dec [] p.queue))
          ∙ ap length (keys-fold_shares [] p.queue)),
  )
