-- ===== src/Payout/Queue.antt =====
-- Which solution the loop handles first: the one with the least id of those that are selected.
use aleo_pool_server.Prelude.{
  ℕ, ◌≤◌, ◌<◌, ◌≡◌, refl, Bool, true, false, ◌&&◌, ◌||◌, List, [], ◌∷◌, ◌++◌, map, Option, none,
  some, ◌==◌, leb, arith, All, Bool-cases, inl, inr,
}
use aleo_pool_server.Map.{Map}
use aleo_pool_server.Database.{
  Solution, ShareRow, should_pay, select, place, order_by_id, share_rows,
}
use aleo_pool_server.Payout.{share_rows_of}

module _ {Commitment : Type 0} (id : ℕ) where
  -- A row with the id is selected.
  abbrev pub is_waiting : List (Solution Commitment) → Bool
  is_waiting [] = false
  is_waiting (r ∷ rows) = (r.id == id && should_pay r) || is_waiting rows

  -- The row is paid, or its id is not less.
  abbrev pub is_later : Solution Commitment → Bool
  is_later r = leb id r.id || r.paid

  abbrev pub first_id : List (Solution Commitment) → Option ℕ
  first_id [] = none
  first_id (r ∷ rows) = some r.id

  first_id-place_own :
      (s : Solution Commitment) (rows : List (Solution Commitment))
      → s.id ≡ id
      → All (λ r. id ≤ r.id) rows
      → first_id (place s rows) ≡ some id
  unfolding place
  first_id-place_own s [] e h = ground arith
  first_id-place_own s (r ∷ rows) e h = ground arith

  first_id-place_other :
      (s : Solution Commitment) (rows : List (Solution Commitment))
      → id ≤ s.id
      → first_id rows ≡ some id
      → first_id (place s rows) ≡ some id
  unfolding place
  first_id-place_other s [] h e = cc
  first_id-place_other s (r ∷ rows) h e = ground arith

  All-place :
      (s : Solution Commitment) (rows : List (Solution Commitment))
      → id ≤ s.id
      → All (λ r. id ≤ r.id) rows
      → All (λ r. id ≤ r.id) (place s rows)
  unfolding place
  All-place s [] h a = (h, tt)
  All-place s (r ∷ rows) h a = elim (Bool-cases (leb s.id r.id)) [
    | inl before ↦ rw before (h, a)
    | inr after ↦ rw after (a.0, All-place s rows h a.1)
  ]

  selected_later : (r : Solution Commitment) → should_pay r ≡ true → is_later r ≡ true → id ≤ r.id
  unfolding should_pay
  selected_later r s l = ground arith

  All-order_by_id :
      (rows : List (Solution Commitment))
      → All (λ r. is_later r ≡ true) rows
      → All (λ r. id ≤ r.id) (order_by_id (select rows))
  unfolding order_by_id select
  All-order_by_id [] h = tt
  All-order_by_id (r ∷ rows) h = elim (Bool-cases (should_pay r)) [
    | inl s ↦ rw s (
        All-place r (order_by_id (select rows)) (selected_later r s h.0) (All-order_by_id rows h.1))
    | inr s ↦ rw s (All-order_by_id rows h.1)
  ]

  pub first_id-order_by_id :
      (rows : List (Solution Commitment))
      → All (λ r. is_later r ≡ true) rows
      → is_waiting rows ≡ true
      → first_id (order_by_id (select rows)) ≡ some id
  unfolding order_by_id select
  first_id-order_by_id [] h w = cc
  first_id-order_by_id (r ∷ rows) h w = elim (Bool-cases (should_pay r)) [
    | inl s ↦ elim (Bool-cases (r.id == id)) [
      | inl own ↦ rw s (
          first_id-place_own r (order_by_id (select rows)) (ground arith)
            (All-order_by_id rows h.1))
      | inr other ↦ rw s (
          first_id-place_other r (order_by_id (select rows)) (selected_later r s h.0)
            (first_id-order_by_id rows h.1 (ground arith)))
    ]
    | inr s ↦ rw s (first_id-order_by_id rows h.1 (ground arith))
  ]

  -- What a check changes keeps a waiting row waiting.
  pub is_waiting-map :
      (f : Solution Commitment → Solution Commitment) (rows : List (Solution Commitment))
      → ((s : Solution Commitment) → (f s).id ≡ s.id)
      → ((s : Solution Commitment) → should_pay s ≡ true → should_pay (f s) ≡ true)
      → is_waiting rows ≡ true
      → is_waiting (map f rows) ≡ true
  is_waiting-map f [] e k w = w
  is_waiting-map f (r ∷ rows) e k w = ground (arith, e r, k r, is_waiting-map f rows e k)

  pub All_later-map :
      (f : Solution Commitment → Solution Commitment) (rows : List (Solution Commitment))
      → ((s : Solution Commitment) → ((f s).id ≡ s.id) × ((f s).paid ≡ s.paid))
      → All (λ r. is_later r ≡ true) rows
      → All (λ r. is_later r ≡ true) (map f rows)
  All_later-map f [] e h = tt
  All_later-map f (r ∷ rows) e h = (ground (arith, e r), All_later-map f rows e h.1)

  pub is_waiting-append :
      (rows more : List (Solution Commitment))
      → is_waiting rows ≡ true
      → is_waiting (rows ++ more) ≡ true
  is_waiting-append [] more w = cc
  is_waiting-append (r ∷ rows) more w = ground (arith, is_waiting-append rows more)

module _ {Owner : Type 0} (dec : Discrete Owner) where
  share_rows_of-share_rows :
      (id n : ℕ) (m : Map Owner ℕ) → id < n → share_rows_of dec id (share_rows n m) ≡ []
  unfolding share_rows_of share_rows
  share_rows_of-share_rows id n [] h = refl
  share_rows_of-share_rows id n (e ∷ m) h = ground (arith, share_rows_of-share_rows id n m h)

  -- The rows of a later solution are not those of an earlier one.
  pub share_rows_of-append :
      (id n : ℕ) (rows : List (ShareRow Owner)) (m : Map Owner ℕ)
      → id < n
      → share_rows_of dec id rows ≡ []
      → share_rows_of dec id (rows ++ share_rows n m) ≡ []
  unfolding share_rows_of
  share_rows_of-append id n [] m h e = share_rows_of-share_rows id n m h
  share_rows_of-append id n (r ∷ rows) m h e = elim (Bool-cases (r.solution_id == id)) [
    | inl own ↦ absurd (ground arith)
    | inr other ↦ rw other (share_rows_of-append id n rows m h (ground arith))
  ]
