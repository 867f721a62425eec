-- ===== src/Database/Validity.antt =====
-- Which solutions src/db.rs selects for payment, and how long it keeps checking one.
use mathlib.Core.List.Perm
use mathlib.Core.List.{Perm, map-map}
use aleo_pool_server.Prelude.{
  ℕ, ◌≤◌, ◌≡◌, ◌≢◌, refl, List, [], ◌∷◌, map, some, done, arith, All, leb, false, Bool-cases, inl,
  inr, none, ◌∙◌, sym,
}
use aleo_pool_server.Database.{
  Solution, Database, no_fault, ok, mark_checked, set_solution_valid, should_pay, select, place,
  order_by_id, get_should_pay_solutions,
}

-- Numbers in order, each at least the bound.
abbrev pub Ascending : ℕ → List ℕ → Type 0
Ascending lo [] = Unit {0}
Ascending lo (x ∷ xs) = (lo ≤ x) × Ascending x xs

module _ {Commitment : Type 0} where
  abbrev ids : List (Solution Commitment) → List ℕ
  ids = map (λ s. s.id)

  place-perm :
      (s : Solution Commitment) (rows : List (Solution Commitment)) → Perm (place s rows) (s ∷ rows)
  unfolding place
  place-perm s [] = Perm.refl (s ∷ [])
  place-perm s (r ∷ rows) = elim (Bool-cases (leb s.id r.id)) [
    | inl before ↦ rw before (Perm.refl _)
    | inr after ↦ rw after (Perm.trans (Perm.cons r (place-perm s rows)) (Perm.swap s r rows))
  ]

  order_by_id-perm : (rows : List (Solution Commitment)) → Perm (order_by_id rows) rows
  unfolding order_by_id
  order_by_id-perm [] = Perm.refl []
  order_by_id-perm (s ∷ rows) =
      Perm.trans (place-perm s (order_by_id rows)) (Perm.cons s (order_by_id-perm rows))

  place-Ascending :
      (lo : ℕ) (s : Solution Commitment) (rows : List (Solution Commitment))
      → lo ≤ s.id
      → Ascending lo (ids rows)
      → Ascending lo (ids (place s rows))
  unfolding place
  place-Ascending lo s [] h a = (h, tt)
  place-Ascending lo s (r ∷ rows) h a = ground (arith, place-Ascending r.id s rows)

  order_by_id-Ascending : (rows : List (Solution Commitment)) → Ascending 0 (ids (order_by_id rows))
  unfolding order_by_id
  order_by_id-Ascending [] = tt
  order_by_id-Ascending (s ∷ rows) =
      place-Ascending 0 s (order_by_id rows) (omega arith) (order_by_id-Ascending rows)

-- When the query succeeds it returns the solutions that are to be paid or checked, each once, in the
-- order of their ids.
get_should_pay_solutions_lem :
    {Commitment Owner : Type 0} (db : Database Commitment Owner)
    → (listed : List (ℕ × Commitment)) × (get_should_pay_solutions no_fault db ≡ some listed)
      × Perm listed (map (λ s. (s.id, s.commitment)) (select db.solutions))
      × Ascending 0 (map (λ e. e.0) listed)
unfolding get_should_pay_solutions
get_should_pay_solutions_lem {Commitment} db = (
  _,
  refl,
  Perm.map _ (order_by_id-perm (select db.solutions)),
  rw
      (map-map {A = Solution Commitment} {B = ℕ × Commitment} (λ e. e.0) (λ s. (s.id, s.commitment))
        _)
      (order_by_id-Ascending (select db.solutions)),
)

module _ {Commitment : Type 0} (dec : Discrete Commitment) where
  mark : Commitment → Solution Commitment → Solution Commitment
  mark c = mark_checked dec c false

  commitment-mark :
      (c : Commitment) (r : Solution Commitment) → (mark c r).commitment ≡ r.commitment
  unfolding mark mark_checked
  commitment-mark c r = ground arith

  should_pay-mark_thrice :
      (c : Commitment) (r : Solution Commitment)
      → r.commitment ≡ c
      → should_pay (mark c (mark c (mark c r))) ≡ false
  unfolding mark mark_checked should_pay
  should_pay-mark_thrice c r e = ground arith

  mark_all : Commitment → List (Solution Commitment) → List (Solution Commitment)
  mark_all c = map (mark c)

  select-mark_thrice :
      (c : Commitment) (rows : List (Solution Commitment))
      → All (λ r. r.commitment ≢ c) (select (mark_all c (mark_all c (mark_all c rows))))
  unfolding select mark_all
  select-mark_thrice c [] = tt
  select-mark_thrice c (r ∷ rows) =
      let r3 = mark c (mark c (mark c r)) in
      let rest = select-mark_thrice c rows in
      elim (dec r.commitment c) [
        | yes same ↦ rw (should_pay-mark_thrice c r same) rest
        | no other ↦ elim (Bool-cases (should_pay r3)) [
          | inl kept ↦ rw kept (
            (λ e. other (
                sym (
                  commitment-mark c (mark c (mark c r))
                  ∙ (commitment-mark c (mark c r) ∙ commitment-mark c r))
                ∙ e)),
            rest,
          )
          | inr dropped ↦ rw dropped rest
        ]
      ]

  -- Three checks that find a commitment not valid end the checking: each of them succeeds, and after
  -- them no solution of that commitment is selected any more.
  pub set_solution_valid_thrice :
      {Owner : Type 0} (db : Database Commitment Owner) (c : Commitment)
      → (d₁ d₂ d₃ : Database Commitment Owner) × (set_solution_valid dec no_fault db c false none
            none
          ≡ done (d₁, ok))
        × (set_solution_valid dec no_fault d₁ c false none none ≡ done (d₂, ok))
        × (set_solution_valid dec no_fault d₂ c false none none ≡ done (d₃, ok))
        × All (λ r. r.commitment ≢ c) (select d₃.solutions)
  unfolding set_solution_valid mark_all mark
  set_solution_valid_thrice db c = (_, _, _, refl, refl, refl, select-mark_thrice c db.solutions)
