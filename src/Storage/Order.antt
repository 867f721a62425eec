-- ===== src/Storage/Order.antt =====
-- The order that the comparator makes of the keys.
use Prim.Native.Nat.{Ordering, compare}
use aleo_pool_server.Prelude.{
  ℕ, ◌≡◌, refl, ap, ◌∙◌, sym, ◌==◌, List, [], ◌∷◌, done, arith, Bool-cases, inl, inr,
}
use native.Mathlib.Omega.{compare-eq}
use aleo_pool_server.Storage.{then_cmp, cmp, reverse, cmp_ones, comparator_v1}

reverse-then_cmp : (o p : Ordering) → reverse (then_cmp o p) ≡ then_cmp (reverse o) (reverse p)
unfolding reverse then_cmp
reverse-then_cmp Ordering.lt p = refl
reverse-then_cmp Ordering.eq p = refl
reverse-then_cmp Ordering.gt p = refl

reverse-reverse : (o : Ordering) → reverse (reverse o) ≡ o
unfolding reverse
reverse-reverse Ordering.lt = refl
reverse-reverse Ordering.eq = refl
reverse-reverse Ordering.gt = refl

reverse-compare : (a b : ℕ) → compare b a ≡ reverse (compare a b)
unfolding reverse
reverse-compare a b = ground arith

cmp-reverse : (xs ys : List ℕ) → cmp ys xs ≡ reverse (cmp xs ys)
unfolding cmp reverse
cmp-reverse [] [] = refl
cmp-reverse [] (b ∷ ys) = refl
cmp-reverse (a ∷ xs) [] = refl
cmp-reverse (a ∷ xs) (b ∷ ys) =
    ap (λ o. then_cmp o (cmp ys xs)) (reverse-compare a b)
    ∙ ap (then_cmp (reverse (compare a b))) (cmp-reverse xs ys)
    ∙ sym (reverse-then_cmp (compare a b) (cmp xs ys))

then_cmp-eq : (o p : Ordering) → then_cmp o p ≡ Ordering.eq → (o ≡ Ordering.eq) × (p ≡ Ordering.eq)
unfolding then_cmp
then_cmp-eq Ordering.lt p h = absurd (cc h)
then_cmp-eq Ordering.eq p h = (refl, h)
then_cmp-eq Ordering.gt p h = absurd (cc h)

cmp-eq : (xs ys : List ℕ) → cmp xs ys ≡ Ordering.eq → xs ≡ ys
unfolding cmp
cmp-eq [] [] h = refl
cmp-eq [] (b ∷ ys) h = absurd (cc h)
cmp-eq (a ∷ xs) [] h = absurd (cc h)
cmp-eq (a ∷ xs) (b ∷ ys) h =
    let (e, f) = then_cmp-eq (compare a b) (cmp xs ys) h in cc (compare-eq a b e, cmp-eq xs ys f)

reverse-eq : (o : Ordering) → reverse o ≡ Ordering.eq → o ≡ Ordering.eq
unfolding reverse
reverse-eq Ordering.lt h = absurd (cc h)
reverse-eq Ordering.eq h = refl
reverse-eq Ordering.gt h = absurd (cc h)

-- `[1]`, without its first byte, and another key that begins with 1.
abbrev pub AreApart : List ℕ → List ℕ → Type 0
AreApart [] [] = ⊥
AreApart xs ys = Unit {0}

cmp_ones-reverse :
    (xs ys : List ℕ)
    → AreApart xs ys
    → (cmp_ones ys xs ≡ reverse (cmp_ones xs ys)) × (cmp_ones xs ys ≡ Ordering.eq → xs ≡ ys)
unfolding cmp_ones reverse
cmp_ones-reverse [] [] h = absurd h
cmp_ones-reverse [] (b ∷ ys) h = (refl, λ e. absurd (cc e))
cmp_ones-reverse (a ∷ xs) [] h = (refl, λ e. absurd (cc e))
cmp_ones-reverse (a ∷ xs) (b ∷ ys) h = (
  ap reverse (cmp-reverse (1 ∷ a ∷ xs) (1 ∷ b ∷ ys)),
  λ e. cc (cmp-eq (1 ∷ a ∷ xs) (1 ∷ b ∷ ys) (reverse-eq _ e)),
)

-- Two keys that are not empty are ordered without a panic, unless both are `[1]`; the other way round
-- they have the reverse order, and they are equal if the comparator says so.
comparator_v1-reverse :
    (a b : ℕ) (xs ys : List ℕ)
    → (a ≡ 1 → b ≡ 1 → AreApart xs ys)
    → (o : Ordering) × (comparator_v1 (a ∷ xs) (b ∷ ys) ≡ done o)
      × (comparator_v1 (b ∷ ys) (a ∷ xs) ≡ done (reverse o))
      × (o ≡ Ordering.eq → a ∷ xs ≡ b ∷ ys)
unfolding comparator_v1
comparator_v1-reverse a b xs ys apart = elim (Bool-cases (a == 1)) [
  | inl e ↦ elim (Bool-cases (b == 1)) [
    | inl f ↦
        let p : a ≡ 1 = ground (arith, e) in
        let q : b ≡ 1 = ground (arith, f) in
        let (r, same) = cmp_ones-reverse xs ys (apart p q) in
        (cmp_ones xs ys, rw (e, f) refl, rw (e, f) (ap done r), λ h. cc (p, q, same h))
    | inr f ↦ (
      cmp (a ∷ xs) (b ∷ ys),
      rw (e, f) refl,
      rw (e, f) (ap done (cmp-reverse (a ∷ xs) (b ∷ ys))),
      cmp-eq (a ∷ xs) (b ∷ ys),
    )
  ]
  | inr e ↦ (
    cmp (a ∷ xs) (b ∷ ys),
    rw e refl,
    ground (arith, e, cmp-reverse (a ∷ xs) (b ∷ ys)),
    cmp-eq (a ∷ xs) (b ∷ ys),
  )
]
