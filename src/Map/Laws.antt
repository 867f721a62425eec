-- ===== src/Map/Laws.antt =====
-- The laws of maps and sets, in the form of a conditional on the two keys.
use aleo_pool_server.Prelude.{
  ◌≡◌, refl, ◌≢◌, true, false, ite, if_pos, if_neg, List, [], ◌∷◌, none, some, arith,
}
use aleo_pool_server.Map.{Map, get, insert, remove, contains, set_insert, set_remove}

module _ {ℓ} {K V : Type ℓ} (dec : Discrete K) where
  pub get-insert :
      (k j : K) (v : V) (m : Map K V)
      → get dec j (insert dec k v m) ≡ ite (dec k j) (some v) (get dec j m)
  unfolding get insert
  get-insert k j v [] = refl
  get-insert k j v ((i, w) ∷ m) = ground (arith, get-insert k j v m)

  pub get-insert_self : (k : K) (v : V) (m : Map K V) → get dec k (insert dec k v m) ≡ some v
  get-insert_self k v m = rw (get-insert k k v m) (if_pos (dec k k) refl _ _)

  pub get-insert_ne :
      (k j : K) (v : V) (m : Map K V) → k ≢ j → get dec j (insert dec k v m) ≡ get dec j m
  get-insert_ne k j v m h = rw (get-insert k j v m) (if_neg (dec k j) h _ _)

  pub get-remove :
      (k j : K) (m : Map K V) → get dec j (remove dec k m) ≡ ite (dec k j) none (get dec j m)
  unfolding get remove
  get-remove k j [] = ground arith
  get-remove k j ((i, w) ∷ m) = ground (arith, get-remove k j m)

  pub get-remove_self : (k : K) (m : Map K V) → get dec k (remove dec k m) ≡ none
  get-remove_self k m = rw (get-remove k k m) (if_pos (dec k k) refl _ _)

  pub get-remove_ne : (k j : K) (m : Map K V) → k ≢ j → get dec j (remove dec k m) ≡ get dec j m
  get-remove_ne k j m h = rw (get-remove k j m) (if_neg (dec k j) h _ _)

module _ {ℓ} {K : Type ℓ} (dec : Discrete K) where
  pub contains-set_insert :
      (k j : K) (s : List K)
      → contains dec j (set_insert dec k s) ≡ ite (dec k j) true (contains dec j s)
  unfolding contains set_insert
  contains-set_insert k j [] = refl
  contains-set_insert k j (i ∷ s) = elim (dec i k) [
    | yes p ↦ rw (if_pos _ p) (ground arith)
    | no p ↦ rw (if_neg _ p) (ground (arith, contains-set_insert k j s))
  ]

  pub contains-set_remove :
      (k j : K) (s : List K)
      → contains dec j (set_remove dec k s) ≡ ite (dec k j) false (contains dec j s)
  unfolding contains set_remove
  contains-set_remove k j [] = ground arith
  contains-set_remove k j (i ∷ s) = elim (dec i k) [
    | yes p ↦ rw (if_pos _ p) (ground (arith, contains-set_remove k j s))
    | no p ↦ rw (if_neg _ p) (ground (arith, contains-set_remove k j s))
  ]
