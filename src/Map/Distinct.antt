-- ===== src/Map/Distinct.antt =====
-- Lists without a repetition: the keys of maps, and sets.
use aleo_pool_server.Prelude.{
  suc, ◌≡◌, refl, sym, ap, ◌∙◌, true, false, if_pos, if_neg, List, [], ◌∷◌, map, arith, length,
  subst,
}
use aleo_pool_server.Map.{Map, insert, remove, contains, set_insert, set_remove}
use aleo_pool_server.Map.Laws.{contains-set_insert, contains-set_remove}

module _ {ℓ} {K : Type ℓ} (dec : Discrete K) where
  abbrev pub IsDistinct : List K → Type 0
  IsDistinct [] = Unit
  IsDistinct (k ∷ ks) = (contains dec k ks ≡ false) × IsDistinct ks

  pub set_insert-IsDistinct :
      (k : K) (ks : List K) → IsDistinct ks → IsDistinct (set_insert dec k ks)
  unfolding set_insert contains
  set_insert-IsDistinct k [] d = (refl, tt)
  set_insert-IsDistinct k (j ∷ ks) d = elim (dec j k) [
    | yes p ↦ rw (if_pos (dec j k) p) d
    | no n ↦ rw (if_neg (dec j k) n) (
      contains-set_insert dec k j ks ∙ (if_neg (dec k j) (λ p. n (sym p)) _ _ ∙ d.0),
      set_insert-IsDistinct k ks d.1,
    )
  ]

  pub set_remove-IsDistinct :
      (k : K) (ks : List K) → IsDistinct ks → IsDistinct (set_remove dec k ks)
  unfolding set_remove contains
  set_remove-IsDistinct k [] d = tt
  set_remove-IsDistinct k (j ∷ ks) d = elim (dec j k) [
    | yes p ↦ rw (if_pos (dec j k) p) (set_remove-IsDistinct k ks d.1)
    | no n ↦ rw (if_neg (dec j k) n) (
      contains-set_remove dec k j ks ∙ (if_neg (dec k j) (λ p. n (sym p)) _ _ ∙ d.0),
      set_remove-IsDistinct k ks d.1,
    )
  ]

  set_remove_absent : (k : K) (ks : List K) → contains dec k ks ≡ false → set_remove dec k ks ≡ ks
  unfolding set_remove contains
  set_remove_absent k [] e = refl
  set_remove_absent k (j ∷ ks) e = elim (dec j k) [
    | yes p ↦ absurd (ground (arith, p))
    | no n ↦
        rw (if_neg (dec j k) n)
          (ap (λ l. j ∷ l) (set_remove_absent k ks (sym (if_neg (dec j k) n _ _) ∙ e)))
  ]

  length-set_remove :
      (k : K) (ks : List K)
      → IsDistinct ks
      → contains dec k ks ≡ true
      → length ks ≡ suc (length (set_remove dec k ks))
  unfolding set_remove contains
  length-set_remove k [] d e = cc
  length-set_remove k (j ∷ ks) d e = elim (dec j k) [
    | yes p ↦ rw (if_pos (dec j k) p) (
        ap (λ l. suc (length l))
          (sym (set_remove_absent k ks (subst (λ i. contains dec i ks ≡ false) p d.0))))
    | no n ↦
        rw (if_neg (dec j k) n)
          (ap suc (length-set_remove k ks d.1 (sym (if_neg (dec j k) n _ _) ∙ e)))
  ]

  -- Two lists without repetitions that have the same members are of one length.
  pub length_unique :
      (ks js : List K)
      → IsDistinct ks
      → IsDistinct js
      → ((k : K) → contains dec k ks ≡ contains dec k js)
      → length ks ≡ length js
  unfolding contains
  length_unique [] [] d c same = refl
  length_unique [] (j ∷ js) d c same =
      absurd (cc (same j, if_pos (dec j j) refl true (contains dec j js)))
  length_unique (k ∷ ks) js d c same =
      let here = if_pos (dec k k) refl true (contains dec k ks) in
      let rest =
        length_unique ks (set_remove dec k js) d.1 (set_remove-IsDistinct k js c)
          (λ i. member i (dec k i)) in
      ap suc rest ∙ sym (length-set_remove k js c (sym (same k) ∙ here))
    where
      member : (i : K) → Dec (k ≡ i) → contains dec i ks ≡ contains dec i (set_remove dec k js)
      member i (yes p) =
          subst (λ i. contains dec i ks ≡ false) p d.0
          ∙ sym (contains-set_remove dec k i js ∙ if_pos (dec k i) p _ _)
      member i (no n) =
          sym (if_neg (dec k i) n _ _)
          ∙ (same i ∙ sym (contains-set_remove dec k i js ∙ if_neg (dec k i) n _ _))

module _ {ℓ} {K V : Type ℓ} (dec : Discrete K) where
  abbrev pub keys : Map K V → List K
  keys m = map (λ e. e.0) m

  pub keys-insert :
      (k : K) (v : V) (m : Map K V) → keys (insert dec k v m) ≡ set_insert dec k (keys m)
  unfolding insert set_insert
  keys-insert k v [] = refl
  keys-insert k v ((j, w) ∷ m) = elim (dec j k) [
    | yes p ↦
        ap keys (if_pos (dec j k) p _ _)
        ∙ (ap (λ i. i ∷ keys m) (sym p) ∙ sym (if_pos (dec j k) p _ _))
    | no n ↦
        ap keys (if_neg (dec j k) n _ _)
        ∙ (ap (λ l. j ∷ l) (keys-insert k v m) ∙ sym (if_neg (dec j k) n _ _))
  ]

  pub keys-remove : (k : K) (m : Map K V) → keys (remove dec k m) ≡ set_remove dec k (keys m)
  unfolding remove set_remove
  keys-remove k [] = refl
  keys-remove k ((j, w) ∷ m) = elim (dec j k) [
    | yes p ↦ ap keys (if_pos (dec j k) p _ _) ∙ (keys-remove k m ∙ sym (if_pos (dec j k) p _ _))
    | no n ↦
        ap keys (if_neg (dec j k) n _ _)
        ∙ (ap (λ l. j ∷ l) (keys-remove k m) ∙ sym (if_neg (dec j k) n _ _))
  ]
