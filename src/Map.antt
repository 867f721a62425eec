-- ===== src/Map.antt =====
-- A `HashMap` as an association list over keys with a decidable equality, and a `HashSet` as the
-- list of its members.
pub mod Laws
pub mod Distinct
use aleo_pool_server.Prelude.{Bool, true, false, ite, List, [], ◌∷◌, Option, none, some}

abbrev pub Map {ℓ} : Type ℓ → Type ℓ → Type ℓ
Map K V = List (K × V)

module _ {ℓ} {K V : Type ℓ} (dec : Discrete K) where
  unfoldable pub get : K → Map K V → Option V
  get k [] = none
  get k ((j, v) ∷ m) = ite (dec j k) (some v) (get k m)

  -- `HashMap::insert`: overwrites the value of a key that is present.
  unfoldable pub insert : K → V → Map K V → Map K V
  insert k v [] = (k, v) ∷ []
  insert k v ((j, w) ∷ m) = ite (dec j k) ((k, v) ∷ m) ((j, w) ∷ insert k v m)

  -- `HashMap::remove`.
  unfoldable pub remove : K → Map K V → Map K V
  remove k [] = []
  remove k ((j, w) ∷ m) = ite (dec j k) (remove k m) ((j, w) ∷ remove k m)

module _ {ℓ} {K : Type ℓ} (dec : Discrete K) where
  unfoldable pub contains : K → List K → Bool
  contains k [] = false
  contains k (j ∷ s) = ite (dec j k) true (contains k s)

  -- `HashSet::insert`, without its Boolean result.
  unfoldable pub set_insert : K → List K → List K
  set_insert k [] = k ∷ []
  set_insert k (j ∷ s) = ite (dec j k) (j ∷ s) (j ∷ set_insert k s)

  -- `HashSet::remove`.
  unfoldable pub set_remove : K → List K → List K
  set_remove k [] = []
  set_remove k (j ∷ s) = ite (dec j k) (set_remove k s) (j ∷ set_remove k s)
