-- ===== src/Storage.antt =====
-- The storage of values under keys in src/state_storage.rs, which no other file uses: its opening, the
-- order of its keys, reading, writing and iterating. RocksDB, paths and bincode are parameters.
pub mod Order
pub mod Reads
use Prim.Native.String.{String}
use Prim.Native.Nat.{Ordering, compare}
use aleo_pool_server.Prelude.{
  ℕ, Bool, true, false, not, ◌&&◌, ◌==◌, if◌then◌else◌, List, [], ◌∷◌, Option, none, some, Outcome,
  done, panic, ◌>>=◌,
}

pub data StorageType : Type 0 where
  pplns : StorageType

unfoldable pub prefix : StorageType → ℕ
prefix pplns = 0

-- `cmp` of slices, byte by byte; a proper prefix is less.
unfoldable pub then_cmp : Ordering → Ordering → Ordering
then_cmp Ordering.lt rest = Ordering.lt
then_cmp Ordering.eq rest = rest
then_cmp Ordering.gt rest = Ordering.gt

unfoldable pub cmp : List ℕ → List ℕ → Ordering
cmp [] [] = Ordering.eq
cmp [] (y ∷ ys) = Ordering.lt
cmp (x ∷ xs) [] = Ordering.gt
cmp (x ∷ xs) (y ∷ ys) = then_cmp (compare x y) (cmp xs ys)

unfoldable pub reverse : Ordering → Ordering
reverse Ordering.lt = Ordering.gt
reverse Ordering.eq = Ordering.eq
reverse Ordering.gt = Ordering.lt

-- The keys that begin with 1: `[1]` first, the others in reverse.
unfoldable pub cmp_ones : List ℕ → List ℕ → Ordering
cmp_ones [] ys = Ordering.lt
cmp_ones (a ∷ xs) [] = Ordering.gt
cmp_ones (a ∷ xs) (b ∷ ys) = reverse (cmp (1 ∷ a ∷ xs) (1 ∷ b ∷ ys))

-- `comparator_v1`; the first byte of an empty key is not there. `&&` does not look at `b` if `a` does not
-- begin with 1.
unfoldable pub comparator_v1 : List ℕ → List ℕ → Outcome Ordering
comparator_v1 [] b = panic
comparator_v1 (a₀ ∷ xs) [] = if a₀ == 1 then panic else done (cmp (a₀ ∷ xs) [])
comparator_v1 (a₀ ∷ xs) (b₀ ∷ ys) =
    if not ((a₀ == 1) && (b₀ == 1)) then done (cmp (a₀ ∷ xs) (b₀ ∷ ys)) else done (cmp_ones xs ys)

-- What an iterator of RocksDB gives: a key and a value, or an error.
pub data Entry : Type 0 where
  entry : List ℕ → List ℕ → Entry
  broken : Entry

-- What the storage uses of RocksDB and bincode; `none` is an error.
pub record Engine (K V : Type 0) : Type 1 where
  pub Db : Type 0
  -- `Path::join`, and `DB::open` at a path
  pub join : String → String → String
  pub open_db : String → Option Db
  pub get : Db → List ℕ → Option (Option (List ℕ))
  pub put : Db → List ℕ → List ℕ → Option Db
  -- what `prefix_iterator` gives from a prefix on, with its errors
  pub prefix_iterator : Db → List ℕ → List Entry
  pub serialize_key : K → Option (List ℕ)
  pub serialize_value : V → Option (List ℕ)
  pub deserialize_key : List ℕ → Option K
  pub deserialize_value : List ℕ → Option V

module _ {K V : Type 0} (e : Engine K V) where
  -- `key_buf`.
  unfoldable pub key_buf : StorageType → K → Option (List ℕ)
  key_buf storage_type key = elim (e.serialize_key key) [
    | none ↦ none
    | some bytes ↦ some (prefix storage_type ∷ bytes)
  ]

  unfoldable pub read_value : Option (List ℕ) → Option (Option V)
  read_value none = some none
  read_value (some value) = elim (e.deserialize_value value) [
    | none ↦ none
    | some v ↦ some (some v)
  ]

  unfoldable pub get : StorageType → e.Db → K → Option (Option V)
  get storage_type db key = elim (key_buf storage_type key) [
    | none ↦ none
    | some buf ↦ elim (e.get db buf) [ none ↦ none | some value ↦ read_value value ]
  ]

  unfoldable pub put : StorageType → e.Db → K → V → Option e.Db
  put storage_type db key value = elim (key_buf storage_type key) [
    | none ↦ none
    | some buf ↦ elim (e.serialize_value value) [ none ↦ none | some bytes ↦ e.put db buf bytes ]
  ]

  -- The item that is made of an entry of the iterator; `none` ends the iteration, also on an error.
  unfoldable pub read_item : List ℕ → List ℕ → Option (K × V)
  read_item raw_key raw_value = elim (e.deserialize_key raw_key) [
    | none ↦ none
    | some k ↦ elim (e.deserialize_value raw_value) [ none ↦ none | some v ↦ some (k, v) ]
  ]

  unfoldable pub item : StorageType → List ℕ × List ℕ → Outcome (Option (K × V))
  item storage_type ([], raw_value) = panic
  item storage_type (first ∷ raw_key, raw_value) =
      if first == prefix storage_type then done (read_item raw_key raw_value) else done none

  -- `Storage::load`, with the directory of the user.
  unfoldable pub load : Option String → Outcome e.Db
  load none = panic
  load (some home) = elim (e.open_db (e.join home ".aleo_pool_testnet3/state.db")) [
    | none ↦ panic
    | some db ↦ done db
  ]

  pub record StorageData : Type 0 where
    pub db : e.Db
    pub storage_type : StorageType

  unfoldable pub init_data : e.Db → StorageType → StorageData
  init_data db storage_type = record { db = db; storage_type = storage_type }

  -- `StorageIter`, with what its iterator still gives.
  pub record StorageIter : Type 0 where
    pub storage_type : StorageType
    pub entries : List Entry

  unfoldable pub iter : StorageData → StorageIter
  iter d = record {
    storage_type = d.storage_type;
    entries = e.prefix_iterator d.db (prefix d.storage_type ∷ []);
  }

  -- `next`, with the iterator that it leaves, of the entries that are left.
  unfoldable pub next_of : StorageType → List Entry → Outcome (Option (K × V) × StorageIter)
  next_of t [] = done (none, record { storage_type = t; entries = [] })
  next_of t (broken ∷ entries) = done (none, record { storage_type = t; entries = entries })
  next_of t (entry key value ∷ entries) = do
    found ← item t (key, value)
    done (found, record { storage_type = t; entries = entries })

  unfoldable pub next : StorageIter → Outcome (Option (K × V) × StorageIter)
  next i = next_of i.storage_type i.entries
