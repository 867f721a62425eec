-- ===== src/Storage/Reads.antt =====
-- What is read back of what was put.
use aleo_pool_server.Prelude.{◌≡◌, ◌≢◌, refl, ap, ◌∙◌, sym, arith, ℕ, List, ◌∷◌, some, done}
use aleo_pool_server.Storage.{
  StorageType, prefix, Engine, key_buf, read_value, get, put, item, read_item,
}

module _ {K V : Type 0} (e : Engine K V) where
  -- What the storage relies on: keys and values are read as they were written, different keys are written
  -- differently; and RocksDB answers with the last value that was put under a key.
  pub record IsKeeping : Type 0 where
    pub writes_key :
        (k : K)
        → (bytes : List ℕ) × (e.serialize_key k ≡ some bytes) × (e.deserialize_key bytes ≡ some k)
    pub writes_value :
        (v : V)
        → (bytes : List ℕ) × (e.serialize_value v ≡ some bytes)
          × (e.deserialize_value bytes ≡ some v)
    pub puts :
        (db : e.Db) (key value : List ℕ)
        → (db' : e.Db) × (e.put db key value ≡ some db')
          × (e.get db' key ≡ some (some value))
          × ((other : List ℕ) → other ≢ key → e.get db' other ≡ e.get db other)

  some-injective : (j k : K) → some j ≡ some k → j ≡ k
  some-injective j k h = cc h

  tail_of : {a b : ℕ} {xs ys : List ℕ} → a ∷ xs ≡ b ∷ ys → xs ≡ ys
  tail_of h = cc h

  -- If bincode reads what it wrote, and RocksDB keeps what is put, then a value can be put under every key; it
  -- is what is then read under this key, what is read under every other key stays, and the entry of the
  -- database that was made is an item of the iterator.
  pub get-put :
      (l : IsKeeping) (storage_type : StorageType) (db : e.Db) (k : K) (v : V)
      → (db' : e.Db) × (key value : List ℕ) × (put e storage_type db k v ≡ some db')
        × (get e storage_type db' k ≡ some (some v))
        × ((j : K) → j ≢ k → get e storage_type db' j ≡ get e storage_type db j)
        × (item e storage_type (key, value) ≡ done (some (k, v)))
  unfolding get put item read_item key_buf read_value
  get-put l storage_type db k v =
      let (key, s, d) = l.writes_key k in
      let (value, t, f) = l.writes_value v in
      let (db', p, g, others) = l.puts db (prefix storage_type ∷ key) value in
      (
        db',
        prefix storage_type ∷ key,
        value,
        rw (put, key_buf, s, t) p,
        rw (get, key_buf, s, g) (ground (arith, f)),
        λ j differs.
            let (key', s', d') = l.writes_key j in
            let other : prefix storage_type ∷ key' ≢ prefix storage_type ∷ key =
              λ h. differs (some-injective j k (sym d' ∙ ap e.deserialize_key (tail_of h) ∙ d)) in
            rw (get, key_buf, s', others (prefix storage_type ∷ key') other) refl,
        ground (arith, d, f),
      )
