-- ===== src/Accounting.antt =====
-- The accounting task of src/accounting.rs: the shares of a round by owner, the cached answer of
-- `current_round`, and the loop that receives `AccountingMessage`s.
pub mod Shares
pub mod Round
pub mod History
use aleo_pool_server.Prelude.{
  ℕ, ◌%◌, ◌*◌, ◌^◌, refl, List, [], ◌∷◌, ◌++◌, Option, none, some, Bool, true, false, length, add64,
  u32_mod, mul64, Outcome, done, panic, ◌>>=◌,
}
use aleo_pool_server.Map
use aleo_pool_server.Map.{Map}
use aleo_pool_server.Cache
use aleo_pool_server.Cache.{Cache}
use aleo_pool_server.Database.{Database, Fault, save_solution}
use aleo_pool_server.Pplns
use aleo_pool_server.Pplns.{Share, Pplns, empty}

module _ {Owner : Type 0} (dec : Discrete Owner) where
  -- The closure of `for_each` in `pplns_to_provers_shares`.
  unfoldable pub add_to_owner : Map Owner ℕ → Share Owner → Map Owner ℕ
  add_to_owner address_shares share = elim (Map.get dec share.owner address_shares) [
    | some shares ↦ Map.insert dec share.owner (add64 shares share.value) address_shares
    | none ↦ Map.insert dec share.owner share.value address_shares
  ]

  unfoldable pub fold_shares : Map Owner ℕ → List (Share Owner) → Map Owner ℕ
  fold_shares address_shares [] = address_shares
  fold_shares address_shares (share ∷ queue) = fold_shares (add_to_owner address_shares share) queue

  unfoldable pub pplns_to_provers_shares : Pplns Owner → ℕ × Map Owner ℕ
  pplns_to_provers_shares pplns =
      let address_shares = fold_shares [] pplns.queue in
      (length address_shares % u32_mod, address_shares)

-- The only key of the cache of `current_round`.
pub data Null : Type 0 where
  null : Null

unfoldable pub Null-discrete : Discrete Null
Null-discrete null null = yes refl

-- The nanoseconds of `Duration::from_secs(10)`.
abbrev pub round_cache_duration : ℕ
round_cache_duration = 10 * 10 ^ 9

pub data AccountingMessage (Commitment Owner : Type 0) : Type 0 where
  new_share : Owner → ℕ → AccountingMessage Commitment Owner
  set_n : ℕ → AccountingMessage Commitment Owner
  new_solution : Commitment → AccountingMessage Commitment Owner
  exit : AccountingMessage Commitment Owner

-- The state that `Accounting` and its task share: `saved` is the file of the window, and `closed`
-- says that the receiver was closed.
pub record Accounting (Commitment Owner : Type 0) : Type 0 where
  pub pplns : Pplns Owner
  pub database : Database Commitment Owner
  pub round_cache : Cache Null (ℕ × Map Owner ℕ)
  pub saved : Option (Pplns Owner)
  pub exit_lock : Bool
  pub closed : Bool

-- What the outside does while a message is handled: whether the database fails, and whether the file
-- can be written.
pub record Outside : Type 0 where
  pub fault : Fault
  pub writable : Bool

-- The answer of `current_round`.
pub record RoundReport (Owner : Type 0) : Type 0 where
  pub n : ℕ
  pub current_n : ℕ
  pub provers : ℕ
  pub shares : Map Owner ℕ

module _ {Owner : Type 0} where
  -- `PPLNS::load`: the file, or an empty window if there is none.
  unfoldable pub load : Option (Pplns Owner) → Pplns Owner
  load none = empty
  load (some pplns) = pplns

  -- `PPLNS::save`: what the file holds afterwards.
  unfoldable pub save : Bool → Pplns Owner → Option (Pplns Owner) → Option (Pplns Owner)
  save true pplns file = some pplns
  save false pplns file = file

  unfoldable pub report : Pplns Owner → ℕ × Map Owner ℕ → RoundReport Owner
  report pplns (provers, shares) = record {
    n = pplns.n;
    current_n = pplns.current_n;
    provers = provers;
    shares = shares;
  }

  -- `Accounting::init`, on the file and the database that it finds.
  unfoldable pub start :
      {Commitment : Type 0}
      → Option (Pplns Owner)
      → Database Commitment Owner
      → Accounting Commitment Owner
  start file database = record {
    pplns = load file;
    database = database;
    round_cache = Cache.new round_cache_duration;
    saved = file;
    exit_lock = false;
    closed = false;
  }

module _ {Commitment Owner : Type 0} (dec : Discrete Owner) where
  unfoldable pub current_round :
      ℕ → Accounting Commitment Owner → RoundReport Owner × Accounting Commitment Owner
  current_round now s = elim (Cache.get Null-discrete now s.round_cache null) [
    | some cache ↦ (report s.pplns cache, s)
    | none ↦
        let result = pplns_to_provers_shares dec s.pplns in
        (
          report s.pplns result,
          record s { round_cache = Cache.set Null-discrete now s.round_cache null result },
        )
  ]

  -- One round of the task's loop.
  unfoldable pub process :
      Outside
      → Accounting Commitment Owner
      → AccountingMessage Commitment Owner
      → Outcome (Accounting Commitment Owner)
  process o s (new_share address value) = do
    pplns ← Pplns.add_share s.pplns (Pplns.init value address)
    done (record s { pplns = pplns })
  process o s (set_n n) = do pplns ← Pplns.set_n s.pplns n; done (record s { pplns = pplns })
  process o s (new_solution commitment) =
      let (_, address_shares) = pplns_to_provers_shares dec s.pplns in
      let (database, _) = save_solution o.fault s.database commitment address_shares in
      done (record s { database = database })
  process o s exit =
      done (record s { closed = true; saved = save o.writable s.pplns s.saved; exit_lock = true })

  unfoldable pub run :
      List (Outside × AccountingMessage Commitment Owner)
      → Accounting Commitment Owner
      → Outcome (Accounting Commitment Owner)
  run [] s = done s
  run ((o, message) ∷ messages) s = do s' ← process o s message; run messages s'
