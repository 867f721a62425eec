-- ===== src/Pplns.antt =====
-- The pay-per-last-N-shares window of src/accounting.rs: `Share`, `PPLNS` and the two operations
-- that change it. `u64` arithmetic wraps; `pop_front().unwrap()` panics on an empty queue. The
-- owner of a share is an address, of any type.
pub mod Invariant
pub mod Window
pub mod History
use aleo_pool_server.Prelude.{
  ℕ, List, [], ◌∷◌, ◌++◌, ltb, if◌then◌else◌, add64, sub64, Outcome, done, panic, ◌>>=◌,
}

pub record Share (Owner : Type 0) : Type 0 where
  pub value : ℕ
  pub owner : Owner

unfoldable pub init : {Owner : Type 0} → ℕ → Owner → Share Owner
init value owner = record { value = value; owner = owner }

-- The front of the queue is the head of the list.
pub record Pplns (Owner : Type 0) : Type 0 where
  pub queue : List (Share Owner)
  pub current_n : ℕ
  pub n : ℕ

module _ {Owner : Type 0} where
  -- The state when there is no saved file.
  unfoldable pub empty : Pplns Owner
  empty = record { queue = []; current_n = 0; n = 0 }

  -- `while *current_n > n { let share = queue.pop_front().unwrap(); *current_n -= share.value; }`
  unfoldable pub shrink : ℕ → List (Share Owner) → ℕ → Outcome (List (Share Owner) × ℕ)
  shrink n [] current_n = if ltb n current_n then panic else done ([], current_n)
  shrink n (share ∷ queue) current_n =
      let rest = shrink n queue (sub64 current_n share.value) in
      if ltb n current_n then rest else done (share ∷ queue, current_n)

  unfoldable pub set_n : Pplns Owner → ℕ → Outcome (Pplns Owner)
  set_n p n = do
    (queue, current_n) ←
        (if ltb n p.n then shrink n p.queue p.current_n else done (p.queue, p.current_n))
    done (record { queue = queue; current_n = current_n; n = n })

  unfoldable pub add_share : Pplns Owner → Share Owner → Outcome (Pplns Owner)
  add_share p share = do
    (queue, current_n) ← shrink p.n (p.queue ++ share ∷ []) (add64 p.current_n share.value)
    done (record p { queue = queue; current_n = current_n })
