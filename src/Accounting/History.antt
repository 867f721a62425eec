-- ===== src/Accounting/History.antt =====
-- The accounting task over any sequence of messages.
use aleo_pool_server.Prelude.{
  ◌^◌, ◌<◌, ◌≡◌, refl, List, [], ◌∷◌, ◌++◌, Option, some, true, arith, All, done, ◌>>=◌, >>=_congr,
  >>=_assoc, ◌∙◌, sym,
}
use aleo_pool_server.Database.{Database}
use aleo_pool_server.Pplns.{Pplns}
use aleo_pool_server.Pplns
use aleo_pool_server.Pplns.Invariant.{IsValid, empty-IsValid, add_share-IsWindow, set_n-IsWindow}
use aleo_pool_server.Accounting.{
  Accounting, AccountingMessage, new_share, set_n, new_solution, exit, Outside, start, load, save,
  process, run,
}

-- The numbers that a message carries are below 2^63.
abbrev pub IsBounded : {Commitment Owner : Type 0} → AccountingMessage Commitment Owner → Type 0
IsBounded (new_share owner value) = value < 2 ^ 63
IsBounded (set_n n) = n < 2 ^ 63
IsBounded (new_solution commitment) = Unit {0}
IsBounded exit = Unit {0}

-- The window is valid, and its size below 2^63.
pub record IsSound {Owner : Type 0} (pplns : Pplns Owner) : Type 0 where
  pub valid : IsValid pplns
  pub small : pplns.n < 2 ^ 63

pub empty-IsSound : {Owner : Type 0} → IsSound {Owner = Owner} Pplns.empty
unfolding Pplns.empty
empty-IsSound = record { valid = empty-IsValid; small = omega arith }

module _ {Commitment Owner : Type 0} (dec : Discrete Owner) where
  pub process-IsSound :
      (o : Outside) (s : Accounting Commitment Owner) (m : AccountingMessage Commitment Owner)
      → IsBounded m
      → IsSound s.pplns
      → (s' : Accounting Commitment Owner) × (process dec o s m ≡ done s') × IsSound s'.pplns
  unfolding process Pplns.init
  process-IsSound o s (new_share owner value) b h =
      let (p, dropped, e, (w, v, n)) =
        add_share-IsWindow s.pplns (Pplns.init value owner) h.valid
          (omega (arith, h.valid.counted, h.valid.within, h.small)) in
      (record s { pplns = p }, rw e, record { valid = v; small = omega (arith, n, h.small) })
  process-IsSound o s (set_n n) b h =
      let (p, dropped, e, (w, v, same)) = set_n-IsWindow s.pplns n h.valid (omega arith) in
      (record s { pplns = p }, rw e, record { valid = v; small = omega (arith, same) })
  process-IsSound o s (new_solution commitment) b h = (_, refl, h)
  process-IsSound o s exit b h = (_, refl, h)

  -- If the window is valid and its size below 2^63, then over messages whose numbers are below
  -- 2^63 the task never panics, whatever fails outside, and its window stays so.
  pub run-IsSound :
      (messages : List (Outside × AccountingMessage Commitment Owner))
      (s : Accounting Commitment Owner)
      → All (λ e. IsBounded e.1) messages
      → IsSound s.pplns
      → (s' : Accounting Commitment Owner) × (run dec messages s ≡ done s') × IsSound s'.pplns
  unfolding run
  run-IsSound [] s b h = (s, refl, h)
  run-IsSound ((o, m) ∷ messages) s b h =
      let (s₁, e₁, h₁) = process-IsSound o s m b.0 h in
      let (s₂, e₂, h₂) = run-IsSound messages s₁ b.1 h₁ in (s₂, rw e₁ e₂, h₂)

  run-append :
      (ms more : List (Outside × AccountingMessage Commitment Owner))
      (s : Accounting Commitment Owner)
      → run dec (ms ++ more) s ≡ (run dec ms s >>= run dec more)
  unfolding run
  run-append [] more s = refl
  run-append ((o, m) ∷ ms) more s =
      >>=_congr (process dec o s m) (run-append ms more)
      ∙ sym (>>=_assoc (process dec o s m) (run dec ms) (run dec more))

  -- If the task starts with a file whose window is valid and of a size below 2^63, then gets
  -- messages whose numbers are below 2^63, and at last `Exit` with a file that can be written, it
  -- does not panic and ends closed, with the exit lock set, and what it wrote is loaded again as
  -- the window that the messages had made.
  pub run_exit-load :
      (file : Option (Pplns Owner)) (db : Database Commitment Owner)
      (messages : List (Outside × AccountingMessage Commitment Owner)) (last : Outside)
      → All (λ e. IsBounded e.1) messages
      → IsSound (load file)
      → last.writable ≡ true
      → (s s' : Accounting Commitment Owner) × (run dec messages (start file db) ≡ done s)
        × (run dec (messages ++ (last, exit) ∷ []) (start file db) ≡ done s')
        × (load s'.saved ≡ s.pplns)
        × (s'.pplns ≡ s.pplns)
        × (s'.exit_lock ≡ true)
        × (s'.closed ≡ true)
  unfolding start load save process run
  run_exit-load file db messages last b h w =
      let (s, e, sound) = run-IsSound messages (start file db) b h in
      (
        s,
        record s { closed = true; saved = some s.pplns; exit_lock = true },
        e,
        rw (run-append messages ((last, exit) ∷ []) (start file db), e, w) refl,
        refl,
        refl,
        refl,
        refl,
      )
