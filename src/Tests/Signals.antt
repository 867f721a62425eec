-- ===== src/Tests/Signals.antt =====
-- A program that is told to end while a message waits.
use aleo_pool_server.Prelude.{ℕ, ◌≡◌, refl, List, [], ◌∷◌, ◌++◌, some, true, Bool, done, All, arith}
use native.Mathlib.Decide.{ℕ_discrete as dec}
use aleo_pool_server.Pplns
use aleo_pool_server.Accounting.{
  Accounting, AccountingMessage, set_n, exit, load, start, process, save,
}
use aleo_pool_server.Accounting.History.{IsBounded, IsSound}
use aleo_pool_server.Shutdown.{
  Program, Reaches, Ends, exits, sigterm, waiting, started, can_send, handle_signal, written, sends,
  handles, signals, tells, begins, goes,
}
use aleo_pool_server.Shutdown.Window.{shares_made}
use aleo_pool_server.Shutdown.Saved.{Ends-Holds}
use aleo_pool_server.Shutdown.Exits.{Steps, can_end}
use aleo_pool_server.Tests.Window.{window}
use aleo_pool_server.Tests.Stores.{stored}
use aleo_pool_server.Tests.Rounds.{fine, window-IsSound}

-- The program with `queue` in the channel of the accounting `s`, waiting for the accounting to end.
abbrev waits : Accounting ℕ ℕ → List (AccountingMessage ℕ ℕ) → Program ℕ ℕ
waits s queue = record { accounting = s; queue = queue; handler = waiting exits }

abbrev first : Accounting ℕ ℕ
first = record {
  pplns = window;
  database = stored;
  round_cache = record { duration = 10000000000; instants = []; values = [] };
  saved = some window;
  exit_lock = Bool.false;
  closed = Bool.false;
}

told :
    Reaches dec
      (some window)
      stored
      (set_n 100 ∷ exit ∷ [])
      []
      (waits first (set_n 100 ∷ exit ∷ []))
unfolding started start load can_send handle_signal aleo_pool_server.Cache.new
told =
    goes (set_n 100 ∷ []) (exit ∷ []) [] [] _ _
      (goes (set_n 100 ∷ []) [] [] [] _ _
        (goes [] (set_n 100 ∷ []) [] [] _ _ begins
          (sends (started (some window) stored) (set_n 100) refl))
        (signals _ sigterm refl))
      (tells _ exits refl refl)

abbrev resized : Accounting ℕ ℕ
resized = record first { pplns = record window { n = 100 } }

abbrev ended : Accounting ℕ ℕ
ended = record resized { closed = true; saved = some resized.pplns; exit_lock = true }

all_handled : Reaches dec (some window) stored (set_n 100 ∷ exit ∷ []) (true ∷ []) (waits ended [])
unfolding written process save Pplns.set_n Pplns.shrink
all_handled =
    goes (set_n 100 ∷ exit ∷ []) [] [] (true ∷ []) _ _
      (goes (set_n 100 ∷ exit ∷ []) [] [] [] _ _ told (
        handles (waits first (set_n 100 ∷ exit ∷ [])) (set_n 100) (exit ∷ []) fine resized refl
          refl))
      (handles (waits resized (exit ∷ [])) exit [] fine ended refl refl)

Ends-Holds_example :
    (first second rest : List (AccountingMessage ℕ ℕ)) × (first ++ exit ∷ second ++ rest
      ≡ set_n 100 ∷ exit ∷ [])
    × (shares_made (first ++ exit ∷ second) (load (some window)) ≡ done (load ended.saved))
Ends-Holds_example =
    Ends-Holds dec (some window) stored (set_n 100 ∷ exit ∷ []) (true ∷ []) (waits ended []) exits
      all_handled (record { waited = refl; locked = refl }) (refl, tt)

file-IsSound : IsSound (load (some window))
unfolding load
file-IsSound = window-IsSound

sent-IsBounded : All (IsBounded {Commitment = ℕ} {Owner = ℕ}) (set_n 100 ∷ exit ∷ [])
sent-IsBounded = (omega arith, (tt, tt))

can_end_example :
    (q : Program ℕ ℕ) × Steps dec (waits first (set_n 100 ∷ exit ∷ [])) q × Ends q exits
can_end_example =
    can_end dec (some window) stored (set_n 100 ∷ exit ∷ []) []
      (waits first (set_n 100 ∷ exit ∷ [])) exits fine told file-IsSound sent-IsBounded refl
