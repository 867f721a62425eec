-- ===== src/Shutdown.antt =====
-- The end of the program on a signal: `handle_signals` of src/main.rs, with what shares the accounting
-- with it: the channel and the two tasks of `Accounting::init`, and `wait_for_exit`, of src/accounting.rs.
-- Steps of the tasks come in any order.
pub mod Window
pub mod Saved
pub mod Exits
use aleo_pool_server.Prelude.{
  ℕ, ◌≡◌, Bool, true, false, List, [], ◌∷◌, ◌++◌, Option, length, ltb, Outcome, done,
}
use aleo_pool_server.Database.{Database}
use aleo_pool_server.Pplns.{Pplns}
use aleo_pool_server.Accounting.{
  Accounting, AccountingMessage, exit, Outside, start, save, process, current_round,
}

-- How the program ends: `abort`, or `exit(0)`.
pub data Ending : Type 0 where
  aborts exits : Ending

pub data Signal : Type 0 where
  sigabrt sigterm sighup sigint sigquit sigusr1 sigtstp : Signal

-- Where `handle_signals` is: before the next signal, in its `send`, or in `wait_for_exit`.
pub data Handler : Type 0 where
  ready : Handler
  telling : Ending → Handler
  waiting : Ending → Handler

-- The `match` on a signal.
unfoldable pub handle_signal : Signal → Handler
handle_signal sigabrt = telling aborts
handle_signal sigterm = telling exits
handle_signal sigint = telling exits
handle_signal sighup = telling exits
handle_signal sigquit = telling exits
handle_signal sigusr1 = ready
handle_signal sigtstp = ready

-- `channel(1024)`.
abbrev pub capacity : ℕ
capacity = 1024

-- The accounting, the messages in its channel, and the handler of signals.
pub record Program (Commitment Owner : Type 0) : Type 0 where
  pub accounting : Accounting Commitment Owner
  pub queue : List (AccountingMessage Commitment Owner)
  pub handler : Handler

module _ {Commitment Owner : Type 0} where
  unfoldable pub started :
      Option (Pplns Owner) → Database Commitment Owner → Program Commitment Owner
  started file database = record { accounting = start file database; queue = []; handler = ready }

  -- A sender can send: the channel is open and has room.
  unfoldable pub can_send : Program Commitment Owner → Bool
  can_send p = elim p.accounting.closed [ true ↦ false | false ↦ ltb (length p.queue) capacity ]

  -- The periodic save.
  unfoldable pub backup : Bool → Accounting Commitment Owner → Accounting Commitment Owner
  backup writable s = record s { saved = save writable s.pplns s.saved }

  -- What handling a message writes to the file.
  unfoldable pub written : Outside → AccountingMessage Commitment Owner → List Bool
  written o exit = o.writable ∷ []
  written o m = []

  -- The last step: `wait_for_exit` returns.
  pub record Ends (p : Program Commitment Owner) (e : Ending) : Type 0 where
    pub waited : p.handler ≡ waiting e
    pub locked : p.accounting.exit_lock ≡ true

module _ {Commitment Owner : Type 0} (dec : Discrete Owner) where
  -- A step, with the messages that it sends, and the outcomes of what it writes to the file.
  pub data Step
      : Program Commitment Owner
        → List (AccountingMessage Commitment Owner)
        → List Bool
        → Program Commitment Owner
        → Type 0 where
    -- a message of the server
    sends :
        (p : Program Commitment Owner) (m : AccountingMessage Commitment Owner)
        → can_send p ≡ true
        → Step p (m ∷ []) [] (record p { queue = p.queue ++ m ∷ [] })
    -- the task of the messages
    handles :
        (p : Program Commitment Owner) (m : AccountingMessage Commitment Owner)
        (ms : List (AccountingMessage Commitment Owner)) (o : Outside)
        (s : Accounting Commitment Owner)
        → p.queue ≡ m ∷ ms
        → process dec o p.accounting m ≡ done s
        → Step p [] (written o m) (record p { accounting = s; queue = ms })
    -- the backup
    backs_up :
        (p : Program Commitment Owner) (writable : Bool)
        → Step p [] (writable ∷ []) (record p { accounting = backup writable p.accounting })
    -- a query of the API
    answers :
        (p : Program Commitment Owner) (now : ℕ)
        → Step p [] [] (record p { accounting = (current_round dec now p.accounting).1 })
    signals :
        (p : Program Commitment Owner) (signal : Signal)
        → p.handler ≡ ready
        → Step p [] [] (record p { handler = handle_signal signal })
    -- the `send` of `Exit`, whose error is not looked at
    tells :
        (p : Program Commitment Owner) (e : Ending)
        → p.handler ≡ telling e
        → can_send p ≡ true
        → Step p (exit ∷ []) [] (record p { queue = p.queue ++ exit ∷ []; handler = waiting e })
    fails :
        (p : Program Commitment Owner) (e : Ending)
        → p.handler ≡ telling e
        → p.accounting.closed ≡ true
        → Step p [] [] (record p { handler = waiting e })

  -- What is reached from `started`, with the messages that were sent and the outcomes of the writes.
  pub data Reaches (file : Option (Pplns Owner)) (database : Database Commitment Owner)
      : List (AccountingMessage Commitment Owner)
        → List Bool
        → Program Commitment Owner
        → Type 0 where
    begins : Reaches file database [] [] (started file database)
    goes :
        (sent more : List (AccountingMessage Commitment Owner)) (written last : List Bool)
        (p q : Program Commitment Owner)
        → Reaches file database sent written p
        → Step p more last q
        → Reaches file database (sent ++ more) (written ++ last) q
