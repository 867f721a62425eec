-- ===== src/Server/Dispatch/Tasks.antt =====
-- The tasks of submissions, which run later than their handlers and in two parts, in any order between other
-- messages: the states and the tasks that are reached.
use aleo_pool_server.Prelude.{ℕ, ◌≡◌, Bool, List, [], ◌∷◌, ◌++◌, done, some, if◌then◌else◌}
use aleo_pool_server.Map
use aleo_pool_server.World.{World}
use aleo_pool_server.Server.{Server, Effect, ServerMessage}
use aleo_pool_server.Server.Prover.{ProverState}
use aleo_pool_server.Server.Dispatch.{process_message}
use aleo_pool_server.Server.Dispatch.Nonces.{IsOther, is_clearing}
use aleo_pool_server.Server.Submit.{Snapshot, Submission, snapshot, clear_nonce}
use aleo_pool_server.Server.Submit.Replay.{credits}
use aleo_pool_server.Server.Submit.Parts.{Progress, answered, passed, check, go_on}

module _ (w : World) where
  open w use {Sender, EpochChallenge, dec_peer}

  -- A task that passed the check of its nonce: it did not go on yet, or it ended and credited or not.
  pub data CheckedTask : Type 0 where
    waiting : Snapshot w → Submission w → Sender → EpochChallenge → CheckedTask
    finished : ℕ → Bool → CheckedTask

  abbrev pub nonce_of : CheckedTask → ℕ
  nonce_of (waiting c m sender challenge) = m.nonce
  nonce_of (finished nonce credited) = nonce

  abbrev pub logged : Snapshot w → Submission w → Progress w → List CheckedTask → List CheckedTask
  logged c m (answered es) log = log
  logged c m (passed sender challenge) log = waiting c m sender challenge ∷ log

  -- What is reached from any state of the server: the submissions whose tasks did not run yet, with what
  -- their handlers read; the tasks that passed the check since that state or since the table of nonces was
  -- last cleared; and those that passed it before.
  pub data Interleaves
      : Server w
        → List (Snapshot w × Submission w)
        → List CheckedTask
        → List CheckedTask
        → Type 0 where
    starts : (s : Server w) → Interleaves s [] [] []
    -- the handler of a submission
    spawns :
        (s : Server w) (tasks : List (Snapshot w × Submission w)) (log old : List CheckedTask)
        (m : Submission w)
        → Interleaves s tasks log old
        → Interleaves s (tasks ++ (snapshot w s, m) ∷ []) log old
    -- the first part of any task
    checks :
        (s : Server w) (before after : List (Snapshot w × Submission w))
        (log old : List CheckedTask) (c : Snapshot w) (m : Submission w)
        → Interleaves s (before ++ (c, m) ∷ after) log old
        → Interleaves (check w c s m).0 (before ++ after) (logged c m (check w c s m).1 log) old
    -- the second part of a task that passed since the last clearing, and of one that passed before
    goes_on :
        (now : ℕ) (s t : Server w) (tasks : List (Snapshot w × Submission w))
        (before after old : List CheckedTask) (c : Snapshot w) (m : Submission w) (sender : Sender)
        (challenge : EpochChallenge) (state : ProverState w) (es : List (Effect w))
        → Interleaves s tasks (before ++ waiting c m sender challenge ∷ after) old
        → Map.get dec_peer m.peer_addr s.prover_states ≡ some state
        → go_on w now c s sender challenge state m ≡ done (t, es)
        → Interleaves t tasks (before ++ finished m.nonce (credits w es) ∷ after) old
    goes_on_late :
        (now : ℕ) (s t : Server w) (tasks : List (Snapshot w × Submission w))
        (log before after : List CheckedTask) (c : Snapshot w) (m : Submission w) (sender : Sender)
        (challenge : EpochChallenge) (state : ProverState w) (es : List (Effect w))
        → Interleaves s tasks log (before ++ waiting c m sender challenge ∷ after)
        → Map.get dec_peer m.peer_addr s.prover_states ≡ some state
        → go_on w now c s sender challenge state m ≡ done (t, es)
        → Interleaves t tasks log (before ++ finished m.nonce (credits w es) ∷ after)
    -- the handler of another message
    handles :
        (now : ℕ) (s t : Server w) (tasks : List (Snapshot w × Submission w))
        (log old : List CheckedTask) (request : ServerMessage w) (es : List (Effect w))
        → Interleaves s tasks log old
        → IsOther w request
        → process_message w now s request ≡ done (t, es)
        → Interleaves t tasks
            (if is_clearing w s request then [] else log)
            (if is_clearing w s request then log ++ old else old)
    -- the ticker of sixty seconds
    clears :
        (s : Server w) (tasks : List (Snapshot w × Submission w)) (log old : List CheckedTask)
        → Interleaves s tasks log old
        → Interleaves (clear_nonce s) tasks [] (log ++ old)
