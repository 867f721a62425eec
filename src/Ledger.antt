-- ===== src/Ledger.antt =====
-- The server and accounting together: the handlers of src/server.rs, the tasks of submissions that they
-- spawn, in two parts, the channel of accounting messages, and the task of `Accounting::init` in
-- src/accounting.rs that takes them out. What a handler or a task sends is in the channel only after a step of
-- its own, so that the sends of two of them can change places; a send that waits for room is a message that
-- is not sent yet.
pub mod Posts
pub mod Window
pub mod Invariant
pub mod Moves
pub mod Sound
use Prim.Native.String.{String}
use aleo_pool_server.Prelude.{
  ℕ, ◌<◌, ◌^◌, ◌*◌, ◌≡◌, ◌⊎◌, List, [], ◌∷◌, ◌++◌, Option, some, done, ltb, if◌then◌else◌,
}
use aleo_pool_server.Map
use aleo_pool_server.Pplns.{Pplns}
use aleo_pool_server.Database.{Database}
use aleo_pool_server.Accounting.{Accounting, AccountingMessage, Outside, start, load, process}
use aleo_pool_server.Accounting.History.{IsSound}
use aleo_pool_server.World.{World}
use aleo_pool_server.Server.{
  Server, ServerMessage, new_epoch_challenge, Effect, to_accounting, init,
}
use aleo_pool_server.Server.Prover.{ProverState}
use aleo_pool_server.Server.Dispatch.{process_message}
use aleo_pool_server.Server.Dispatch.Nonces.{IsOther}
use aleo_pool_server.Server.Submit.{Snapshot, Submission, snapshot, clear_nonce}
use aleo_pool_server.Server.Submit.Parts.{Progress, answered, passed, check, go_on}

-- Five times one of the proof targets.
abbrev pub IsHeard : ℕ → List ℕ → Type 0
IsHeard n [] = ⊥
IsHeard n (proof_target ∷ heard) = (n ≡ proof_target * 5) ⊎ IsHeard n heard

module _ (w : World) where
  open w use {Sender, EpochChallenge, Commitment}

  -- What accounting is sent among the effects.
  abbrev pub posted : List (Effect w) → List (AccountingMessage Commitment String)
  posted [] = []
  posted (to_accounting m ∷ es) = m ∷ posted es
  posted (e ∷ es) = posted es

  -- A challenge has a proof target below 2^60.
  abbrev pub IsLow : ServerMessage w → Type 0
  IsLow (new_epoch_challenge challenge proof_target) = proof_target < 2 ^ 60
  IsLow request = Unit {0}

  -- The proof targets of the challenges that were not of an older epoch.
  abbrev pub heard_after : Server w → ServerMessage w → List ℕ → List ℕ
  heard_after s (new_epoch_challenge challenge proof_target) heard =
      if ltb (w.epoch_number challenge) s.latest_epoch_number then heard else proof_target ∷ heard
  heard_after s request heard = heard

  -- The task of a submission: it did not run yet, or it passed the check of its nonce.
  pub data Task : Type 0 where
    pending : Snapshot w → Submission w → Task
    midway : Snapshot w → Submission w → Sender → EpochChallenge → Task

  -- What the first part of a task leaves of it, and what it sends.
  abbrev pub left_of : Snapshot w → Submission w → Progress w → List Task
  left_of c m (answered es) = []
  left_of c m (passed sender challenge) = midway c m sender challenge ∷ []

  abbrev pub answers : Progress w → List (Effect w)
  answers (answered es) = es
  answers (passed sender challenge) = []

module _ (w : World) (dec : Discrete String) where
  open w use {Address, Sender, EpochChallenge, Commitment, dec_peer}

  -- What is reached from the start: the server, the tasks of submissions, the messages to the accounting that
  -- were not sent yet, those in the channel, the proof targets of the challenges that were not of an
  -- older epoch, and the accounting.
  pub data Feeds
      : Server w
        → List (Task w)
        → List (AccountingMessage Commitment String)
        → List (AccountingMessage Commitment String)
        → List ℕ
        → Accounting Commitment String
        → Type 0 where
    starts :
        (now : ℕ) (address : Address) (file : Option (Pplns String))
        (db : Database Commitment String)
        → IsSound (load file)
        → Feeds (init w now address) [] [] [] [] (start file db)
    -- a handler, but that of a submission
    handles :
        (now : ℕ) (s t : Server w) (tasks : List (Task w))
        (posts queue : List (AccountingMessage Commitment String)) (heard : List ℕ)
        (a : Accounting Commitment String) (request : ServerMessage w) (es : List (Effect w))
        → Feeds s tasks posts queue heard a
        → IsOther w request
        → IsLow w request
        → process_message w now s request ≡ done (t, es)
        → Feeds t tasks (posts ++ posted w es) queue (heard_after w s request heard) a
    -- the handler of a submission, once a low proof target was stored
    spawns :
        (s : Server w) (tasks : List (Task w))
        (posts queue : List (AccountingMessage Commitment String)) (heard : List ℕ)
        (a : Accounting Commitment String) (m : Submission w)
        → Feeds s tasks posts queue heard a
        → s.latest_proof_target < 2 ^ 60
        → Feeds s (tasks ++ pending (snapshot w s) m ∷ []) posts queue heard a
    -- the first part of any of the tasks
    checks :
        (s : Server w) (before after : List (Task w))
        (posts queue : List (AccountingMessage Commitment String)) (heard : List ℕ)
        (a : Accounting Commitment String) (c : Snapshot w) (m : Submission w)
        → Feeds s (before ++ pending c m ∷ after) posts queue heard a
        → Feeds
            (check w c s m).0
            (before ++ (left_of w c m (check w c s m).1 ++ after))
            (posts ++ posted w (answers w (check w c s m).1))
            queue
            heard
            a
    -- the second part
    goes_on :
        (now : ℕ) (s t : Server w) (before after : List (Task w))
        (posts queue : List (AccountingMessage Commitment String)) (heard : List ℕ)
        (a : Accounting Commitment String) (c : Snapshot w) (m : Submission w) (sender : Sender)
        (challenge : EpochChallenge) (state : ProverState w) (es : List (Effect w))
        → Feeds s (before ++ midway c m sender challenge ∷ after) posts queue heard a
        → Map.get dec_peer m.peer_addr s.prover_states ≡ some state
        → go_on w now c s sender challenge state m ≡ done (t, es)
        → Feeds t (before ++ after) (posts ++ posted w es) queue heard a
    -- a handler or a task sends, in any order
    sends :
        (s : Server w) (tasks : List (Task w))
        (before after queue : List (AccountingMessage Commitment String)) (heard : List ℕ)
        (a : Accounting Commitment String) (m : AccountingMessage Commitment String)
        → Feeds s tasks (before ++ m ∷ after) queue heard a
        → Feeds s tasks (before ++ after) (queue ++ m ∷ []) heard a
    -- the ticker of sixty seconds
    clears :
        (s : Server w) (tasks : List (Task w))
        (posts queue : List (AccountingMessage Commitment String)) (heard : List ℕ)
        (a : Accounting Commitment String)
        → Feeds s tasks posts queue heard a
        → Feeds (clear_nonce s) tasks posts queue heard a
    -- the task of the accounting takes a message
    takes :
        (o : Outside) (s : Server w) (tasks : List (Task w))
        (m : AccountingMessage Commitment String)
        (posts queue : List (AccountingMessage Commitment String)) (heard : List ℕ)
        (a b : Accounting Commitment String)
        → Feeds s tasks posts (m ∷ queue) heard a
        → process dec o a m ≡ done b
        → Feeds s tasks posts queue heard b
