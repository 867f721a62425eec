-- ===== src/Ledger/Moves.antt =====
-- The steps of the server keep the invariant.
use Prim.Native.String.{String}
use aleo_pool_server.Prelude.{
  Outcome, ℕ, ◌<◌, ◌^◌, ◌≡◌, refl, List, [], ◌∷◌, ◌++◌, done, All, All-append, All-append_left,
  All-append_right, Option-cases, inl, inr, subst,
}
use aleo_pool_server.Accounting.{Accounting, AccountingMessage}
use aleo_pool_server.World.{World}
use aleo_pool_server.Server.{
  Server, ServerMessage, prover_connected, prover_authenticated, prover_disconnected, prover_submit,
  new_epoch_challenge, exit, Effect,
}
use aleo_pool_server.Server.Connections.{connect, authenticate, initial_job}
use aleo_pool_server.Server.Dispatch.{process_message}
use aleo_pool_server.Server.Dispatch.Nonces.{IsOther}
use aleo_pool_server.Server.Submit.{Snapshot, Submission, snapshot}
use aleo_pool_server.Server.Submit.Parts.{Progress, answered, passed, check}
use aleo_pool_server.Ledger.{Task, pending, left_of, posted, heard_after, answers, IsLow}
use aleo_pool_server.Ledger.Posts.{IsCredit, check-IsCredit}
use aleo_pool_server.Server.Submit.Cases.{Runs-unique}
use aleo_pool_server.Ledger.Invariant.{IsKept, IsLowTask, posted-IsKept, new_epoch-IsKept}

module _ (w : World) where
  open w use {Commitment}

  initial_job-IsCredit :
      (s : Server w) (sender : w.Sender) → All (IsCredit w) (initial_job w s sender)
  unfolding initial_job
  initial_job-IsCredit s sender = elim (Option-cases s.latest_epoch_challenge) [
    | inl e ↦ rw e tt
    | inr (challenge, e) ↦ rw e (tt, tt)
  ]

  -- A handler that sends shares and solutions only, if any.
  credits-IsKept :
      (s t u : Server w) (tasks : List (Task w))
      (posts queue : List (AccountingMessage Commitment String)) (heard : List ℕ)
      (a : Accounting Commitment String) (es fs : List (Effect w))
      (o : Outcome (Server w × List (Effect w)))
      → o ≡ done (u, fs)
      → All (IsCredit w) fs
      → o ≡ done (t, es)
      → IsKept w tasks posts queue heard a
      → IsKept w tasks (posts ++ posted w es) queue heard a
  credits-IsKept s t u tasks posts queue heard a es fs o e credit ran k =
      posted-IsKept w tasks tasks posts queue heard a es
        (subst (All (IsCredit w)) (Runs-unique w o u t fs es e ran).1 credit) k.low k

  pub handles-IsKept :
      (now : ℕ) (s t : Server w) (tasks : List (Task w))
      (posts queue : List (AccountingMessage Commitment String)) (heard : List ℕ)
      (a : Accounting Commitment String) (request : ServerMessage w) (es : List (Effect w))
      → IsOther w request
      → IsLow w request
      → process_message w now s request ≡ done (t, es)
      → IsKept w tasks posts queue heard a
      → IsKept w tasks (posts ++ posted w es) queue (heard_after w s request heard) a
  unfolding process_message connect authenticate
  handles-IsKept now s t tasks posts queue heard a (prover_connected p) es o l ran k =
      credits-IsKept s t _ tasks posts queue heard a es _ _ refl (tt, tt) ran k
  handles-IsKept now s t tasks posts queue heard a (prover_authenticated p address sender) es o l
        ran k =
      credits-IsKept s t _ tasks posts queue heard a es _ _ refl (tt, initial_job-IsCredit s sender)
        ran k
  handles-IsKept now s t tasks posts queue heard a (prover_disconnected p) es o l ran k =
      credits-IsKept s t _ tasks posts queue heard a es _ _ refl tt ran k
  handles-IsKept now s t tasks posts queue heard a (prover_submit id p epoch nonce commitment proof)
        es o l ran k =
      absurd o
  handles-IsKept now s t tasks posts queue heard a (new_epoch_challenge challenge proof_target) es o
        l ran k =
      let heard' = heard_after w s (new_epoch_challenge challenge proof_target) heard in
      subst (λ fs. IsKept w tasks (posts ++ posted w fs) queue heard' a)
        (Runs-unique w _ _ t _ es refl ran).1
        (new_epoch-IsKept w s tasks posts queue heard a challenge proof_target l k)
  handles-IsKept now s t tasks posts queue heard a exit es o l ran k =
      credits-IsKept s t _ tasks posts queue heard a es _ _ refl tt ran k

  pub spawns-IsKept :
      (s : Server w) (tasks : List (Task w))
      (posts queue : List (AccountingMessage Commitment String)) (heard : List ℕ)
      (a : Accounting Commitment String) (m : Submission w)
      → s.latest_proof_target < 2 ^ 60
      → IsKept w tasks posts queue heard a
      → IsKept w (tasks ++ pending (snapshot w s) m ∷ []) posts queue heard a
  unfolding snapshot
  spawns-IsKept s tasks posts queue heard a m l k = record {
    low = All-append _ tasks _ k.low (l, tt);
    unsent = k.unsent;
    sent = k.sent;
    sized = k.sized;
    sound = k.sound;
  }

  left_of-IsLow :
      (c : Snapshot w) (m : Submission w) (p : Progress w)
      → c.global_proof_target < 2 ^ 60
      → All (IsLowTask w) (left_of w c m p)
  left_of-IsLow c m (answered es) l = tt
  left_of-IsLow c m (passed sender challenge) l = (l, tt)

  pub checks-IsKept :
      (s : Server w) (before after : List (Task w))
      (posts queue : List (AccountingMessage Commitment String)) (heard : List ℕ)
      (a : Accounting Commitment String) (c : Snapshot w) (m : Submission w)
      → let p = (check w c s m).1 in
        IsKept w (before ++ pending c m ∷ after) posts queue heard a
        → IsKept w
            (before ++ (left_of w c m p ++ after))
            (posts ++ posted w (answers w p))
            queue
            heard
            a
  checks-IsKept s before after posts queue heard a c m k =
      let p = (check w c s m).1 in
      let left = All-append_left _ before (pending c m ∷ after) k.low in
      let right = All-append_right _ before (pending c m ∷ after) k.low in
      posted-IsKept w (before ++ pending c m ∷ after) (before ++ (left_of w c m p ++ after)) posts
        queue heard a (answers w p) (check-IsCredit w c s m)
        (All-append _ before _ left
          (All-append _ (left_of w c m p) after (left_of-IsLow c m p right.0) right.1))
        k
