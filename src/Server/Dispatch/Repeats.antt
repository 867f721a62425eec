-- ===== src/Server/Dispatch/Repeats.antt =====
-- A nonce that was credited is not credited again while the table of nonces is not cleared.
use aleo_pool_server.Prelude.{ℕ, ◌≡◌, false, true, List, done, ℕ_discrete}
use aleo_pool_server.Map
use aleo_pool_server.World.{World}
use aleo_pool_server.Server.{Server, Effect, ServerMessage}
use aleo_pool_server.Server.Prover.{ProverState}
use aleo_pool_server.Server.Submit.{Snapshot, Submission}
use aleo_pool_server.Server.Submit.Parts.{check, go_on}
use aleo_pool_server.Server.Dispatch.{process_message}
use aleo_pool_server.Server.Dispatch.Nonces.{IsOther, is_clearing}

module _ (w : World) where
  open w use {Sender, EpochChallenge}

  -- What follows a state while the nonces are not cleared: the parts of the tasks of any submissions, in any
  -- order, and other messages.
  pub data Retains (s : Server w) : Server w → Type 0 where
    stays : Retains s s
    checks :
        (c : Snapshot w) (t : Server w) (m : Submission w)
        → Retains s t
        → Retains s (check w c t m).0
    goes_on :
        (now : ℕ) (c : Snapshot w) (t u : Server w) (sender : Sender) (challenge : EpochChallenge)
        (state : ProverState w) (m : Submission w) (es : List (Effect w))
        → Retains s t
        → go_on w now c t sender challenge state m ≡ done (u, es)
        → Retains s u
    handles :
        (now : ℕ) (t u : Server w) (request : ServerMessage w) (es : List (Effect w))
        → Retains s t
        → IsOther w request
        → is_clearing w t request ≡ false
        → process_message w now t request ≡ done (u, es)
        → Retains s u

  abbrev HasSeen : ℕ → Server w → Type 0
  HasSeen n s = Map.contains ℕ_discrete n s.nonce_seen ≡ true
