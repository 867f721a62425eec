-- ===== src/Ledger/Invariant.antt =====
-- The invariant of the server, its tasks, the messages to the accounting, and the accounting together.
use Prim.Native.String.{String}
use aleo_pool_server.Prelude.{
  ℕ, ◌<◌, ◌^◌, ◌≡◌, sym, List, [], ◌∷◌, ◌++◌, arith, All, All-append, mul64, All-append_left,
  All-append_right, mul64_exact, ◌⊎◌, inl, inr, Bool-cases, ltb, subst,
}
use aleo_pool_server.Accounting.{Accounting, AccountingMessage, set_n}
use aleo_pool_server.Accounting.History.{IsSound}
use aleo_pool_server.World.{World}
use aleo_pool_server.Server.{Server, Effect, new_epoch_challenge}
use aleo_pool_server.Server.Epoch.{replace_challenge, update_target, new_epoch}
use aleo_pool_server.Ledger.{Task, pending, midway, posted, heard_after, IsHeard}
use aleo_pool_server.Ledger.Posts.{IsCredit, posted-update_target}
use aleo_pool_server.Ledger.Window.{
  HasSize, HasSize-left, HasSize-right, HasSize-out, IsFit, IsFit-more, credits-posted,
}

module _ (w : World) where
  open w use {EpochChallenge, Commitment}

  -- Once a challenge was heard, a new size of the window is not sent yet, or in the channel, or the window has
  -- five times a target that was heard.
  abbrev pub Sized :
      List (AccountingMessage Commitment String)
      → List (AccountingMessage Commitment String)
      → List ℕ
      → Accounting Commitment String
      → Type 0
  Sized posts queue heard a =
      HasSize posts ⊎ (HasSize queue ⊎ ((heard ≡ []) ⊎ IsHeard a.pplns.n heard))

  abbrev pub IsLowTask : Task w → Type 0
  IsLowTask (pending c m) = c.global_proof_target < 2 ^ 60
  IsLowTask (midway c m sender challenge) = c.global_proof_target < 2 ^ 60

  -- The invariant.
  pub record IsKept (tasks : List (Task w))
      (posts queue : List (AccountingMessage Commitment String)) (heard : List ℕ)
      (a : Accounting Commitment String) : Type 0 where
    pub low : All IsLowTask tasks
    pub unsent : All (IsFit heard) posts
    pub sent : All (IsFit heard) queue
    pub sized : Sized posts queue heard a
    pub sound : IsSound a.pplns

  -- A handler or a task that sends shares and solutions only.
  pub posted-IsKept :
      (tasks rest : List (Task w)) (posts queue : List (AccountingMessage Commitment String))
      (heard : List ℕ) (a : Accounting Commitment String) (es : List (Effect w))
      → All (IsCredit w) es
      → All IsLowTask rest
      → IsKept tasks posts queue heard a
      → IsKept rest (posts ++ posted w es) queue heard a
  posted-IsKept tasks rest posts queue heard a es credit low k = record {
    low = low;
    unsent = All-append _ posts (posted w es) k.unsent (credits-posted w heard es credit);
    sent = k.sent;
    sized = elim k.sized [ inl h ↦ inl (HasSize-left posts (posted w es) h) | inr h ↦ inr h ];
    sound = k.sound;
  }

  sends-Sized :
      (before after queue : List (AccountingMessage Commitment String)) (heard : List ℕ)
      (a : Accounting Commitment String) (m : AccountingMessage Commitment String)
      → Sized (before ++ m ∷ after) queue heard a
      → Sized (before ++ after) (queue ++ m ∷ []) heard a
  sends-Sized before after queue heard a m (inl h) = elim (HasSize-out before after m h) [
    | inl this ↦ inr (inl (HasSize-right queue (m ∷ []) this))
    | inr other ↦ inl other
  ]
  sends-Sized before after queue heard a m (inr (inl h)) = inr (inl (HasSize-left queue (m ∷ []) h))
  sends-Sized before after queue heard a m (inr (inr h)) = inr (inr h)

  pub sends-IsKept :
      (tasks : List (Task w)) (before after queue : List (AccountingMessage Commitment String))
      (heard : List ℕ) (a : Accounting Commitment String) (m : AccountingMessage Commitment String)
      → IsKept tasks (before ++ m ∷ after) queue heard a
      → IsKept tasks (before ++ after) (queue ++ m ∷ []) heard a
  sends-IsKept tasks before after queue heard a m k =
      let right = All-append_right _ before (m ∷ after) k.unsent in
      record {
        low = k.low;
        unsent = All-append _ before after (All-append_left _ before (m ∷ after) k.unsent) right.1;
        sent = All-append _ queue (m ∷ []) k.sent (right.0, tt);
        sized = sends-Sized before after queue heard a m k.sized;
        sound = k.sound;
      }

  -- A challenge that is not of an older epoch, whatever it replaces.
  update_target-IsKept :
      (s' : Server w) (tasks : List (Task w))
      (posts queue : List (AccountingMessage Commitment String)) (heard : List ℕ)
      (a : Accounting Commitment String) (challenge : EpochChallenge) (proof_target : ℕ)
      → proof_target < 2 ^ 60
      → IsKept tasks posts queue heard a
      → IsKept tasks
          (posts ++ posted w (update_target w s' challenge proof_target).1)
          queue
          (proof_target ∷ heard)
          a
  update_target-IsKept s' tasks posts queue heard a challenge proof_target l k =
      let exact = mul64_exact proof_target 5 (omega (arith, l)) in
      let set = set_n (mul64 proof_target 5) ∷ [] in
      let kept : IsKept tasks (posts ++ set) queue (proof_target ∷ heard) a = record {
        low = k.low;
        unsent =
            All-append _ posts set (IsFit-more heard proof_target posts k.unsent)
              ((omega (arith, l, exact), inl exact), tt);
        sent = IsFit-more heard proof_target queue k.sent;
        sized = inl (HasSize-right posts set tt);
        sound = k.sound;
      } in
      subst (λ ms. IsKept tasks (posts ++ ms) queue (proof_target ∷ heard) a)
        (sym (posted-update_target w s' challenge proof_target)) kept

  pub new_epoch-IsKept :
      (s : Server w) (tasks : List (Task w))
      (posts queue : List (AccountingMessage Commitment String)) (heard : List ℕ)
      (a : Accounting Commitment String) (challenge : EpochChallenge) (proof_target : ℕ)
      → proof_target < 2 ^ 60
      → IsKept tasks posts queue heard a
      → IsKept tasks
          (posts ++ posted w (new_epoch w s challenge proof_target).1)
          queue
          (heard_after w s (new_epoch_challenge challenge proof_target) heard)
          a
  unfolding new_epoch
  new_epoch-IsKept s tasks posts queue heard a challenge proof_target l k =
      elim (Bool-cases (ltb (w.epoch_number challenge) s.latest_epoch_number)) [
        | inl e ↦ rw e (posted-IsKept tasks tasks posts queue heard a [] tt k.low k)
        | inr e ↦ rw e (
            update_target-IsKept (replace_challenge w s challenge) tasks posts queue heard a
              challenge proof_target l k)
      ]
