-- ===== src/Ledger/Sound.antt =====
-- Every state that is reached keeps the invariant; so the accounting takes all that it is sent.
use Prim.Native.String.{String}
use aleo_pool_server.Prelude.{
  ◌≡◌, refl, sym, List, [], ◌∷◌, ◌++◌, done, All-append, All-append_left, All-append_right, ◌⊎◌,
  inl, inr, subst, map, ℕ,
}
use aleo_pool_server.Accounting.{
  Accounting, AccountingMessage, Outside, start, process, run, new_share, set_n, new_solution, exit,
}
use aleo_pool_server.Accounting.History.{IsSound, process-IsSound}
use aleo_pool_server.World.{World}
use aleo_pool_server.Server.{Server}
use aleo_pool_server.Ledger.{
  Task, midway, Feeds, starts, handles, spawns, checks, goes_on, sends, clears, takes, IsHeard,
}
use aleo_pool_server.Ledger.Posts.{go_on-IsCredit}
use aleo_pool_server.Ledger.Window.{HasSize, IsFit, IsFit-IsBounded, process-size_after}
use aleo_pool_server.Ledger.Invariant.{IsKept, Sized, posted-IsKept, sends-IsKept}
use aleo_pool_server.Ledger.Moves.{handles-IsKept, spawns-IsKept, checks-IsKept}

module _ (w : World) (dec : Discrete String) where
  open w use {Commitment}

  -- The accounting takes a message.
  takes-Sized :
      (o : Outside) (m : AccountingMessage Commitment String)
      (posts queue : List (AccountingMessage Commitment String)) (heard : List ℕ)
      (a b : Accounting Commitment String)
      → process dec o a m ≡ done b
      → IsFit heard m
      → Sized w posts (m ∷ queue) heard a
      → Sized w posts queue heard b
  takes-Sized o m posts queue heard a b ran fit (inl h) = inl h
  takes-Sized o (set_n k) posts queue heard a b ran fit (inr h) = inr (
      inr (
        inr
          (subst (λ n. IsHeard n heard) (sym (process-size_after dec o a b (set_n k) ran)) fit.1)))
  takes-Sized o (new_share owner value) posts queue heard a b ran fit (inr h) = inr (
      subst (λ n. HasSize queue ⊎ ((heard ≡ []) ⊎ IsHeard n heard))
        (sym (process-size_after dec o a b (new_share owner value) ran)) h)
  takes-Sized o (new_solution c) posts queue heard a b ran fit (inr h) = inr (
      subst (λ n. HasSize queue ⊎ ((heard ≡ []) ⊎ IsHeard n heard))
        (sym (process-size_after dec o a b (new_solution c) ran)) h)
  takes-Sized o exit posts queue heard a b ran fit (inr h) = inr (
      subst (λ n. HasSize queue ⊎ ((heard ≡ []) ⊎ IsHeard n heard))
        (sym (process-size_after dec o a b exit ran)) h)

  takes-IsKept :
      (o : Outside) (tasks : List (Task w)) (m : AccountingMessage Commitment String)
      (posts queue : List (AccountingMessage Commitment String)) (heard : List ℕ)
      (a b : Accounting Commitment String)
      → process dec o a m ≡ done b
      → IsKept w tasks posts (m ∷ queue) heard a
      → IsKept w tasks posts queue heard b
  takes-IsKept o tasks m posts queue heard a b ran k =
      let (c, other, sound) =
        process-IsSound dec o a m (IsFit-IsBounded heard m k.sent.0) k.sound in
      let same : c ≡ b = cc (ran, other) in
      record {
        low = k.low;
        unsent = k.unsent;
        sent = k.sent.1;
        sized = takes-Sized o m posts queue heard a b ran k.sent.0 k.sized;
        sound = subst (λ c. IsSound c.pplns) same sound;
      }

  Feeds-IsKept :
      {s : Server w} {tasks : List (Task w)}
      {posts queue : List (AccountingMessage Commitment String)} {heard : List ℕ}
      {a : Accounting Commitment String}
      → Feeds w dec s tasks posts queue heard a
      → IsKept w tasks posts queue heard a
  unfolding start
  Feeds-IsKept (starts now address file db sound) = record {
    low = tt;
    unsent = tt;
    sent = tt;
    sized = inr (inr (inl refl));
    sound = sound;
  }
  Feeds-IsKept (handles now s t tasks posts queue heard a request es f o l ran) =
      handles-IsKept w now s t tasks posts queue heard a request es o l ran (Feeds-IsKept f)
  Feeds-IsKept (spawns s tasks posts queue heard a m f l) =
      spawns-IsKept w s tasks posts queue heard a m l (Feeds-IsKept f)
  Feeds-IsKept (checks s before after posts queue heard a c m f) =
      checks-IsKept w s before after posts queue heard a c m (Feeds-IsKept f)
  Feeds-IsKept
        (goes_on now s t before after posts queue heard a c m sender challenge state es f known
          ran) =
      let k = Feeds-IsKept f in
      let task = midway c m sender challenge in
      let right = All-append_right _ before (task ∷ after) k.low in
      posted-IsKept w (before ++ task ∷ after) (before ++ after) posts queue heard a es
        (go_on-IsCredit w now c s sender challenge state m t es right.0 ran)
        (All-append _ before after (All-append_left _ before (task ∷ after) k.low) right.1) k
  Feeds-IsKept (sends s tasks before after queue heard a m f) =
      sends-IsKept w tasks before after queue heard a m (Feeds-IsKept f)
  Feeds-IsKept (clears s tasks posts queue heard a f) = Feeds-IsKept f
  Feeds-IsKept (takes o s tasks m posts queue heard a b f ran) =
      takes-IsKept o tasks m posts queue heard a b ran (Feeds-IsKept f)

  -- From any start with a valid window of a size below 2^63, where all proof targets are below 2^60 and no
  -- submission is handled before the server stored one; however the handlers, the two parts of the tasks
  -- of submissions, their sends and the task of accounting are mixed: the accounting takes all that is in
  -- the channel without a panic, whatever fails outside; and then, if a challenge was taken that was not of
  -- an older epoch, its window has five times the proof target of such a challenge, or a new size is
  -- still to be sent.
  pub Feeds-run :
      (messages : List (Outside × AccountingMessage Commitment String)) (s : Server w)
      (tasks : List (Task w)) (posts : List (AccountingMessage Commitment String)) (heard : List ℕ)
      (a : Accounting Commitment String)
      → Feeds w dec s tasks posts (map (λ e. e.1) messages) heard a
      → (b : Accounting Commitment String) × (run dec messages a ≡ done b)
        × Feeds w dec s tasks posts [] heard b
        × ((heard ≡ []) ⊎ (IsHeard b.pplns.n heard ⊎ HasSize posts))
  unfolding run
  Feeds-run [] s tasks posts heard a f = (
    a,
    refl,
    f,
    elim (Feeds-IsKept f).sized [
      | inl unsent ↦ inr (inr unsent)
      | inr (inl sent) ↦ absurd sent
      | inr (inr (inl unheard)) ↦ inl unheard
      | inr (inr (inr h)) ↦ inr (inl h)
    ],
  )
  Feeds-run ((o, m) ∷ messages) s tasks posts heard a f =
      let k = Feeds-IsKept f in
      let (b, ran, _) = process-IsSound dec o a m (IsFit-IsBounded heard m k.sent.0) k.sound in
      let (c, more, f', z) =
        Feeds-run messages s tasks posts heard b
          (takes o s tasks m posts (map (λ e. e.1) messages) heard a b f ran) in
      (c, rw ran more, f', z)
