-- ===== src/Ledger/Window.antt =====
-- The messages to the accounting: the sizes of the window among them, and what each may be.
use aleo_pool_server.Prelude.{
  ℕ, ◌≡◌, List, [], ◌∷◌, ◌++◌, arith, done, All, inl, inr, Outcome-cases, ltb, add64, if◌then◌else◌,
  ◌⊎◌, ◌<◌, ◌^◌,
}
use aleo_pool_server.Pplns.{Pplns, Share, shrink}
use aleo_pool_server.Pplns
use aleo_pool_server.Accounting.{
  Accounting, AccountingMessage, new_share, set_n, new_solution, exit, Outside, process,
}
use aleo_pool_server.Accounting.History.{IsBounded}
use aleo_pool_server.World.{World}
use aleo_pool_server.Server.{exit, Effect, start_connection, to_prover, to_validator, to_accounting}
use aleo_pool_server.Ledger.{posted, IsHeard}
use aleo_pool_server.Ledger.Posts.{IsCredit}

module _ {Owner : Type 0} where
  add_share-n :
      (p q : Pplns Owner) (share : Share Owner) → Pplns.add_share p share ≡ done q → q.n ≡ p.n
  unfolding Pplns.add_share
  add_share-n p q share ran =
      elim (Outcome-cases (shrink p.n (p.queue ++ share ∷ []) (add64 p.current_n share.value))) [
        | inl e ↦ absurd (ground arith)
        | inr (r, e) ↦ ground arith
      ]

  set_n-n : (p q : Pplns Owner) (n : ℕ) → Pplns.set_n p n ≡ done q → q.n ≡ n
  unfolding Pplns.set_n
  set_n-n p q n ran =
      elim (Outcome-cases
        (if ltb n p.n then shrink n p.queue p.current_n else done (p.queue, p.current_n))) [
          | inl e ↦ absurd (ground arith)
          | inr (r, e) ↦ ground arith
        ]

module _ {Commitment Owner : Type 0} where
  -- The size of a window after a message.
  abbrev pub size_after : AccountingMessage Commitment Owner → ℕ → ℕ
  size_after (set_n k) n = k
  size_after m n = n

  pub process-size_after :
      (dec : Discrete Owner) (o : Outside) (a b : Accounting Commitment Owner)
      (m : AccountingMessage Commitment Owner)
      → process dec o a m ≡ done b
      → b.pplns.n ≡ size_after m a.pplns.n
  unfolding process Pplns.init
  process-size_after dec o a b (new_share owner value) ran =
      elim (Outcome-cases (Pplns.add_share a.pplns (Pplns.init value owner))) [
        | inl e ↦ absurd (ground arith)
        | inr (p, e) ↦
            let same : b.pplns ≡ p = ground arith in
            rw same (add_share-n a.pplns p (Pplns.init value owner) e)
      ]
  process-size_after dec o a b (set_n k) ran = elim (Outcome-cases (Pplns.set_n a.pplns k)) [
    | inl e ↦ absurd (ground arith)
    | inr (p, e) ↦ let same : b.pplns ≡ p = ground arith in rw same (set_n-n a.pplns p k e)
  ]
  process-size_after dec o a b (new_solution c) ran = ground arith
  process-size_after dec o a b exit ran = ground arith

  -- A new size of the window is among the messages.
  abbrev pub HasSize : List (AccountingMessage Commitment Owner) → Type 0
  HasSize [] = ⊥
  HasSize (set_n k ∷ ms) = Unit {0}
  HasSize (m ∷ ms) = HasSize ms

  pub HasSize-left :
      (ms more : List (AccountingMessage Commitment Owner)) → HasSize ms → HasSize (ms ++ more)
  HasSize-left [] more h = absurd h
  HasSize-left (set_n k ∷ ms) more h = tt
  HasSize-left (new_share owner value ∷ ms) more h = HasSize-left ms more h
  HasSize-left (new_solution c ∷ ms) more h = HasSize-left ms more h
  HasSize-left (exit ∷ ms) more h = HasSize-left ms more h

  pub HasSize-right :
      (ms more : List (AccountingMessage Commitment Owner)) → HasSize more → HasSize (ms ++ more)
  HasSize-right [] more h = h
  HasSize-right (set_n k ∷ ms) more h = tt
  HasSize-right (new_share owner value ∷ ms) more h = HasSize-right ms more h
  HasSize-right (new_solution c ∷ ms) more h = HasSize-right ms more h
  HasSize-right (exit ∷ ms) more h = HasSize-right ms more h

  -- It is a message that is taken out, or is still there.
  pub HasSize-out :
      (before after : List (AccountingMessage Commitment Owner))
      (m : AccountingMessage Commitment Owner)
      → HasSize (before ++ m ∷ after)
      → HasSize (m ∷ []) ⊎ HasSize (before ++ after)
  HasSize-out [] after (set_n k) h = inl tt
  HasSize-out [] after (new_share owner value) h = inr h
  HasSize-out [] after (new_solution c) h = inr h
  HasSize-out [] after exit h = inr h
  HasSize-out (set_n k ∷ before) after m h = inr tt
  HasSize-out (new_share owner value ∷ before) after m h = HasSize-out before after m h
  HasSize-out (new_solution c ∷ before) after m h = HasSize-out before after m h
  HasSize-out (exit ∷ before) after m h = HasSize-out before after m h

  -- What the accounting may be sent: bounded, and as a new size five times a target that was heard.
  abbrev pub IsFit : List ℕ → AccountingMessage Commitment Owner → Type 0
  IsFit heard (set_n k) = (k < 2 ^ 63) × IsHeard k heard
  IsFit heard m = IsBounded m

  pub IsFit-IsBounded :
      (heard : List ℕ) (m : AccountingMessage Commitment Owner) → IsFit heard m → IsBounded m
  IsFit-IsBounded heard (new_share owner value) h = h
  IsFit-IsBounded heard (set_n k) h = h.0
  IsFit-IsBounded heard (new_solution c) h = tt
  IsFit-IsBounded heard exit h = tt

  pub IsFit-more :
      (heard : List ℕ) (target : ℕ) (ms : List (AccountingMessage Commitment Owner))
      → All (IsFit heard) ms
      → All (IsFit (target ∷ heard)) ms
  IsFit-more heard target [] h = tt
  IsFit-more heard target (new_share owner value ∷ ms) h = (h.0, IsFit-more heard target ms h.1)
  IsFit-more heard target (set_n k ∷ ms) h = ((h.0.0, inr h.0.1), IsFit-more heard target ms h.1)
  IsFit-more heard target (new_solution c ∷ ms) h = (tt, IsFit-more heard target ms h.1)
  IsFit-more heard target (exit ∷ ms) h = (tt, IsFit-more heard target ms h.1)

module _ (w : World) where
  pub credits-posted :
      (heard : List ℕ) (es : List (Effect w))
      → All (IsCredit w) es
      → All (IsFit heard) (posted w es)
  credits-posted heard [] h = tt
  credits-posted heard (to_accounting (new_share owner value) ∷ es) h =
      (h.0, credits-posted heard es h.1)
  credits-posted heard (to_accounting (new_solution c) ∷ es) h = (tt, credits-posted heard es h.1)
  credits-posted heard (to_accounting (set_n k) ∷ es) h = absurd h.0
  credits-posted heard (to_accounting exit ∷ es) h = absurd h.0
  credits-posted heard (start_connection p ∷ es) h = credits-posted heard es h.1
  credits-posted heard (to_prover sender m ∷ es) h = credits-posted heard es h.1
  credits-posted heard (to_validator a k c p ∷ es) h = credits-posted heard es h.1
