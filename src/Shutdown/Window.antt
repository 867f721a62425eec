-- ===== src/Shutdown/Window.antt =====
-- The window that messages make.
use aleo_pool_server.Prelude.{
  subst, ◌≡◌, refl, ◌∙◌, sym, true, List, [], ◌∷◌, ◌++◌, Outcome, done, panic, ◌>>=◌, >>=_assoc,
  >>=_congr, inl, inr, Option-cases, ℕ, ◌⊎◌,
}
use aleo_pool_server.Pplns
use aleo_pool_server.Pplns.{Pplns}
use aleo_pool_server.Cache
use aleo_pool_server.Accounting.{
  Accounting, AccountingMessage, new_share, set_n, new_solution, exit, Outside, process,
  current_round, save, Null-discrete, null,
}
use aleo_pool_server.Shutdown.{written}

module _ {Commitment Owner : Type 0} where
  -- What a message does to the window.
  abbrev pub shares_step : AccountingMessage Commitment Owner → Pplns Owner → Outcome (Pplns Owner)
  shares_step (new_share address value) pplns = Pplns.add_share pplns (Pplns.init value address)
  shares_step (set_n n) pplns = Pplns.set_n pplns n
  shares_step (new_solution commitment) pplns = done pplns
  shares_step exit pplns = done pplns

  abbrev pub shares_made :
      List (AccountingMessage Commitment Owner) → Pplns Owner → Outcome (Pplns Owner)
  shares_made [] pplns = done pplns
  shares_made (m ∷ ms) pplns = shares_step m pplns >>= shares_made ms

  pub shares_made-append :
      (ms more : List (AccountingMessage Commitment Owner)) (pplns : Pplns Owner)
      → shares_made (ms ++ more) pplns ≡ (shares_made ms pplns >>= shares_made more)
  shares_made-append [] more pplns = refl
  shares_made-append (m ∷ ms) more pplns =
      >>=_congr (shares_step m pplns) (shares_made-append ms more)
      ∙ sym (>>=_assoc (shares_step m pplns) (shares_made ms) (shares_made more))

  pub shares_made-last :
      (ms : List (AccountingMessage Commitment Owner)) (m : AccountingMessage Commitment Owner)
      (first pplns pplns' : Pplns Owner)
      → shares_made ms first ≡ done pplns
      → shares_step m pplns ≡ done pplns'
      → shares_made (ms ++ m ∷ []) first ≡ done pplns'
  shares_made-last ms m first pplns pplns' e f =
      shares_made-append ms (m ∷ []) first ∙ rw e (rw f refl)

  pub done-injective : (s s' : Accounting Commitment Owner) → done s ≡ done s' → s ≡ s'
  done-injective s s' h = cc h

module _ {Commitment Owner : Type 0} (dec : Discrete Owner) where
  -- Only `Exit` writes the file and sets the lock.
  pub record IsHandled (o : Outside) (m : AccountingMessage Commitment Owner)
      (s s' : Accounting Commitment Owner) : Type 0 where
    pub steps : shares_step m s.pplns ≡ done s'.pplns
    pub writes :
        ((m ≡ exit)
          × (written o m ≡ o.writable ∷ [])
          × (s'.saved ≡ save o.writable s.pplns s.saved)
          × (s'.pplns ≡ s.pplns)
          × (s'.exit_lock ≡ true)
          × (s'.closed ≡ true))
        ⊎ ((s'.saved ≡ s.saved) × (s'.exit_lock ≡ s.exit_lock) × (s'.closed ≡ s.closed))

  change_window :
      (o : Outcome (Pplns Owner)) (s s' : Accounting Commitment Owner)
      → (o >>= (λ pplns. done (record s { pplns = pplns }))) ≡ done s'
      → (pplns : Pplns Owner) × (o ≡ done pplns) × (record s { pplns = pplns } ≡ s')
  change_window (done pplns) s s' h = (pplns, refl, cc h)
  change_window panic s s' h = absurd (cc h)

  carry :
      (o : Outside) (m : AccountingMessage Commitment Owner) (s t s' : Accounting Commitment Owner)
      → t ≡ s'
      → IsHandled o m s t
      → IsHandled o m s s'
  carry o m s t s' e h = subst (λ t. IsHandled o m s t) e h

  pub process-IsHandled :
      (o : Outside) (m : AccountingMessage Commitment Owner) (s s' : Accounting Commitment Owner)
      → process dec o s m ≡ done s'
      → IsHandled o m s s'
  unfolding process written
  process-IsHandled o (new_share address value) s s' h =
      let (pplns, e, f) =
        change_window (Pplns.add_share s.pplns (Pplns.init value address)) s s' h in
      carry o _ s _ s' f (record { steps = e; writes = inr (refl, refl, refl) })
  process-IsHandled o (set_n n) s s' h =
      let (pplns, e, f) = change_window (Pplns.set_n s.pplns n) s s' h in
      carry o _ s _ s' f (record { steps = e; writes = inr (refl, refl, refl) })
  process-IsHandled o (new_solution commitment) s s' h =
      carry o _ s _ s' (done-injective _ s' h)
        (record { steps = refl; writes = inr (refl, refl, refl) })
  process-IsHandled o exit s s' h =
      carry o _ s _ s' (done-injective _ s' h)
        (record { steps = refl; writes = inl (refl, refl, refl, refl, refl, refl) })

  -- A query changes nothing but the cache.
  pub current_round_keeps :
      (now : ℕ) (s : Accounting Commitment Owner)
      → let s' = (current_round dec now s).1 in
        (s'.pplns ≡ s.pplns)
        × (s'.saved ≡ s.saved)
        × (s'.exit_lock ≡ s.exit_lock)
        × (s'.closed ≡ s.closed)
  unfolding current_round
  current_round_keeps now s = elim (Option-cases (Cache.get Null-discrete now s.round_cache null)) [
    | inl e ↦ rw (current_round, e) (refl, refl, refl, refl)
    | inr (c, e) ↦ rw (current_round, e) (refl, refl, refl, refl)
  ]
