-- ===== src/Shutdown/Exits.antt =====
-- How a program that was told to end goes on.
use aleo_pool_server.Prelude.{
  All-append_left, All-append_right, subst, ◌≡◌, refl, ap, ◌∙◌, sym, Bool, true, List, [], ◌∷◌,
  ◌++◌, Option, done, inl, inr, All, All-append, ◌⊎◌,
}
use aleo_pool_server.Database.{Database}
use aleo_pool_server.Pplns.{Pplns}
use aleo_pool_server.Accounting.{Accounting, AccountingMessage, exit, Outside, load, start, process}
use aleo_pool_server.Accounting.History.{IsBounded, IsSound, process-IsSound}
use aleo_pool_server.Shutdown.{
  Program, Step, Reaches, Ends, Ending, started, backup, written, handle_signal, waiting, Signal,
  sigabrt, sigterm, sighup, sigint, sigquit, sigusr1, sigtstp, sends, handles, backs_up, answers,
  signals, tells, fails, begins, goes,
}
use aleo_pool_server.Shutdown.Window.{done-injective, process-IsHandled, current_round_keeps}

not_waiting : (signal : Signal) (e : Ending) → ¬ (handle_signal signal ≡ waiting e)
unfolding handle_signal
not_waiting sigabrt e h = absurd (cc h)
not_waiting sigterm e h = absurd (cc h)
not_waiting sighup e h = absurd (cc h)
not_waiting sigint e h = absurd (cc h)
not_waiting sigquit e h = absurd (cc h)
not_waiting sigusr1 e h = absurd (cc h)
not_waiting sigtstp e h = absurd (cc h)

module _ {Commitment Owner : Type 0} where
  -- An `Exit` is among messages.
  HasExit : List (AccountingMessage Commitment Owner) → Type 0
  HasExit [] = ⊥
  HasExit (m ∷ ms) = (m ≡ exit) ⊎ HasExit ms

  HasExit-append :
      (ms more : List (AccountingMessage Commitment Owner)) → HasExit ms → HasExit (ms ++ more)
  unfolding HasExit
  HasExit-append (m ∷ ms) more (inl e) = inl e
  HasExit-append (m ∷ ms) more (inr h) = inr (HasExit-append ms more h)
  HasExit-append [] more h = absurd h

  HasExit-last : (ms : List (AccountingMessage Commitment Owner)) → HasExit (ms ++ exit ∷ [])
  unfolding HasExit
  HasExit-last [] = inl refl
  HasExit-last (m ∷ ms) = inr (HasExit-last ms)

  -- The task does not panic on what it gets, and if `Exit` is waited for, it was handled or will be.
  record IsLive (p : Program Commitment Owner) : Type 0 where
    sound : IsSound p.accounting.pplns
    bounded : All IsBounded p.queue
    locks : p.accounting.closed ≡ true → p.accounting.exit_lock ≡ true
    told : (e : Ending) → p.handler ≡ waiting e → (p.accounting.exit_lock ≡ true) ⊎ HasExit p.queue

module _ {Commitment Owner : Type 0} (dec : Discrete Owner) where
  process_exit :
      (o : Outside) (s s' : Accounting Commitment Owner) (m : AccountingMessage Commitment Owner)
      → m ≡ exit
      → process dec o s m ≡ done s'
      → s'.exit_lock ≡ true
  unfolding process
  process_exit o s s' m e h =
      let handled : process dec o s exit ≡ done s' = subst (λ m. process dec o s m ≡ done s') e h in
      ap (λ (s : Accounting Commitment Owner). s.exit_lock) (sym (done-injective _ s' handled))

  handles-IsLive :
      (p : Program Commitment Owner) (m : AccountingMessage Commitment Owner)
      (ms : List (AccountingMessage Commitment Owner)) (o : Outside)
      (s : Accounting Commitment Owner)
      → p.queue ≡ m ∷ ms
      → process dec o p.accounting m ≡ done s
      → IsLive p
      → IsLive (record p { accounting = s; queue = ms })
  unfolding HasExit
  handles-IsLive p m ms o s e h i =
      let bounded : All IsBounded (m ∷ ms) = subst (All IsBounded) e i.bounded in
      let (t, f, sound) = process-IsSound dec o p.accounting m bounded.0 i.sound in
      let writes = (process-IsHandled dec o m p.accounting s h).writes in
      record {
        sound =
            subst (λ (s : Accounting Commitment Owner). IsSound s.pplns)
              (done-injective t s (sym f ∙ h)) sound;
        bounded = bounded.1;
        locks = λ c. elim writes [
          | inl (x, wr, saved, pplns, lock, closed) ↦ lock
          | inr (saved, lock, closed) ↦ lock ∙ i.locks (sym closed ∙ c)
        ];
        told = λ en w. elim writes [
          | inl (x, wr, saved, pplns, lock, closed) ↦ inl lock
          | inr (saved, lock, closed) ↦ elim (i.told en w) [
            | inl l ↦ inl (lock ∙ l)
            | inr has ↦ elim (subst HasExit e has) [
              | inl x ↦ inl (process_exit o p.accounting s m x h)
              | inr later ↦ inr later
            ]
          ]
        ];
      }

  step-IsLive :
      (p q : Program Commitment Owner) (more : List (AccountingMessage Commitment Owner))
      (last : List Bool)
      → Step dec p more last q
      → All IsBounded more
      → IsLive p
      → IsLive q
  unfolding backup
  step-IsLive p _ _ _ (sends _ m room) b i = record {
    sound = i.sound;
    bounded = All-append IsBounded p.queue (m ∷ []) i.bounded b;
    locks = i.locks;
    told = λ e w. elim (i.told e w) [
      | inl l ↦ inl l
      | inr has ↦ inr (HasExit-append p.queue (m ∷ []) has)
    ];
  }
  step-IsLive p _ _ _ (handles _ m ms o s e h) b i = handles-IsLive p m ms o s e h i
  step-IsLive p _ _ _ (backs_up _ writable) b i = record {
    sound = i.sound;
    bounded = i.bounded;
    locks = i.locks;
    told = i.told;
  }
  step-IsLive p _ _ _ (answers _ now) b i =
      let (same, saved, lock, closed) = current_round_keeps dec now p.accounting in
      record {
        sound = subst IsSound (sym same) i.sound;
        bounded = i.bounded;
        locks = λ c. lock ∙ i.locks (sym closed ∙ c);
        told = λ e w. elim (i.told e w) [ inl l ↦ inl (lock ∙ l) | inr has ↦ inr has ];
      }
  step-IsLive p _ _ _ (signals _ signal r) b i = record {
    sound = i.sound;
    bounded = i.bounded;
    locks = i.locks;
    told = λ e w. absurd (not_waiting signal e w);
  }
  step-IsLive p _ _ _ (tells _ e t room) b i = record {
    sound = i.sound;
    bounded = All-append IsBounded p.queue (exit ∷ []) i.bounded b;
    locks = i.locks;
    told = λ e w. inr (HasExit-last p.queue);
  }
  step-IsLive p _ _ _ (fails _ e t c) b i = record {
    sound = i.sound;
    bounded = i.bounded;
    locks = i.locks;
    told = λ e w. inl (i.locks c);
  }

  reaches-IsLive :
      (file : Option (Pplns Owner)) (database : Database Commitment Owner)
      (sent : List (AccountingMessage Commitment Owner)) (writes : List Bool)
      (p : Program Commitment Owner)
      → Reaches dec file database sent writes p
      → IsSound (load file)
      → All IsBounded sent
      → IsLive p
  unfolding started start
  reaches-IsLive file database _ _ _ begins h b = record {
    sound = h;
    bounded = tt;
    locks = λ c. absurd (cc c);
    told = λ e w. absurd (cc w);
  }
  reaches-IsLive file database _ _ q (goes sent more writes last p _ r s) h b =
      step-IsLive p q more last s (All-append_right IsBounded sent more b)
        (reaches-IsLive file database sent writes p r h (All-append_left IsBounded sent more b))

  -- Steps one after the other.
  pub data Steps : Program Commitment Owner → Program Commitment Owner → Type 0 where
    stays : (p : Program Commitment Owner) → Steps p p
    first :
        (p q r : Program Commitment Owner) (more : List (AccountingMessage Commitment Owner))
        (last : List Bool)
        → Step dec p more last q
        → Steps q r
        → Steps p r

  -- The task handles what is in the channel, up to the `Exit`.
  drain :
      (o : Outside) (queue : List (AccountingMessage Commitment Owner))
      (p : Program Commitment Owner) (e : Ending)
      → p.handler ≡ waiting e
      → p.queue ≡ queue
      → IsLive p
      → HasExit queue
      → (q : Program Commitment Owner) × Steps p q × Ends q e
  unfolding HasExit
  drain o [] p e w f i h = absurd h
  drain o (m ∷ ms) p e w f i h =
      let bounded : All IsBounded (m ∷ ms) = subst (All IsBounded) f i.bounded in
      let (s, done_, sound) = process-IsSound dec o p.accounting m bounded.0 i.sound in
      let q = record p { accounting = s; queue = ms } in
      let step = handles p m ms o s f done_ in
      elim h [
        | inl x ↦ (
          q,
          first p q q [] (written o m) step (stays q),
          record { waited = w; locked = process_exit o p.accounting s m x done_ },
        )
        | inr later ↦
            let (r, steps, ends) =
              drain o ms q e w refl (handles-IsLive p m ms o s f done_ i) later in
            (r, first p q r [] (written o m) step steps, ends)
      ]

  -- If the file had a valid window of a size below 2^63 at the start, and the numbers of all messages sent to
  -- the accounting are below 2^63, then from every state in which the handler of a signal waits, however
  -- it was reached and whatever fails outside, some steps lead to the end of the program.
  pub can_end :
      (file : Option (Pplns Owner)) (database : Database Commitment Owner)
      (sent : List (AccountingMessage Commitment Owner)) (writes : List Bool)
      (p : Program Commitment Owner) (e : Ending) (o : Outside)
      → Reaches dec file database sent writes p
      → IsSound (load file)
      → All IsBounded sent
      → p.handler ≡ waiting e
      → (q : Program Commitment Owner) × Steps p q × Ends q e
  can_end file database sent writes p e o r h b w =
      let i = reaches-IsLive file database sent writes p r h b in
      elim (i.told e w) [
        | inl locked ↦ (p, stays p, record { waited = w; locked = locked })
        | inr has ↦ drain o p.queue p e w refl i has
      ]
