-- ===== src/Shutdown/Saved.antt =====
-- What the file holds when the program ends.
use mathlib.Core.List.{append_assoc, append-nil}
use aleo_pool_server.Prelude.{
  All-append_left, All-append_right, subst, ◌≡◌, refl, ap, ◌∙◌, sym, Bool, true, false, List, [],
  ◌∷◌, ◌++◌, Option, some, done, inl, inr, All,
}
use aleo_pool_server.Database.{Database}
use aleo_pool_server.Pplns.{Pplns}
use aleo_pool_server.Accounting.{Accounting, AccountingMessage, exit, Outside, save, load, start}
use aleo_pool_server.Shutdown.{
  Program, Step, Reaches, Ends, Ending, started, backup, written, sends, handles, backs_up, answers,
  signals, tells, fails, begins, goes,
}
use aleo_pool_server.Shutdown.Window.{
  shares_made, shares_made-last, IsHandled, process-IsHandled, current_round_keeps,
}

-- Every write succeeded.
abbrev pub AllWritten : List Bool → Type 0
AllWritten = All (λ writable. writable ≡ true)

module _ {Commitment Owner : Type 0} (dec : Discrete Owner) (file : Option (Pplns Owner))
    (database : Database Commitment Owner) where
  -- The file holds the window that the first of some messages made, up to an `Exit` or further.
  abbrev pub Holds : List (AccountingMessage Commitment Owner) → Option (Pplns Owner) → Type 0
  Holds messages saved =
      (first second rest : List (AccountingMessage Commitment Owner)) × (first
          ++ exit ∷ second
          ++ rest
        ≡ messages)
      × (shares_made (first ++ exit ∷ second) (load file) ≡ done (load saved))

  record IsSaved (sent : List (AccountingMessage Commitment Owner)) (writes : List Bool)
      (p : Program Commitment Owner) : Type 0 where
    handled : List (AccountingMessage Commitment Owner)
    split : handled ++ p.queue ≡ sent
    made : shares_made handled (load file) ≡ done p.accounting.pplns
    kept : AllWritten writes → p.accounting.exit_lock ≡ true → Holds handled p.accounting.saved

  Holds-append :
      (messages more : List (AccountingMessage Commitment Owner)) (saved : Option (Pplns Owner))
      → Holds messages saved
      → Holds (messages ++ more) saved
  Holds-append messages more saved (first, second, rest, e, f) = (
    first,
    second,
    rest ++ more,
    sym (append_assoc (first ++ exit ∷ second) rest more) ∙ ap (λ ms. ms ++ more) e,
    f,
  )

  started-IsSaved : IsSaved [] [] (started file database)
  unfolding started start
  started-IsSaved = record { handled = []; split = refl; made = refl; kept = λ w e. absurd (cc e) }

  -- A step that writes nothing, handles nothing and sends `more`.
  quiet-IsSaved :
      (sent more : List (AccountingMessage Commitment Owner)) (writes : List Bool)
      (p q : Program Commitment Owner)
      → q.queue ≡ p.queue ++ more
      → q.accounting.pplns ≡ p.accounting.pplns
      → q.accounting.saved ≡ p.accounting.saved
      → q.accounting.exit_lock ≡ p.accounting.exit_lock
      → IsSaved sent writes p
      → IsSaved (sent ++ more) (writes ++ []) q
  quiet-IsSaved sent more writes p q e f g h i = record {
    handled = i.handled;
    split =
        ap (◌++◌ i.handled) e
        ∙ sym (append_assoc i.handled p.queue more)
        ∙ ap (λ ms. ms ++ more) i.split;
    made = i.made ∙ ap done (sym f);
    kept = λ w l.
        subst (Holds i.handled) (sym g)
          (i.kept (All-append_left (λ writable. writable ≡ true) writes [] w) (sym h ∙ l));
  }

  -- The messages handled so far are all that the file holds.
  Holds-all :
      (messages : List (AccountingMessage Commitment Owner)) (saved : Option (Pplns Owner))
      (pplns : Pplns Owner)
      → Holds messages saved
      → shares_made messages (load file) ≡ done pplns
      → Holds messages (some pplns)
  unfolding load
  Holds-all messages saved pplns (first, second, rest, e, f) made =
      let whole = sym (append_assoc first (exit ∷ second) rest) ∙ e in
      (
        first,
        second ++ rest,
        [],
        append-nil (first ++ exit ∷ (second ++ rest)) ∙ whole,
        ap (λ ms. shares_made ms (load file)) whole ∙ made,
      )

  backup-IsSaved :
      (sent : List (AccountingMessage Commitment Owner)) (writes : List Bool)
      (p : Program Commitment Owner) (writable : Bool)
      → IsSaved sent writes p
      → IsSaved
          (sent ++ [])
          (writes ++ writable ∷ [])
          (record p { accounting = backup writable p.accounting })
  unfolding backup save
  backup-IsSaved sent writes p true i = record {
    handled = i.handled;
    split = i.split ∙ sym (append-nil sent);
    made = i.made;
    kept = λ w l.
        Holds-all i.handled p.accounting.saved p.accounting.pplns
          (i.kept (All-append_left (λ writable. writable ≡ true) writes (true ∷ []) w) l) i.made;
  }
  backup-IsSaved sent writes p false i = record {
    handled = i.handled;
    split = i.split ∙ sym (append-nil sent);
    made = i.made;
    kept =
        λ w l. absurd (cc (All-append_right (λ writable. writable ≡ true) writes (false ∷ []) w).0);
  }

  handled-IsSaved :
      (sent : List (AccountingMessage Commitment Owner)) (writes : List Bool)
      (p : Program Commitment Owner) (m : AccountingMessage Commitment Owner)
      (ms : List (AccountingMessage Commitment Owner)) (o : Outside)
      (s : Accounting Commitment Owner)
      → p.queue ≡ m ∷ ms
      → IsHandled dec o m p.accounting s
      → IsSaved sent writes p
      → IsSaved (sent ++ []) (writes ++ written o m) (record p { accounting = s; queue = ms })
  unfolding load save
  handled-IsSaved sent writes p m ms o s e h i =
      let made =
        shares_made-last i.handled m (load file) p.accounting.pplns s.pplns i.made h.steps in
      record {
        handled = i.handled ++ m ∷ [];
        split =
            append_assoc i.handled (m ∷ []) ms
            ∙ ap (◌++◌ i.handled) (sym e)
            ∙ i.split
            ∙ sym (append-nil sent);
        made = made;
        kept = λ w l. elim h.writes [
          | inl (x, wr, saved, pplns, lock, closed) ↦
              let writable =
                (subst AllWritten wr
                  (All-append_right (λ writable. writable ≡ true) writes (written o m) w)).0 in
              let file' = saved ∙ ap (λ b. save b p.accounting.pplns p.accounting.saved) writable in
              (
                i.handled,
                [],
                [],
                append-nil (i.handled ++ exit ∷ []) ∙ ap (λ m. i.handled ++ m ∷ []) (sym x),
                ap (λ m. shares_made (i.handled ++ m ∷ []) (load file)) (sym x)
                    ∙ made
                    ∙ ap done pplns
                    ∙ ap (λ f. done (load f)) (sym file'),
              )
          | inr (saved, lock, closed) ↦ subst (Holds (i.handled ++ m ∷ [])) (sym saved) (
              Holds-append i.handled (m ∷ []) p.accounting.saved (
                i.kept (All-append_left (λ writable. writable ≡ true) writes (written o m) w)
                  (sym lock ∙ l)))
        ];
      }

  step-IsSaved :
      (sent more : List (AccountingMessage Commitment Owner)) (writes last : List Bool)
      (p q : Program Commitment Owner)
      → Step dec p more last q
      → IsSaved sent writes p
      → IsSaved (sent ++ more) (writes ++ last) q
  step-IsSaved sent _ writes _ p _ (sends _ m room) i =
      quiet-IsSaved sent _ writes p _ refl refl refl refl i
  step-IsSaved sent _ writes _ p _ (handles _ m ms o s e h) i =
      handled-IsSaved sent writes p m ms o s e (process-IsHandled dec o m p.accounting s h) i
  step-IsSaved sent _ writes _ p _ (backs_up _ writable) i = backup-IsSaved sent writes p writable i
  step-IsSaved sent _ writes _ p _ (answers _ now) i =
      let (same, saved, lock, closed) = current_round_keeps dec now p.accounting in
      quiet-IsSaved sent [] writes p _ (sym (append-nil p.queue)) same saved lock i
  step-IsSaved sent _ writes _ p _ (signals _ signal r) i =
      quiet-IsSaved sent [] writes p _ (sym (append-nil p.queue)) refl refl refl i
  step-IsSaved sent _ writes _ p _ (tells _ e t room) i =
      quiet-IsSaved sent _ writes p _ refl refl refl refl i
  step-IsSaved sent _ writes _ p _ (fails _ e t c) i =
      quiet-IsSaved sent [] writes p _ (sym (append-nil p.queue)) refl refl refl i

  reaches-IsSaved :
      (sent : List (AccountingMessage Commitment Owner)) (writes : List Bool)
      (p : Program Commitment Owner)
      → Reaches dec file database sent writes p
      → IsSaved sent writes p
  reaches-IsSaved _ _ _ begins = started-IsSaved
  reaches-IsSaved _ _ q (goes sent more writes last p _ r s) =
      step-IsSaved sent more writes last p q s (reaches-IsSaved sent writes p r)

  -- However the tasks of the program are interleaved: when it ends on a signal, and all that it wrote to the
  -- file was written, then the file is loaded as the window that the first of the messages sent to the
  -- accounting made, in their order: at least all those before an `Exit`.
  pub Ends-Holds :
      (sent : List (AccountingMessage Commitment Owner)) (writes : List Bool)
      (p : Program Commitment Owner) (e : Ending)
      → Reaches dec file database sent writes p
      → Ends p e
      → AllWritten writes
      → Holds sent p.accounting.saved
  Ends-Holds sent writes p e r d w =
      let i = reaches-IsSaved sent writes p r in
      subst (λ ms. Holds ms p.accounting.saved) i.split
        (Holds-append i.handled p.queue p.accounting.saved (i.kept w d.locked))
