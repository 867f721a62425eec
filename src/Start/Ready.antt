-- ===== src/Start/Ready.antt =====
-- If the conditions are met, the program starts.
use Prim.Native.String.{String}
use aleo_pool_server.Prelude.{
  ◌≡◌, ◌⊎◌, refl, sym, ap, ◌∙◌, Bool, true, false, Option, none, some, done, panic, inl, inr,
  Outcome-cases, subst, ◌↔◌, if◌then◌else◌,
}
use aleo_pool_server.Pplns.{Pplns}
use aleo_pool_server.Accounting
use aleo_pool_server.World.{World}
use aleo_pool_server.Start.{
  Opt, Host, Running, Start, runs, exits, expect, require, tracing_level, bootstrap, init_log,
  choose_validator, find_state, load_state, server_init, main,
}
use aleo_pool_server.Start.Environment.{require_met, IsConfigured-db_init}
use aleo_pool_server.Start.Conditions.{Starts, main-Starts}

module _ (w : World) {Owner : Type 0} (h : Host w.Commitment Owner) where
  Starts-init_log :
      (log : Option String)
      → ((path : String) → log ≡ some path → h.creates path ≡ true)
      → h.sets_subscriber ≡ true
      → init_log h log ≡ done tt
  unfolding init_log require
  Starts-init_log none c s = rw (s, require) refl
  Starts-init_log (some log) c s = rw (c log refl, require, s) refl

  Starts-choose_validator :
      (validator : Option String) (v : String)
      → (validator ≡ some v) ⊎ ((validator ≡ none) × (h.choose bootstrap ≡ some v))
      → choose_validator h validator ≡ done v
  unfolding choose_validator expect
  Starts-choose_validator validator v (inl e) = rw e refl
  Starts-choose_validator validator v (inr (e, c)) = rw e (rw (c, expect) refl)

  Starts-load_state :
      (opt : Opt w.Address) (r : Running w Owner)
      → Starts w h opt r
      → (file : Option (Pplns Owner)) × (load_state h ≡ done file)
        × (Accounting.start file h.tables ≡ r.accounting)
  unfolding load_state find_state require
  Starts-load_state opt r s = elim s.found [
    | inl (e, a) ↦ (none, rw (s.home, require, s.dir, e, find_state) refl, sym a)
    | inr (pplns, e, a) ↦ (some pplns, rw (s.home, require, s.dir, e, find_state) refl, sym a)
  ]

  Starts-server_init :
      (opt : Opt w.Address) (r : Running w Owner)
      → Starts w h opt r
      → server_init w h opt.port opt.address ≡ done r.server
  unfolding server_init require
  Starts-server_init opt r s =
      rw (s.bound, require, s.local_ip, s.srs, s.trimmed) (ap done (sym s.served))

  -- What `main` returns, of the program that it made.
  abbrev pub started : Running w Owner → Start w Owner
  started r = if h.registers_signals then runs r else exits 1

  done_either :
      (b : Bool) (r : Running w Owner)
      → (if b then done (runs r) else done (exits 1)) ≡ done (if b then runs r else exits 1)
  done_either true r = refl
  done_either false r = refl

  Starts-main :
      (opt : Opt w.Address) (r : Running w Owner)
      → Starts w h opt r
      → main w h opt ≡ done (started r)
  unfolding main
  Starts-main opt r s =
      let (file, loaded, accounting) = Starts-load_state opt r s in
      let made : Running w Owner = record {
        level = tracing_level opt;
        operator = r.operator;
        config = r.config;
        accounting = Accounting.start file h.tables;
        server = r.server;
        api_port = opt.api_port;
      } in
      let same : made ≡ r = λ i. record {
        level = sym s.levelled i;
        operator = r.operator;
        config = r.config;
        accounting = accounting i;
        server = r.server;
        api_port = sym s.api_port i;
      } in
      rw
        (
          Starts-init_log opt.log s.log_created s.subscribed,
          require_met s.threaded,
          Starts-choose_validator opt.validator r.operator s.chosen,
          IsConfigured-db_init h r.config s.configured,
          loaded,
          Starts-server_init opt r s,
        )
        (done_either h.registers_signals made ∙ ap (λ p. done (started p)) same)

  runs_inner : {r r' : Running w Owner} → runs r ≡ runs r' → r ≡ r'
  runs_inner e = cc

  done_inner : {b b' : Start w Owner} → done b ≡ done b' → b ≡ b'
  done_inner e = cc

  started_runs :
      (b : Bool) (r r' : Running w Owner)
      → (if b then runs r else exits 1) ≡ runs r'
      → (b ≡ true) × (r ≡ r')
  started_runs true r r' e = (refl, runs_inner e)
  started_runs false r r' e = cc

  started_exits :
      (b : Bool) (r : Running w Owner) → (if b then runs r else exits 1) ≡ exits 1 → b ≡ false
  started_exits true r e = cc
  started_exits false r e = refl

  -- `main` leaves a program running exactly if that is one of `Starts` and the signals can be registered; it
  -- ends with status 1 exactly if there is a program of `Starts` and the signals cannot be registered; and
  -- it panics exactly if there is no program of `Starts`.
  pub main_iff :
      (opt : Opt w.Address) (r : Running w Owner)
      → ((main w h opt ≡ done (runs r)) ↔ (Starts w h opt r × (h.registers_signals ≡ true)))
        × ((main w h opt ≡ done (exits 1))
            ↔ ((made : Running w Owner) × Starts w h opt made × (h.registers_signals ≡ false)))
        × ((main w h opt ≡ panic) ↔ (¬ ((made : Running w Owner) × Starts w h opt made)))
  main_iff opt r = ((runs_only, runs_if), (exits_only, exits_if), (panics_only, panics_if))
    where
      runs_only : main w h opt ≡ done (runs r) → Starts w h opt r × (h.registers_signals ≡ true)
      runs_only e =
          let (made, s) = main-Starts w h opt (runs r) e in
          let (registered, same) =
            started_runs h.registers_signals made r
              (done_inner (sym (Starts-main opt made s) ∙ e)) in
          (subst (Starts w h opt) same s, registered)

      runs_if : Starts w h opt r × (h.registers_signals ≡ true) → main w h opt ≡ done (runs r)
      runs_if (s, registered) =
          Starts-main opt r s ∙ ap (λ b. done (if b then runs r else exits 1)) registered

      exits_only :
          main w h opt ≡ done (exits 1)
          → (made : Running w Owner) × Starts w h opt made × (h.registers_signals ≡ false)
      exits_only e =
          let (made, s) = main-Starts w h opt (exits 1) e in
          (
            made,
            s,
            started_exits h.registers_signals made (done_inner (sym (Starts-main opt made s) ∙ e)),
          )

      exits_if :
          (made : Running w Owner) × Starts w h opt made × (h.registers_signals ≡ false)
          → main w h opt ≡ done (exits 1)
      exits_if (made, s, unregistered) =
          Starts-main opt made s ∙ ap (λ b. done (if b then runs made else exits 1)) unregistered

      panics_only : main w h opt ≡ panic → ¬ ((made : Running w Owner) × Starts w h opt made)
      panics_only e = λ s. absurd (cc (Starts-main opt s.0 s.1, e))

      panics_if : ¬ ((made : Running w Owner) × Starts w h opt made) → main w h opt ≡ panic
      panics_if n = elim (Outcome-cases (main w h opt)) [
        | inl e ↦ e
        | inr (b, e) ↦ absurd (n (main-Starts w h opt b e))
      ]
