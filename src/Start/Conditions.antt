-- ===== src/Start/Conditions.antt =====
-- The conditions of the start, and that a start without a panic met them.
use Prim.Native.String.{String}
use aleo_pool_server.Prelude.{◌≡◌, ◌⊎◌, refl, ap, ◌∙◌, true, Option, none, some, done, inl, inr}
use aleo_pool_server.Pplns.{Pplns}
use aleo_pool_server.Accounting
use aleo_pool_server.World.{World}
use aleo_pool_server.Server
use aleo_pool_server.Start.{
  Opt, Host, StateFile, missing, unreadable, holds, Running, Start, require, tracing_level,
  bootstrap, db_init, init_log, choose_validator, find_state, load_state, server_init, main,
}
use aleo_pool_server.Start.Environment.{
  bind_done, expect_done, require_done, IsConfigured, db_init-IsConfigured,
}

module _ (w : World) {Owner : Type 0} (h : Host w.Commitment Owner) where
  -- Every condition of the start, and what then runs.
  pub record Starts (opt : Opt w.Address) (r : Running w Owner) : Type 0 where
    pub log_created : (path : String) → opt.log ≡ some path → h.creates path ≡ true
    pub subscribed : h.sets_subscriber ≡ true
    pub threaded : h.builds_threads ≡ true
    pub chosen :
        (opt.validator ≡ some r.operator)
        ⊎ ((opt.validator ≡ none) × (h.choose bootstrap ≡ some r.operator))
    pub configured : IsConfigured h r.config
    pub home : h.has_home ≡ true
    pub dir : h.creates_dir ≡ true
    pub found :
        ((h.state_file ≡ missing) × (r.accounting ≡ Accounting.start none h.tables))
        ⊎ ((pplns : Pplns Owner) × (h.state_file ≡ holds pplns)
            × (r.accounting ≡ Accounting.start (some pplns) h.tables))
    pub bound : h.binds opt.port ≡ true
    pub local_ip : h.has_local_ip ≡ true
    pub srs : h.loads_srs ≡ true
    pub trimmed : h.trims_srs ≡ true
    pub served : r.server ≡ Server.init w h.now opt.address
    pub levelled : r.level ≡ tracing_level opt
    pub api_port : r.api_port ≡ opt.api_port

  init_log_done :
      (log : Option String) {u : Unit {0}}
      → init_log h log ≡ done u
      → ((path : String) → log ≡ some path → h.creates path ≡ true) × (h.sets_subscriber ≡ true)
  unfolding init_log
  init_log_done none run = (λ path e. cc, require_done _ run)
  init_log_done (some log) run =
      let (_, e, run') = bind_done (require (h.creates log)) _ run in
      (λ path same. ap h.creates (some_path same) ∙ require_done _ e, require_done _ run')
    where
      some_path : {path : String} → some log ≡ some path → path ≡ log
      some_path same = cc

  choose_validator_done :
      (validator : Option String) {v : String}
      → choose_validator h validator ≡ done v
      → (validator ≡ some v) ⊎ ((validator ≡ none) × (h.choose bootstrap ≡ some v))
  unfolding choose_validator
  choose_validator_done none run = inr (refl, expect_done _ run)
  choose_validator_done (some v) run = inl (cc)

  find_state_done :
      (f : StateFile Owner) {file : Option (Pplns Owner)}
      → find_state h f ≡ done file
      → ((f ≡ missing) × (Accounting.start file h.tables ≡ Accounting.start none h.tables))
        ⊎ ((pplns : Pplns Owner) × (f ≡ holds pplns)
            × (Accounting.start file h.tables ≡ Accounting.start (some pplns) h.tables))
  unfolding find_state
  find_state_done missing run = inl (refl, ap (λ f. Accounting.start f h.tables) (cc))
  find_state_done unreadable run = cc
  find_state_done (holds pplns) run = inr (pplns, refl, ap (λ f. Accounting.start f h.tables) (cc))

  pub main-Starts :
      (opt : Opt w.Address) (b : Start w Owner)
      → main w h opt ≡ done b
      → (r : Running w Owner) × Starts opt r
  unfolding main load_state server_init
  main-Starts opt b run =
      let (_, e₁, run₁) = bind_done (init_log h opt.log) _ run in
      let (_, e₂, run₂) = bind_done (require h.builds_threads) _ run₁ in
      let (validator, e₃, run₃) = bind_done (choose_validator h opt.validator) _ run₂ in
      let (config, e₄, run₄) = bind_done (db_init h) _ run₃ in
      let (file, e₅, run₅) = bind_done (load_state h) _ run₄ in
      let (server, e₆, _) = bind_done (server_init w h opt.port opt.address) _ run₅ in
      let (_, f₁, loaded) = bind_done (require h.has_home) _ e₅ in
      let (_, f₂, read) = bind_done (require h.creates_dir) _ loaded in
      let (_, g₁, s₁) = bind_done (require (h.binds opt.port)) _ e₆ in
      let (_, g₂, s₂) = bind_done (require h.has_local_ip) _ s₁ in
      let (_, g₃, s₃) = bind_done (require h.loads_srs) _ s₂ in
      let (_, g₄, s₄) = bind_done (require h.trims_srs) _ s₃ in
      let same : server ≡ Server.init w h.now opt.address = cc s₄ in
      let logged = init_log_done opt.log e₁ in
      (
        record {
          level = tracing_level opt;
          operator = validator;
          config = config;
          accounting = Accounting.start file h.tables;
          server = server;
          api_port = opt.api_port;
        },
        record {
          log_created = logged.0;
          subscribed = logged.1;
          threaded = require_done _ e₂;
          chosen = choose_validator_done opt.validator e₃;
          configured = db_init-IsConfigured h config e₄;
          home = require_done _ f₁;
          dir = require_done _ f₂;
          found = find_state_done h.state_file read;
          bound = require_done _ g₁;
          local_ip = require_done _ g₂;
          srs = require_done _ g₃;
          trimmed = require_done _ g₄;
          served = same;
          levelled = refl;
          api_port = refl;
        },
      )
