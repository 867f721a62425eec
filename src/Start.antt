-- ===== src/Start.antt =====
-- The start of the program: `main` of src/main.rs with what it makes, `DB::init` of src/db.rs, `PPLNS::load` of
-- src/accounting.rs and `Server::init` of src/server.rs. What the machine and other crates answer is the
-- argument `Host`; the options are those that clap has read. A panic of `main` ends the program.
pub mod Environment
pub mod Conditions
pub mod Ready
use Prim.Native.String.{String}
use aleo_pool_server.Prelude.{
  ℕ, Bool, true, false, List, [], ◌∷◌, Option, none, some, if◌then◌else◌, Outcome, done, panic,
  ◌>>=◌,
}
use aleo_pool_server.Pplns.{Pplns}
use aleo_pool_server.Database.{Database}
use aleo_pool_server.Accounting
use aleo_pool_server.Accounting.{Accounting}
use aleo_pool_server.World.{World}
use aleo_pool_server.Server
use aleo_pool_server.Server.{Server}

pub record Opt (Address : Type 0) : Type 0 where
  pub validator : Option String
  pub address : Address
  pub port : ℕ
  pub api_port : ℕ
  pub debug : Bool
  pub trace : Bool
  pub log : Option String

pub data Level : Type 0 where
  level_trace level_debug level_info : Level

-- The configuration of the connections to the database.
pub record Config : Type 0 where
  pub host : String
  pub port : ℕ
  pub dbname : String
  pub user : String
  pub password : String
  pub schema : String

-- The file of the window: not there, not readable, or a window.
pub data StateFile (Owner : Type 0) : Type 0 where
  missing : StateFile Owner
  unreadable : StateFile Owner
  holds : Pplns Owner → StateFile Owner

-- What the start asks of the machine and of other crates; a Boolean value says whether a call succeeds.
pub record Host (Commitment Owner : Type 0) : Type 0 where
  -- `env::var`, `str::parse::<u16>`, and `get_pg_config` and `build` of the pool of connections
  pub var : String → Option String
  pub parse_u16 : String → Option ℕ
  pub builds_pool : Config → Bool
  -- `File::create`, `set_global_default`, `build_global`
  pub creates : String → Bool
  pub sets_subscriber : Bool
  pub builds_threads : Bool
  -- `choose` of `SliceRandom`
  pub choose : List String → Option String
  -- `home_dir`, `create_dir_all`, and the file of the window
  pub has_home : Bool
  pub creates_dir : Bool
  pub state_file : StateFile Owner
  -- `TcpListener::bind`, `local_addr`, `UniversalSRS::load`, `CoinbasePuzzle::trim`
  pub binds : ℕ → Bool
  pub has_local_ip : Bool
  pub loads_srs : Bool
  pub trims_srs : Bool
  -- `Signals::new`
  pub registers_signals : Bool
  -- the time, and the tables of the database
  pub now : ℕ
  pub tables : Database Commitment Owner

-- The program that runs.
pub record Running (w : World) (Owner : Type 0) : Type 0 where
  pub level : Level
  pub operator : String
  pub config : Config
  pub accounting : Accounting w.Commitment Owner
  pub server : Server w
  pub api_port : ℕ

-- The program waits forever, or ends with a status.
pub data Start (w : World) (Owner : Type 0) : Type 0 where
  runs : Running w Owner → Start w Owner
  exits : ℕ → Start w Owner

-- `expect` and `unwrap`, and the same for a call without a value.
unfoldable pub expect : {A : Type 0} → Option A → Outcome A
expect none = panic
expect (some a) = done a

unfoldable pub require : Bool → Outcome (Unit {0})
require true = done tt
require false = panic

unfoldable pub tracing_level : {Address : Type 0} → Opt Address → Level
tracing_level opt = if opt.trace then level_trace else if opt.debug then level_debug else level_info

-- The validators to choose from if the options name none.
abbrev pub bootstrap : List String
bootstrap =
    "164.92.111.59:4133" ∷ "159.223.204.96:4133" ∷ "167.71.219.176:4133" ∷ "157.245.205.209:4133"
    ∷ "134.122.95.106:4133" ∷ "161.35.24.55:4133" ∷ "138.68.103.139:4133" ∷ "207.154.215.49:4133"
    ∷ "46.101.114.158:4133" ∷ "138.197.190.94:4133" ∷ []

module _ {Commitment Owner : Type 0} (h : Host Commitment Owner) where
  -- `unwrap_or_else` on a variable of the environment.
  unfoldable pub var_or : String → String → String
  var_or name default = elim (h.var name) [ none ↦ default | some value ↦ value ]

  unfoldable pub db_init : Outcome Config
  db_init = do
    host ← expect (h.var "DB_HOST")
    port ← expect (h.parse_u16 (var_or "DB_PORT" "5432"))
    dbname ← expect (h.var "DB_DATABASE")
    user ← expect (h.var "DB_USER")
    password ← expect (h.var "DB_PASSWORD")
    let config : Config = record {
      host = host;
      port = port;
      dbname = dbname;
      user = user;
      password = password;
      schema = var_or "DB_SCHEMA" "public";
    }
    _ ← require (h.builds_pool config)
    done config

  -- The subscriber of the log, to a file if there is one.
  unfoldable pub init_log : Option String → Outcome (Unit {0})
  init_log none = require h.sets_subscriber
  init_log (some log) = do _ ← require (h.creates log); require h.sets_subscriber

  unfoldable pub choose_validator : Option String → Outcome String
  choose_validator (some validator) = done validator
  choose_validator none = expect (h.choose bootstrap)

  -- `PPLNS::load`: the file that was found; only an unreadable one panics.
  unfoldable pub find_state : StateFile Owner → Outcome (Option (Pplns Owner))
  find_state missing = done none
  find_state unreadable = panic
  find_state (holds pplns) = done (some pplns)

  unfoldable pub load_state : Outcome (Option (Pplns Owner))
  load_state = do _ ← require h.has_home; _ ← require h.creates_dir; find_state h.state_file

module _ (w : World) {Owner : Type 0} (h : Host w.Commitment Owner) where
  -- `Server::init`, up to the tasks that it spawns.
  unfoldable pub server_init : ℕ → w.Address → Outcome (Server w)
  server_init port address = do
    _ ← require (h.binds port)
    _ ← require h.has_local_ip
    _ ← require h.loads_srs
    _ ← require h.trims_srs
    done (Server.init w h.now address)

  unfoldable pub main : Opt w.Address → Outcome (Start w Owner)
  main opt = do
    _ ← init_log h opt.log
    _ ← require h.builds_threads
    validator ← choose_validator h opt.validator
    config ← db_init h
    file ← load_state h
    server ← server_init opt.port opt.address
    let running : Running w Owner = record {
      level = tracing_level opt;
      operator = validator;
      config = config;
      accounting = Accounting.start file h.tables;
      server = server;
      api_port = opt.api_port;
    }
    if h.registers_signals then done (runs running) else done (exits 1)
