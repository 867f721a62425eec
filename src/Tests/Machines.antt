-- ===== src/Tests/Machines.antt =====
-- A machine on which the toy server starts.
use Prim.Native.String.{String}
use aleo_pool_server.Prelude.{
  ℕ, ◌≡◌, refl, ◌↔◌, [], Option, none, some, true, false, done, panic, if◌then◌else◌, ◌is◌,
}
use aleo_pool_server.Accounting
use aleo_pool_server.Server
use aleo_pool_server.Start.{
  Opt, level_debug, missing, Host, Running, runs, exits, main, init_log, require, choose_validator,
  db_init, expect, var_or, load_state, find_state, server_init, tracing_level,
}
use aleo_pool_server.Start.Conditions.{Starts}
use aleo_pool_server.Start.Ready.{main_iff}
use aleo_pool_server.Tests.Toy.{toy}

-- The environment has a database, but no port and no schema.
abbrev var : String → Option String
var name = if name is "DB_PORT" then none else if name is "DB_SCHEMA" then none else some name

abbrev host : Host ℕ String
host = record {
  var = var;
  parse_u16 = λ text. some 5432;
  builds_pool = λ c. true;
  creates = λ path. true;
  sets_subscriber = true;
  builds_threads = true;
  choose = λ names. none;
  has_home = true;
  creates_dir = true;
  state_file = missing;
  binds = λ port. true;
  has_local_ip = true;
  loads_srs = true;
  trims_srs = true;
  registers_signals = true;
  now = 5;
  tables = record { solutions = []; next_id = 1; shares = [] };
}

abbrev opt : Opt ℕ
opt = record {
  validator = some "validator:4133";
  address = 7;
  port = 3333;
  api_port = 8080;
  debug = true;
  trace = false;
  log = none;
}

abbrev running : Running toy String
running = record {
  level = level_debug;
  operator = "validator:4133";
  config = record {
    host = "DB_HOST";
    port = 5432;
    dbname = "DB_DATABASE";
    user = "DB_USER";
    password = "DB_PASSWORD";
    schema = "public";
  };
  accounting = Accounting.start none host.tables;
  server = Server.init toy 5 7;
  api_port = 8080;
}

main_run : main toy host opt ≡ done (runs running)
unfolding main init_log require choose_validator db_init expect var_or load_state find_state
    server_init tracing_level
main_run = refl

main_iff_example :
    ((main toy host opt ≡ done (runs running))
      ↔ (Starts toy host opt running × (host.registers_signals ≡ true)))
    × ((main toy host opt ≡ done (exits 1)) ↔ (
        (made : Running toy String) × Starts toy host opt made × (host.registers_signals ≡ false)))
    × ((main toy host opt ≡ panic) ↔ (¬ ((made : Running toy String) × Starts toy host opt made)))
main_iff_example = main_iff toy host opt running
