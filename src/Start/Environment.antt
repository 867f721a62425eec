-- ===== src/Start/Environment.antt =====
-- The environment that the configuration of the database is read from.
use Prim.Native.String.{String}
use aleo_pool_server.Prelude.{
  ◌≡◌, ◌⊎◌, refl, sym, Bool, true, false, Option, none, some, done, panic, inl, inr, Outcome, ◌>>=◌,
  subst, Option-cases,
}
use aleo_pool_server.Start.{Host, Config, expect, require, var_or, db_init}

pub bind_done :
    {A B : Type 0} (m : Outcome A) (f : A → Outcome B) {b : B}
    → (m >>= f) ≡ done b
    → (a : A) × (m ≡ done a) × (f a ≡ done b)
bind_done (done a) f h = (a, refl, h)
bind_done panic f h = cc

pub expect_done : {A : Type 0} (o : Option A) {a : A} → expect o ≡ done a → o ≡ some a
unfolding expect
expect_done none h = cc
expect_done (some a) h = cc

pub require_done : (b : Bool) {u : Unit {0}} → require b ≡ done u → b ≡ true
unfolding require
require_done true h = refl
require_done false h = cc

pub require_met : {b : Bool} → b ≡ true → require b ≡ done tt
unfolding require
require_met e = rw e refl

module _ {Commitment Owner : Type 0} (h : Host Commitment Owner) where
  -- A variable of the environment, or a default if it is not set.
  abbrev pub IsVarOr : String → String → String → Type 0
  IsVarOr name default value = (h.var name ≡ some value) ⊎ ((h.var name ≡ none) × (value ≡ default))

  -- What the environment must hold for a configuration.
  pub record IsConfigured (c : Config) : Type 0 where
    pub host : h.var "DB_HOST" ≡ some c.host
    pub port_text : String
    pub port_given : IsVarOr "DB_PORT" "5432" port_text
    pub port : h.parse_u16 port_text ≡ some c.port
    pub dbname : h.var "DB_DATABASE" ≡ some c.dbname
    pub user : h.var "DB_USER" ≡ some c.user
    pub password : h.var "DB_PASSWORD" ≡ some c.password
    pub schema : IsVarOr "DB_SCHEMA" "public" c.schema
    pub built : h.builds_pool c ≡ true

  var_or-IsVarOr : (name default : String) → IsVarOr name default (var_or h name default)
  unfolding var_or
  var_or-IsVarOr name default = elim (Option-cases (h.var name)) [
    | inl e ↦ inr (e, rw (e, var_or) refl)
    | inr (value, e) ↦ inl (rw (e, var_or) refl)
  ]

  var_or_unique :
      (name default value : String) → IsVarOr name default value → var_or h name default ≡ value
  unfolding var_or
  var_or_unique name default value (inl e) = rw (e, var_or) refl
  var_or_unique name default value (inr e) = rw (e.0, var_or) (sym e.1)

  pub db_init-IsConfigured : (c : Config) → db_init h ≡ done c → IsConfigured c
  unfolding db_init
  db_init-IsConfigured c run =
      let (host, e₁, run₁) = bind_done (expect (h.var "DB_HOST")) _ run in
      let (port, e₂, run₂) = bind_done (expect (h.parse_u16 (var_or h "DB_PORT" "5432"))) _ run₁ in
      let (dbname, e₃, run₃) = bind_done (expect (h.var "DB_DATABASE")) _ run₂ in
      let (user, e₄, run₄) = bind_done (expect (h.var "DB_USER")) _ run₃ in
      let (password, e₅, run₅) = bind_done (expect (h.var "DB_PASSWORD")) _ run₄ in
      let config : Config = record {
        host = host;
        port = port;
        dbname = dbname;
        user = user;
        password = password;
        schema = var_or h "DB_SCHEMA" "public";
      } in
      let (_, e₆, run₆) = bind_done (require (h.builds_pool config)) _ run₅ in
      let same : config ≡ c = cc run₆ in
      subst IsConfigured same (record {
        host = expect_done _ e₁;
        port_text = var_or h "DB_PORT" "5432";
        port_given = var_or-IsVarOr "DB_PORT" "5432";
        port = expect_done _ e₂;
        dbname = expect_done _ e₃;
        user = expect_done _ e₄;
        password = expect_done _ e₅;
        schema = var_or-IsVarOr "DB_SCHEMA" "public";
        built = require_done _ e₆;
      })

  pub IsConfigured-db_init : (c : Config) → IsConfigured c → db_init h ≡ done c
  unfolding db_init expect require
  IsConfigured-db_init c i =
      rw
        (
          i.host,
          expect,
          var_or_unique "DB_PORT" "5432" i.port_text i.port_given,
          i.port,
          i.dbname,
          i.user,
          i.password,
          var_or_unique "DB_SCHEMA" "public" c.schema i.schema,
          i.built,
          require,
        )
        refl
