-- ===== src/Engine/Server.antt =====
-- `_create_database`, `_drop_database` and `run`: the disposable database is pinned by the object
-- id that PostgreSQL gave it, and dropped however the body ended.
use postgres_migration_rehea.Base.{◌==◌, if◌then◌else◌, ℕ, false, Option, none, some, List, []}
use postgres_migration_rehea.Database.{
  Version, Digest, Database, database_already_exists, database_identity_drift, runtime_error,
  Result, ok, err, Program,
}
use postgres_migration_rehea.Engine.Run.{Final, rehearse}
use postgres_migration_rehea.Engine.Statements.{FixtureRow}

pub record Server : Type 0 where
  pub disposable : Option (ℕ × Database)

abbrev pub idle : Server
idle = record { disposable = none }

-- A database made from template0 holds none of the tables.
abbrev pub empty_database : Database
empty_database = record {
  control = none;
  schema = record {
    legacy_column = false;
    target_columns = false;
    target_not_null = false;
    eur_checks = false;
    final_checks = false;
    compatibility_trigger = false;
    v1_grant = false;
    v2_grant = false;
  };
  schema_migrations = [];
  invoices = [];
}

-- `oid` is the id that PostgreSQL picks.
unfoldable create_database : ℕ → Server → Result ℕ × Server
create_database oid s = elim s.disposable [
  | none ↦ (ok oid, record { disposable = some (oid, empty_database) })
  | some _ ↦ (err (runtime_error database_already_exists), s)
]

unfoldable drop_database : ℕ → Server → Result (Unit {0}) × Server
drop_database expected s = elim s.disposable [
  | none ↦ (err (runtime_error database_identity_drift), s)
  | some (oid, d) ↦
      (if oid == expected then (ok tt, idle) else (err (runtime_error database_identity_drift), s))
]

-- `finally`: an exception of the drop replaces the outcome of the body.
abbrev conclude : {A : Type 0} → Result A → Result (Unit {0}) × Server → Result A × Server
conclude r (ok _, s) = (r, s)
conclude r (err e, s) = (err e, s)

abbrev within : {A : Type 0} → ℕ → Result A × Database → Result A × Server
within oid (r, d) = conclude r (drop_database oid (record { disposable = some (oid, d) }))

abbrev in_database : {A : Type 0} → Program A → ℕ → Server → Result A × Server
in_database body oid s = elim s.disposable [
  | none ↦ (err (runtime_error database_identity_drift), s)
  | some (_, d) ↦ within oid (body d)
]

abbrev after_create : {A : Type 0} → Program A → Result ℕ × Server → Result A × Server
after_create body (ok oid, s) = in_database body oid s
after_create body (err e, s) = (err e, s)

-- `run` with any body in its `try`
unfoldable pub with_database : {A : Type 0} → Program A → ℕ → Server → Result A × Server
unfolding create_database drop_database
with_database body oid s = after_create body (create_database oid s)

unfoldable pub run : (Version → Digest) → ℕ → List FixtureRow → ℕ → Server → Result Final × Server
unfolding rehearse with_database
run checksum fuel rows = with_database (rehearse checksum fuel rows)
