-- ===== src/Contract/Migrations.antt =====
-- migrations/0001_initial.sql to 0005_contract.sql, as `_apply_migration` runs them, statement by
-- statement. Grants to the observer and on other tables change nothing that the program reads.
use postgres_migration_rehea.Base.{◌==◌, Bool, true, false, not, ◌||◌, none, some, []}
use postgres_migration_rehea.Database.{
  initial, expand, compatibility, switch, contract, Version, v0001, v0002, v0003, v0004, v0005,
  Invoice, Control, Schema, is_null, below_zero, is_eur, is_usd, undefined_column, undefined_table,
  undefined_object, duplicate_object, duplicate_column, not_null_violation, check_violation,
  Session, Tx, ◌>>=◌, ◌>>◌, gets, require, modify, update_phase, count, alter, rewrite_rows,
}

-- The catalog's state after 0001.
abbrev pub initial_schema : Schema
initial_schema = record {
  legacy_column = true;
  target_columns = false;
  target_not_null = false;
  eur_checks = false;
  final_checks = false;
  compatibility_trigger = false;
  v1_grant = true;
  v2_grant = false;
}

abbrev pub initial_control : Control
initial_control = record {
  phase = initial;
  backfill_last_id = 0;
  backfill_scanned_rows = 0;
  v2_enabled = false;
}

abbrev pub schema_now : Session → Schema
schema_now s = s.database.schema

-- The scan of ADD and VALIDATE CONSTRAINT and of SET NOT NULL: no row may violate it.
abbrev pub no_row : (Invoice → Bool) → Session → Bool
no_row violates s = count violates s.database.invoices == 0

-- CREATE TYPE fails first where 0001 has run before.
unfoldable initial_sql : Tx (Unit {0})
initial_sql = do
  require (← gets (λ s. is_null s.database.control)) duplicate_object
  modify (λ d. record d {
    control = some initial_control;
    schema = initial_schema;
    schema_migrations = [];
    invoices = [];
  })

unfoldable expand_sql : Tx (Unit {0})
unfolding update_phase
expand_sql = do
  require (← gets (λ s. not (is_null s.database.control))) undefined_table
  require (← gets (λ s. not (schema_now s).target_columns)) duplicate_column
  alter (λ t. record t { target_columns = true })
  require (← gets (λ s. not (schema_now s).eur_checks)) duplicate_object
  alter (λ t. record t { eur_checks = true })
  update_phase expand

unfoldable compatibility_sql : Tx (Unit {0})
unfolding update_phase
compatibility_sql = do
  require (← gets (λ s. not (is_null s.database.control))) undefined_table
  require (← gets (λ s. not (schema_now s).compatibility_trigger)) duplicate_object
  alter (λ t. record t { compatibility_trigger = true })
  update_phase compatibility

abbrev pub breaks_eur_checks : Invoice → Bool
breaks_eur_checks r =
    below_zero r.amount_minor || not (is_null r.currency_code || is_eur r.currency_code)

abbrev pub misses_target : Invoice → Bool
misses_target r = is_null r.amount_minor || is_null r.currency_code

unfoldable switch_sql : Tx (Unit {0})
unfolding update_phase
switch_sql = do
  require (← gets (λ s. (schema_now s).eur_checks)) undefined_object
  require (← gets (no_row breaks_eur_checks)) check_violation
  require (← gets (λ s. (schema_now s).target_columns)) undefined_column
  require (← gets (no_row misses_target)) not_null_violation
  alter (λ t. record t { target_not_null = true })
  update_phase switch
  alter (λ t. record t { v1_grant = false })

abbrev pub breaks_final_checks : Invoice → Bool
breaks_final_checks r =
    below_zero r.amount_minor
    || not (is_null r.currency_code || (is_eur r.currency_code || is_usd r.currency_code))

abbrev pub drop_legacy : Invoice → Invoice
drop_legacy r = record r { amount_cents = none }

unfoldable contract_sql : Tx (Unit {0})
unfolding update_phase
contract_sql = do
  require (← gets (λ s. (schema_now s).compatibility_trigger)) undefined_object
  alter (λ t. record t { compatibility_trigger = false })
  require (← gets (λ s. (schema_now s).eur_checks)) undefined_object
  alter (λ t. record t { eur_checks = false })
  require (← gets (no_row breaks_final_checks)) check_violation
  alter (λ t. record t { final_checks = true })
  require (← gets (λ s. (schema_now s).legacy_column)) undefined_column
  alter (λ t. record t { legacy_column = false })
  rewrite_rows drop_legacy
  update_phase contract

-- `cursor.execute(content)`: the SQL text of one version.
unfoldable pub migration : Version → Tx (Unit {0})
unfolding initial_sql expand_sql compatibility_sql switch_sql contract_sql
migration v0001 = initial_sql
migration v0002 = expand_sql
migration v0003 = compatibility_sql
migration v0004 = switch_sql
migration v0005 = contract_sql
