-- ===== src/Contract/Down.antt =====
-- `attempt_down` of contract.py: one transaction from expand, compatibility, backfill or switch
-- back to the initial shape.
use postgres_migration_rehea.Base.{
  ◌==◌, if◌then◌else◌, Bool, true, false, not, ◌&&◌, ◌||◌, none, List, [], ◌∷◌, ◌++◌,
}
use postgres_migration_rehea.Contract.Apply.{assume}
use postgres_migration_rehea.Contract.Migrations.{initial_control, schema_now, no_row}
use postgres_migration_rehea.Database.{
  Phase, initial, expand, compatibility, backfill, switch, contract, Version, v0001, v0002, v0003,
  v0004, Invoice, Digest, is_null, is_distinct, is_eur, is_usd, undefined_column, undefined_object,
  down_forbidden_usd, down_phase_rejected, down_ledger_rejected, down_representability_rejected,
  migrator, exclusive, Tx, ◌>>=◌, ◌>>◌, pure, raise, gets, raise_unless, require, modify,
  advisory_lock, transaction, Program, select_control, store_control, update_phase, select,
  version_index, eq_versions, alter, rewrite_rows,
}

abbrev in_compatibility : Phase → Bool
in_compatibility compatibility = true
in_compatibility backfill = true
in_compatibility switch = true
in_compatibility _ = false

abbrev is_switch : Phase → Bool
is_switch switch = true
is_switch _ = false

abbrev pub is_down_phase : Phase → Bool
is_down_phase expand = true
is_down_phase p = in_compatibility p

-- `versions`, appended to phase by phase
abbrev pub down_versions : Phase → List Version
down_versions p =
    v0001 ∷ (if is_down_phase p then v0002 ∷ [] else [])
    ++ (if in_compatibility p then v0003 ∷ [] else [])
    ++ (if is_switch p then v0004 ∷ [] else [])

-- (amount_minor IS NULL) <> (currency_code IS NULL) OR (amount_minor IS NOT NULL AND
-- (amount_minor IS DISTINCT FROM amount_cents OR currency_code IS DISTINCT FROM 'EUR'))
abbrev pub is_unrepresentable : Invoice → Bool
is_unrepresentable r =
    (is_null r.amount_minor && not (is_null r.currency_code))
    || (not (is_null r.amount_minor)
        && (is_null r.currency_code
            || (is_distinct r.amount_minor r.amount_cents || not (is_eur r.currency_code))))

abbrev pub drop_target : Invoice → Invoice
drop_target r = record r { amount_minor = none; currency_code = none }

abbrev when : Bool → Tx (Unit {0}) → Tx (Unit {0})
when true t = t
when false t = pure tt

-- A contracted database is refused, by one reason or the other.
unfoldable refuse_contract : Phase → Tx (Unit {0})
refuse_contract contract = do
  raise_unless (← gets (no_row (λ r. is_usd r.currency_code))) down_forbidden_usd
  raise down_phase_rejected
refuse_contract _ = pure tt

abbrev drop_not_null : Tx (Unit {0})
drop_not_null = do
  require (← gets (λ s. (schema_now s).target_columns)) undefined_column
  alter (λ t. record t { target_not_null = false })

abbrev drop_trigger : Tx (Unit {0})
drop_trigger = do
  require (← gets (λ s. (schema_now s).compatibility_trigger)) undefined_object
  alter (λ t. record t { compatibility_trigger = false })

abbrev drop_columns : Tx (Unit {0})
drop_columns = do
  require (← gets (λ s. (schema_now s).eur_checks)) undefined_object
  alter (λ t. record t { eur_checks = false })
  require (← gets (λ s. (schema_now s).target_columns)) undefined_column
  alter (λ t. record t { target_columns = false })
  rewrite_rows drop_target

-- The UPDATE that resets `migration_control`, under the phase trigger.
abbrev reset_control : Tx (Unit {0})
reset_control = do update_phase initial; store_control initial_control

module _ (checksum : Version → Digest) where
  abbrev pub ledger_of : List Version → List (Version × Digest)
  ledger_of [] = []
  ledger_of (v ∷ vs) = (v, checksum v) ∷ ledger_of vs

  -- The DDL and DML that follow the checks.
  unfoldable undo_phase : Phase → Tx (Unit {0})
  unfolding update_phase
  undo_phase p = do
    alter (λ t. record t { v2_grant = false })
    when (is_switch p) drop_not_null
    when (in_compatibility p) drop_trigger
    when (is_down_phase p) drop_columns
    reset_control
    modify (λ d. record d {
      schema_migrations = select (λ e. version_index e.0 == 1) d.schema_migrations;
    })
    require (← gets (λ s. (schema_now s).legacy_column)) undefined_column
    alter (λ t. record t { v1_grant = true })

  unfoldable pub down : Tx (Unit {0})
  unfolding refuse_contract undo_phase
  down = do
    assume migrator
    advisory_lock exclusive
    c ← select_control
    refuse_contract c.phase
    raise_unless (is_down_phase c.phase) down_phase_rejected
    let expected = ledger_of (down_versions c.phase)
    raise_unless (← gets (λ s. eq_versions s.database.schema_migrations expected))
        down_ledger_rejected
    raise_unless (← gets (no_row is_unrepresentable)) down_representability_rejected
    undo_phase c.phase

  unfoldable pub attempt_down : Program (Unit {0})
  unfolding down
  attempt_down = transaction down
