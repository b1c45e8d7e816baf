-- ===== src/Engine/Statements.antt =====
-- The engine's own transactions: `_reset_fixture`, `_rows_at_current_shape` and the reads of
-- `_observe_final`. Rows come in the order of the primary key.
-- A validated row of a fixture.
use postgres_migration_rehea.Base.{ℤ, pos, ℕ, Bool, not, Option, none, some, List, [], ◌∷◌, map}
use postgres_migration_rehea.Contract.{versions, schema_now, no_row, misses_target, ledger_of}
use postgres_migration_rehea.Database.{
  contract, Version, Currency, Invoice, Digest, same_phase, undefined_column, owner, observer, Tx,
  ◌>>=◌, ◌>>◌, pure, gets, require, modify, set_role, transaction, Program, select_control,
  insert_invoice, eq_versions,
}

pub record FixtureRow : Type 0 where
  pub invoice_id : ℕ
  pub amount_cents : ℕ

-- A row of the final shape as it is read; a NULL stays `none`, and equals no expected row.
pub record Destination : Type 0 where
  pub invoice_id : ℕ
  pub amount_minor : Option ℤ
  pub currency_code : Option Currency

pub record Legacy : Type 0 where
  pub invoice_id : ℕ
  pub amount_cents : Option ℤ

abbrev delete_invoices : Tx (Unit {0})
delete_invoices = modify (λ d. record d { invoices = [] })

abbrev pub fixture_invoice : FixtureRow → Invoice
fixture_invoice r = record {
  id = r.invoice_id;
  amount_cents = some (pos r.amount_cents);
  amount_minor = none;
  currency_code = none;
}

unfoldable pub insert_fixture : List FixtureRow → Tx (Unit {0})
insert_fixture [] = pure tt
insert_fixture (r ∷ rs) = insert_invoice (fixture_invoice r) >> insert_fixture rs

unfoldable pub reset_fixture : List FixtureRow → Program (Unit {0})
unfolding insert_fixture
reset_fixture rows = transaction (do set_role owner; delete_invoices; insert_fixture rows)

abbrev pub destination_of : Invoice → Destination
destination_of r = record {
  invoice_id = r.id;
  amount_minor = r.amount_minor;
  currency_code = r.currency_code;
}

abbrev pub legacy_of : Invoice → Legacy
legacy_of r = record { invoice_id = r.id; amount_cents = r.amount_cents }

-- `_rows_at_current_shape(final=True)`
unfoldable pub final_rows : Program (List Destination)
final_rows = transaction (do
  set_role observer
  require (← gets (λ s. (schema_now s).target_columns)) undefined_column
  gets (λ s. map destination_of s.database.invoices))

-- `_rows_at_current_shape(final=False)`
unfoldable pub legacy_rows : Program (List Legacy)
legacy_rows = transaction (do
  set_role observer
  require (← gets (λ s. (schema_now s).legacy_column)) undefined_column
  gets (λ s. map legacy_of s.database.invoices))

-- What `_observe_final` reads in its second transaction.
pub record Observation : Type 0 where
  pub final_phase : Bool
  pub ledger_complete : Bool
  pub no_target_nulls : Bool
  pub legacy_column_absent : Bool
  pub final_constraints : Bool

unfoldable pub observe : (Version → Digest) → Program Observation
observe checksum = transaction (do
  set_role observer
  c ← select_control
  require (← gets (λ s. (schema_now s).target_columns)) undefined_column
  gets (λ s. record {
    final_phase = same_phase c.phase contract;
    ledger_complete =
        eq_versions s.database.schema_migrations (ledger_of checksum (versions checksum));
    no_target_nulls = no_row misses_target s;
    legacy_column_absent = not (schema_now s).legacy_column;
    final_constraints = (schema_now s).final_checks;
  }))
