-- ===== src/Tests/Samples.antt =====
-- Small tables for the tests of the migration.
use postgres_migration_rehea.Base.{pos, ℕ, refl, true, false, none, some, List, [], ◌∷◌, arith}
use postgres_migration_rehea.Contract.Spec.{Entry, row_of, deployed, IsAscending, IsCovered}
use postgres_migration_rehea.Database.{
  initial, expand, contract, Version, v0001, v0002, v0003, v0004, v0005, usd, Invoice, Digest,
  Database,
}
use postgres_migration_rehea.Engine.{FixtureRow}
use postgres_migration_rehea.Engine.Stages.{IsOrdered}

abbrev pub digest : Version → Digest
digest v0001 = 11
digest v0002 = 12
digest v0003 = 13
digest v0004 = 14
digest v0005 = 15

abbrev pub two_rows : List FixtureRow
two_rows =
    record { invoice_id = 101; amount_cents = 1250 }
    ∷ record { invoice_id = 102; amount_cents = 2400 }
    ∷ []

pub two_rows-IsOrdered : IsOrdered two_rows
two_rows-IsOrdered = (omega arith, (omega arith, tt))

-- One row filled and one not.
abbrev pub half_filled : List Entry
half_filled =
    record { id = 1; amount = 7; filled = true }
    ∷ record { id = 2; amount = 9; filled = false }
    ∷ []

pub half_filled-IsAscending : IsAscending 0 half_filled
half_filled-IsAscending = (omega arith, (omega arith, tt))

pub half_filled-IsCovered : IsCovered 1 half_filled
half_filled-IsCovered = (λ _. refl, (λ le. absurd (omega arith), tt))

abbrev pub all_filled : List Entry
all_filled =
    record { id = 1; amount = 7; filled = true } ∷ record { id = 2; amount = 9; filled = true } ∷ []

-- A row of the range of each client.
abbrev pub client_rows : List Entry
client_rows =
    record { id = 4001; amount = 7; filled = true }
    ∷ record { id = 4020; amount = 9; filled = true }
    ∷ []

abbrev pub legacy_row : ℕ → Invoice
legacy_row a = row_of (record { id = 1; amount = a; filled = false })

abbrev pub filled_row : ℕ → Invoice
filled_row a = row_of (record { id = 1; amount = a; filled = true })

abbrev pub usd_row : Invoice
usd_row = record {
  id = 1;
  amount_cents = none;
  amount_minor = some (pos 5);
  currency_code = some usd;
}

-- The contracted database with a row in USD.
abbrev pub with_usd : Database
with_usd = record (deployed digest contract 2 2 true []) { invoices = usd_row ∷ [] }

-- A database whose ledger was lost.
abbrev pub without_ledger : Database
without_ledger = record (deployed digest expand 0 0 false half_filled) { schema_migrations = [] }

-- A database whose first migration was edited since.
abbrev pub tampered : Database
tampered = record (deployed digest initial 0 0 false []) { schema_migrations = (v0001, 99) ∷ [] }
