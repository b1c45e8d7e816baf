-- ===== src/Contract/Spec.antt =====
-- What a database of the rehearsal stands for: a phase, the backfill's checkpoint and a list of
-- invoices, each an id, an amount and whether its target columns are filled.
use postgres_migration_rehea.Base.{
  ltb, if◌then◌else◌, All, ℤ, pos, ℕ, zero, suc, ◌≤◌, ◌<◌, ◌≡◌, Bool, true, false, not, ◌&&◌,
  Option, none, some, List, [], ◌∷◌, map,
}
use postgres_migration_rehea.Contract.Down.{ledger_of}
use postgres_migration_rehea.Contract.Migrations.{initial_schema}
use postgres_migration_rehea.Database.{
  Phase, initial, expand, compatibility, backfill, switch, contract, Version, v0001, v0002, v0003,
  v0004, v0005, Currency, eur, Invoice, Control, Schema, Digest, Database,
}

pub record Entry : Type 0 where
  pub id : ℕ
  pub amount : ℕ
  pub filled : Bool

abbrev target_amount : Bool → ℕ → Option ℤ
target_amount true n = some (pos n)
target_amount false n = none

abbrev target_currency : Bool → Option Currency
target_currency true = some eur
target_currency false = none

-- The row of an entry before the contract phase, and from then on.
abbrev pub row_of : Entry → Invoice
row_of e = record {
  id = e.id;
  amount_cents = some (pos e.amount);
  amount_minor = target_amount e.filled e.amount;
  currency_code = target_currency e.filled;
}

abbrev pub final_row : Entry → Invoice
final_row e = record {
  id = e.id;
  amount_cents = none;
  amount_minor = some (pos e.amount);
  currency_code = some eur;
}

abbrev rows_at : Phase → List Entry → List Invoice
rows_at contract = map final_row
rows_at initial = map row_of
rows_at _ = map row_of

-- The catalog in each phase; V2 has its grant from the end of the backfill on.
abbrev pub schema_of : Phase → Bool → Schema
schema_of initial v2 = initial_schema
schema_of expand v2 = record initial_schema { target_columns = true; eur_checks = true }
schema_of compatibility v2 = record initial_schema {
  target_columns = true;
  eur_checks = true;
  compatibility_trigger = true;
  v2_grant = v2;
}
schema_of backfill v2 = record initial_schema {
  target_columns = true;
  eur_checks = true;
  compatibility_trigger = true;
  v2_grant = v2;
}
schema_of switch v2 = record {
  legacy_column = true;
  target_columns = true;
  target_not_null = true;
  eur_checks = true;
  final_checks = false;
  compatibility_trigger = true;
  v1_grant = false;
  v2_grant = v2;
}
schema_of contract v2 = record {
  legacy_column = false;
  target_columns = true;
  target_not_null = true;
  eur_checks = false;
  final_checks = true;
  compatibility_trigger = false;
  v1_grant = false;
  v2_grant = v2;
}

-- The migrations in the ledger of each phase.
abbrev pub applied : Phase → List Version
applied initial = v0001 ∷ []
applied expand = v0001 ∷ v0002 ∷ []
applied compatibility = v0001 ∷ v0002 ∷ v0003 ∷ []
applied backfill = v0001 ∷ v0002 ∷ v0003 ∷ []
applied switch = v0001 ∷ v0002 ∷ v0003 ∷ v0004 ∷ []
applied contract = v0001 ∷ v0002 ∷ v0003 ∷ v0004 ∷ v0005 ∷ []

abbrev pub control_of : Phase → ℕ → ℕ → Bool → Control
control_of p last scanned v2 = record {
  phase = p;
  backfill_last_id = last;
  backfill_scanned_rows = scanned;
  v2_enabled = v2;
}

-- The database of a phase, a checkpoint, the V2 flag and the entries.
abbrev pub deployed : (Version → Digest) → Phase → ℕ → ℕ → Bool → List Entry → Database
deployed checksum p last scanned v2 es = record {
  control = some (control_of p last scanned v2);
  schema = schema_of p v2;
  schema_migrations = ledger_of checksum (applied p);
  invoices = rows_at p es;
}

-- Ids ascend from above `b` on: the order of the primary key.
abbrev pub IsAscending : ℕ → List Entry → Type 0
IsAscending b [] = Unit
IsAscending b (e ∷ es) = (b < e.id) × IsAscending e.id es

-- Every entry up to the checkpoint is filled.
abbrev pub IsCovered : ℕ → List Entry → Type 0
IsCovered last = All (λ e. e.id ≤ last → e.filled ≡ true)

abbrev IsUnfilled : List Entry → Type 0
IsUnfilled = All (λ e. e.filled ≡ false)

abbrev pub IsFilled : List Entry → Type 0
IsFilled = All (λ e. e.filled ≡ true)

abbrev pub fill : Entry → Entry
fill e = record e { filled = true }

abbrev pub unfill : Entry → Entry
unfill e = record e { filled = false }

-- How many entries wait for the backfill.
abbrev pub unfilled : List Entry → ℕ
unfilled [] = 0
unfilled (e ∷ es) = if e.filled then unfilled es else suc (unfilled es)

abbrev pub is_open : ℕ → Entry → Bool
is_open last e = ltb last e.id && not e.filled

-- Fill the first `k` open entries.
unfoldable pub fill_first : ℕ → ℕ → List Entry → List Entry
fill_first zero last es = es
fill_first (suc k) last [] = []
fill_first (suc k) last (e ∷ es) = elim (is_open last e) [
  | true ↦ fill e ∷ fill_first k last es
  | false ↦ e ∷ fill_first (suc k) last es
]
