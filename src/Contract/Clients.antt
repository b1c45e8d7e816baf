-- ===== src/Contract/Clients.antt =====
-- The clients' statements: clients.py, and the writers and probes of contract.py.
use postgres_migration_rehea.Base.{
  leb, ◌==◌, if◌then◌else◌, ℤ, pos, negsuc, plus, ℕ, Bool, true, false, not, ◌&&◌, ◌||◌, Option,
  none, some,
}
use postgres_migration_rehea.Contract.Apply.{assume}
use postgres_migration_rehea.Contract.Migrations.{schema_now}
use postgres_migration_rehea.Database.{
  Phase, initial, expand, compatibility, backfill, Currency, eur, Invoice, same_phase,
  undefined_column, insufficient_privilege, numeric_value_out_of_range, client_phase_rejected,
  psycopg_error, Result, ok, err, Role, app_v1, app_v2, shared, Tx, ◌>>=◌, ◌>>◌, pure, gets,
  raise_unless, require, advisory_lock, transaction, Program, select_control, update_invoices,
  insert_invoice, may_write_legacy, may_write_target,
}

abbrev pub bigint_max : ℕ
bigint_max = 9223372036854775807

abbrev fits_bigint : ℤ → Bool
fits_bigint (pos a) = leb a bigint_max
fits_bigint (negsuc a) = leb a bigint_max

abbrev checked_amount : ℤ → Result (Option ℤ)
checked_amount a =
    if fits_bigint a then ok (some a) else err (psycopg_error numeric_value_out_of_range)

-- `amount + k` on a nullable column
abbrev add_amount : ℕ → Option ℤ → Result (Option ℤ)
add_amount k none = ok none
add_amount k (some a) = checked_amount (plus a k)

abbrev with_cents : Invoice → Result (Option ℤ) → Result Invoice
with_cents r (ok a) = ok (record r { amount_cents = a })
with_cents r (err e) = err e

abbrev with_minor : Invoice → Result (Option ℤ) → Result Invoice
with_minor r (ok a) = ok (record r { amount_minor = a; currency_code = some eur })
with_minor r (err e) = err e

-- SET amount_cents = amount_cents + k
abbrev pub add_cents : ℕ → Invoice → Result Invoice
add_cents k r = with_cents r (add_amount k r.amount_cents)

-- SET amount_minor = amount_minor + k, currency_code = 'EUR'
abbrev pub add_minor : ℕ → Invoice → Result Invoice
add_minor k r = with_minor r (add_amount k r.amount_minor)

abbrev pub between : ℕ → ℕ → Invoice → Bool
between lo hi r = leb lo r.id && leb r.id hi

unfoldable pub update_legacy : (Invoice → Bool) → ℕ → Tx ℕ
unfolding update_invoices
update_legacy p k = do
  require (← gets (λ s. (schema_now s).legacy_column)) undefined_column
  require (← gets (λ s. may_write_legacy s.role (schema_now s))) insufficient_privilege
  update_invoices p (add_cents k)

-- `write_v1`
unfoldable pub write_v1 : Tx ℕ
unfolding update_legacy
write_v1 = update_legacy (between 4001 4008) 101

-- `write_v2`
unfoldable pub write_v2 : Tx ℕ
unfolding update_invoices
write_v2 = do
  require (← gets (λ s. (schema_now s).target_columns)) undefined_column
  require (← gets (λ s. may_write_target s.role (schema_now s))) insufficient_privilege
  update_invoices (between 4017 4024) (add_minor 202)

abbrev admits_v1 : Phase → Bool
admits_v1 initial = true
admits_v1 expand = true
admits_v1 compatibility = true
admits_v1 backfill = true
admits_v1 _ = false

unfoldable v1_write : Tx (Unit {0})
unfolding write_v1
v1_write = do
  assume app_v1
  advisory_lock shared
  c ← select_control
  raise_unless (admits_v1 c.phase) client_phase_rejected
  _ ← write_v1
  pure tt

-- `attempt_v1_write`
unfoldable pub attempt_v1_write : Program (Unit {0})
unfolding v1_write
attempt_v1_write = transaction v1_write

abbrev client_role : Bool → Role
client_role true = app_v2
client_role false = app_v1

abbrev client_write : Bool → Tx ℕ
client_write true = write_v2
client_write false = write_v1

-- The transaction of `_client_actor`, up to its commit.
unfoldable pub client_actor : Bool → Tx ℕ
unfolding write_v1 write_v2
client_actor v2 = do
  assume (client_role v2)
  advisory_lock shared
  c ← select_control
  raise_unless (same_phase c.phase backfill && (not v2 || c.v2_enabled)) client_phase_rejected
  client_write v2

-- The statement of `_write_fixed_v1_513` and of `_backfill_v1_actor`, with their admission test.
unfoldable write_fixed_v1_513 : Tx ℕ
unfolding update_legacy
write_fixed_v1_513 = do
  assume app_v1
  advisory_lock shared
  c ← select_control
  raise_unless (same_phase c.phase backfill) client_phase_rejected
  update_legacy (λ r. r.id == 513) 17

-- INSERT INTO invoices (id, amount_minor, currency_code), as V2
unfoldable pub v2_insert : ℕ → Option ℤ → Option Currency → Tx (Unit {0})
unfolding insert_invoice
v2_insert i minor currency = do
  assume app_v2
  require (← gets (λ s. (schema_now s).target_columns)) undefined_column
  require (← gets (λ s. may_write_target s.role (schema_now s))) insufficient_privilege
  insert_invoice
      (record { id = i; amount_cents = none; amount_minor = minor; currency_code = currency })

-- SELECT amount_cents FROM invoices LIMIT 1, as the owner or the migrator
unfoldable pub legacy_probe : Role → Tx (Unit {0})
legacy_probe r = do assume r; require (← gets (λ s. (schema_now s).legacy_column)) undefined_column
