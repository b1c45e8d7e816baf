-- ===== src/Contract/Backfill.antt =====
-- The backfill of contract.py: `_start_backfill`, `_run_backfill_batch`,
-- `_finish_backfill_enable_v2` and `_enter_backfill`.
use postgres_migration_rehea.Base.{
  ltb, ◌==◌, if◌then◌else◌, length, take, ℕ, zero, suc, ◌+◌, Bool, true, false, ◌&&◌, some, List,
  [], ◌∷◌,
}
use postgres_migration_rehea.Contract.Apply.{assume, is_incomplete, bootstrap}
use postgres_migration_rehea.Contract.Migrations.{schema_now, no_row}
use postgres_migration_rehea.Database.{
  backfill, Version, v0003, eur, Invoice, Control, Digest, is_null, same_phase, undefined_column,
  backfill_phase_rejected, enable_outside_backfill, enable_before_complete_backfill, out_of_fuel,
  Result, ok, migrator, shared, exclusive, Session, Tx, ◌>>=◌, ◌>>◌, pure, gets, raise_unless,
  require, advisory_lock, transaction, Program, next, succeed, fail, select_control, store_control,
  update_phase, select, update_invoices, alter,
}

abbrev batch_limit : ℕ
batch_limit = 256

-- id > last AND amount_minor IS NULL
abbrev pub is_pending : ℕ → Invoice → Bool
is_pending last r = ltb last r.id && is_null r.amount_minor

abbrev pub ids_of : List Invoice → List ℕ
ids_of [] = []
ids_of (r ∷ rs) = r.id ∷ ids_of rs

-- SELECT id ... ORDER BY id LIMIT 256
abbrev batch_ids : ℕ → Session → List ℕ
batch_ids last s = take batch_limit (ids_of (select (is_pending last) s.database.invoices))

abbrev pub any_of : List ℕ → ℕ → Bool
any_of [] i = false
any_of (j ∷ js) i = if j == i then true else any_of js i

abbrev pub last_of : ℕ → List ℕ → ℕ
last_of i [] = i
last_of i (j ∷ js) = last_of j js

-- SET amount_minor = amount_cents, currency_code = 'EUR'
abbrev pub copy_amount : Invoice → Result Invoice
copy_amount r = ok (record r { amount_minor = r.amount_cents; currency_code = some eur })

unfoldable pub fill_batch : List ℕ → Control → Tx ℕ
fill_batch [] c = pure 0
fill_batch (i ∷ is) c = do
  _ ← update_invoices (λ r. any_of (i ∷ is) r.id) copy_amount
  store_control (record c {
    backfill_last_id = last_of i is;
    backfill_scanned_rows = c.backfill_scanned_rows + length (i ∷ is);
  })
  pure (length (i ∷ is))

-- The body of `_run_backfill_batch`. The phase is read twice: before and after the row lock.
unfoldable backfill_batch : Tx ℕ
unfolding fill_batch update_invoices
backfill_batch = do
  assume migrator
  advisory_lock shared
  phase_row ← select_control
  raise_unless (same_phase phase_row.phase backfill) backfill_phase_rejected
  control ← select_control
  raise_unless (same_phase control.phase backfill) backfill_phase_rejected
  require (← gets (λ s. (schema_now s).target_columns)) undefined_column
  ids ← gets (batch_ids control.backfill_last_id)
  fill_batch ids control

-- `rollback_after_update` returns the count and undoes the batch.
unfoldable pub run_backfill_batch : Bool → Program ℕ
unfolding backfill_batch
run_backfill_batch false d = transaction backfill_batch d
run_backfill_batch true d = ((transaction backfill_batch d).0, d)

unfoldable pub enter_backfill_phase : Tx (Unit {0})
unfolding update_phase
enter_backfill_phase = do
  assume migrator
  advisory_lock exclusive
  _ ← select_control
  update_phase backfill

unfoldable enable_v2 : Tx (Unit {0})
enable_v2 = do
  assume migrator
  advisory_lock exclusive
  c ← select_control
  raise_unless (same_phase c.phase backfill) enable_outside_backfill
  require (← gets (λ s. (schema_now s).target_columns)) undefined_column
  raise_unless (← gets (no_row is_incomplete)) enable_before_complete_backfill
  alter (λ t. record t { v2_grant = true })
  store_control (record c { v2_enabled = true })

-- `_finish_backfill_enable_v2`
unfoldable pub finish_backfill_enable_v2 : Program (Unit {0})
unfolding enable_v2
finish_backfill_enable_v2 = transaction enable_v2

-- Batches until one finds nothing, with the rows they filled. The fuel bounds the rounds.
unfoldable pub drain : ℕ → ℕ → Program ℕ
drain zero total = fail out_of_fuel
drain (suc fuel) total =
    next (run_backfill_batch false)
      λ n. elim (n == 0) [ true ↦ succeed total | false ↦ drain fuel (total + n) ]

module _ (checksum : Version → Digest) where
  unfoldable pub start_backfill : Program (Unit {0})
  unfolding bootstrap enter_backfill_phase
  start_backfill = next (bootstrap checksum v0003) (λ _. transaction enter_backfill_phase)

  -- `_enter_backfill`
  unfoldable pub enter_backfill : ℕ → Program (Unit {0})
  unfolding start_backfill drain finish_backfill_enable_v2
  enter_backfill fuel =
      next start_backfill λ _. next (drain fuel 0) (λ _. finish_backfill_enable_v2)
