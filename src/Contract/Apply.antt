-- ===== src/Contract/Apply.antt =====
-- `_apply_migration`, `_seed_invoices` and `_bootstrap` of contract.py. `checksum` gives the
-- SHA-256 digest of each migration file. Timeouts, process ids and waits for a lock change no value
-- that the code computes; they are left out.
use postgres_migration_rehea.Base.{
  ◌==◌, if◌then◌else◌, pos, ℕ, zero, suc, ◌+◌, ◌*◌, ◌%◌, Bool, true, false, not, ◌||◌, Option, none,
  some, List, [], ◌∷◌,
}
use postgres_migration_rehea.Contract.Migrations.{schema_now, no_row, migration}
use postgres_migration_rehea.Database.{
  Phase, initial, expand, backfill, switch, Version, v0001, v0002, v0003, v0004, v0005, Invoice,
  Digest, is_null, sql_ne, is_eur, same_phase, undefined_column, role_assertion_failed,
  switch_requires_v2, switch_requires_complete_backfill, checksum_mismatch, unexpected_phase,
  injected_failure, ok, Role, rehearsal_app, owner, migrator, app_v1, app_v2, observer, exclusive,
  Session, Tx, ◌>>=◌, ◌>>◌, pure, gets, raise_unless, require, set_role, advisory_lock, transaction,
  Program, next, succeed, select_control, insert_invoice, version_index, lookup_version,
  store_migration,
}

abbrev same_role : Role → Role → Bool
same_role rehearsal_app rehearsal_app = true
same_role owner owner = true
same_role migrator migrator = true
same_role app_v1 app_v1 = true
same_role app_v2 app_v2 = true
same_role observer observer = true
same_role _ _ = false

-- `_assume_migrator` and its three siblings
abbrev pub assume : Role → Tx (Unit {0})
assume r = do set_role r; raise_unless (same_role (← gets (λ s. s.role)) r) role_assertion_failed

-- EXPECTED_PHASE
abbrev pub expected_phase : Version → Option Phase
expected_phase v0001 = none
expected_phase v0002 = some initial
expected_phase v0003 = some expand
expected_phase v0004 = some backfill
expected_phase v0005 = some switch

unfoldable pub guard_phase : Option Phase → Version → Tx (Unit {0})
guard_phase none v = pure tt
guard_phase (some p) v = do
  c ← select_control
  raise_unless (same_phase c.phase p) (unexpected_phase v)

-- amount_minor IS NULL OR amount_cents <> amount_minor OR currency_code IS DISTINCT FROM 'EUR'
abbrev pub is_incomplete : Invoice → Bool
is_incomplete r =
    is_null r.amount_minor || (sql_ne r.amount_cents r.amount_minor || not (is_eur r.currency_code))

unfoldable guard_switch : Version → Tx (Unit {0})
guard_switch v0004 = do
  c ← select_control
  raise_unless c.v2_enabled switch_requires_v2
  require (← gets (λ s. (schema_now s).target_columns)) undefined_column
  raise_unless (← gets (no_row is_incomplete)) switch_requires_complete_backfill
guard_switch _ = pure tt

abbrev pub holds_id : ℕ → List Invoice → Bool
holds_id i [] = false
holds_id i (r ∷ rs) = if r.id == i then true else holds_id i rs

abbrev pub seed_invoice : ℕ → Invoice
seed_invoice i = record {
  id = i;
  amount_cents = some (pos (i * 7919 % 1000000 + 1));
  amount_minor = none;
  currency_code = none;
}

-- ON CONFLICT (id) DO NOTHING
unfoldable pub insert_or_skip : Invoice → Tx (Unit {0})
unfolding insert_invoice
insert_or_skip r s = if holds_id r.id s.database.invoices then ok (tt, s) else insert_invoice r s

-- The rows from id `i` on, `n` of them.
unfoldable pub seed_from : ℕ → ℕ → Tx (Unit {0})
seed_from zero i = pure tt
seed_from (suc n) i = insert_or_skip (seed_invoice i) >> seed_from n (suc i)

-- `_seed_invoices`, after 0001 alone
unfoldable seed_after : Version → Tx (Unit {0})
seed_after v0001 = seed_from 4096 1
seed_after _ = pure tt

module _ (checksum : Version → Digest) where
  -- The migration itself, with its guards before and its ledger entry after.
  unfoldable pub run_migration : Version → Bool → Tx Bool
  unfolding guard_phase guard_switch migration seed_after
  run_migration v fail_before_commit = do
    guard_phase (expected_phase v) v
    guard_switch v
    migration v
    seed_after v
    store_migration v (checksum v)
    raise_unless (not fail_before_commit) (injected_failure v)
    pure true

  abbrev ledger_row : Version → Session → Option Digest
  ledger_row v s = elim s.database.control [
    | none ↦ none
    | some _ ↦ lookup_version v s.database.schema_migrations
  ]

  abbrev pub apply_unless : Version → Bool → Option Digest → Tx Bool
  apply_unless v fail_before_commit none = run_migration v fail_before_commit
  apply_unless v fail_before_commit (some d) = do
    raise_unless (d == checksum v) (checksum_mismatch v)
    pure false

  unfoldable pub apply_migration : Version → Bool → Tx Bool
  unfolding run_migration
  apply_migration v fail_before_commit = do
    assume migrator
    advisory_lock exclusive
    row ← gets (ledger_row v)
    apply_unless v fail_before_commit row

  abbrev pub versions : List Version
  versions = v0001 ∷ v0002 ∷ v0003 ∷ v0004 ∷ v0005 ∷ []

  unfoldable bootstrap_from : List Version → Version → Program (Unit {0})
  bootstrap_from [] through = succeed tt
  bootstrap_from (v ∷ vs) through = next (transaction (apply_migration v false)) λ _.
      (if version_index v == version_index through then succeed tt else bootstrap_from vs through)

  -- `_bootstrap`; a target outside the list is no value of `Version`
  unfoldable pub bootstrap : Version → Program (Unit {0})
  unfolding bootstrap_from
  bootstrap through = bootstrap_from versions through
