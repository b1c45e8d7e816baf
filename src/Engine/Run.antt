-- ===== src/Engine/Run.antt =====
-- The sequence of transactions of `run`, between creating and dropping the database.
use postgres_migration_rehea.Base.{
  ◌==◌, pos, ℕ, Bool, true, false, not, ◌&&◌, some, List, [], ◌∷◌, map,
}
use postgres_migration_rehea.Contract.{
  apply_migration, attempt_down, run_backfill_batch, finish_backfill_enable_v2, drain,
  start_backfill,
}
use postgres_migration_rehea.Database.{
  Version, v0001, v0002, v0003, v0004, v0005, eur, Digest, is_distinct, is_distinct_currency,
  Reason, not_idempotent, switch_rows_differ, legacy_rows_not_restored, integrity_check_failed,
  constraint_check_failed, destination_differs, transaction, Program, next, succeed, fail,
}
use postgres_migration_rehea.Engine.Statements.{
  FixtureRow, Destination, Legacy, reset_fixture, final_rows, legacy_rows, Observation, observe,
}

infixl 5 ◌>>=◌ ◌>>◌
abbrev pub ◌>>=◌ : {A B : Type 0} → Program A → (A → Program B) → Program B
m >>= f = next m f

abbrev pub ◌>>◌ : {A B : Type 0} → Program A → Program B → Program B
m >> k = next m (λ _. k)

abbrev pub check : Bool → Reason → Program (Unit {0})
check true e = succeed tt
check false e = fail e

abbrev pub expected_row : FixtureRow → Destination
expected_row r = record {
  invoice_id = r.invoice_id;
  amount_minor = some (pos r.amount_cents);
  currency_code = some eur;
}

abbrev same_destination : Destination → Destination → Bool
same_destination a b =
    a.invoice_id == b.invoice_id
    && (not (is_distinct a.amount_minor b.amount_minor)
        && not (is_distinct_currency a.currency_code b.currency_code))

abbrev pub same_destinations : List Destination → List Destination → Bool
same_destinations [] [] = true
same_destinations [] (_ ∷ _) = false
same_destinations (_ ∷ _) [] = false
same_destinations (a ∷ l) (b ∷ m) = same_destination a b && same_destinations l m

abbrev pub expected_rows : List FixtureRow → List Destination
expected_rows = map expected_row

abbrev pub same_legacy : List Legacy → List FixtureRow → Bool
same_legacy [] [] = true
same_legacy [] (_ ∷ _) = false
same_legacy (_ ∷ _) [] = false
same_legacy (a ∷ l) (r ∷ rs) =
    (a.invoice_id == r.invoice_id && not (is_distinct a.amount_cents (some (pos r.amount_cents))))
    && same_legacy l rs

-- What `_observe_final` and the two cycles report to `_response`.
pub record Final : Type 0 where
  pub destination : List Destination
  pub first_cycle : ℕ × ℕ
  pub second_cycle : ℕ × ℕ
  pub observed : Observation

module _ (checksum : Version → Digest) where
  -- `_backfill_cycle`
  unfoldable pub backfill_cycle : ℕ → Program (ℕ × ℕ)
  unfolding start_backfill drain finish_backfill_enable_v2 run_backfill_batch
  backfill_cycle fuel = do
    start_backfill checksum
    first_pass ← drain fuel 0
    finish_backfill_enable_v2
    second_pass ← run_backfill_batch false
    check (second_pass == 0) not_idempotent
    succeed (first_pass, second_pass)

  abbrev pub apply : Version → Program Bool
  apply v = transaction (apply_migration checksum v false)

  -- `_observe_final`
  unfoldable pub observe_final : List FixtureRow → Program (List Destination × Observation)
  unfolding final_rows observe
  observe_final rows = do
    destination ← final_rows
    seen ← observe checksum
    check
        (seen.final_phase
          && (seen.ledger_complete && (seen.no_target_nulls && seen.legacy_column_absent)))
        integrity_check_failed
    check seen.final_constraints constraint_check_failed
    check (same_destinations destination (expected_rows rows)) destination_differs
    succeed (destination, seen)

  -- 0001 to 0003 and the fixture, the first cycle, the switch.
  unfoldable pub forward : ℕ → List FixtureRow → Program (ℕ × ℕ)
  unfolding apply_migration reset_fixture backfill_cycle final_rows
  forward fuel rows = do
    apply v0001
    reset_fixture rows
    apply v0002
    apply v0003
    cycle ← backfill_cycle fuel
    apply v0004
    switch_rows ← final_rows
    check (same_destinations switch_rows (expected_rows rows)) switch_rows_differ
    succeed cycle

  unfoldable pub back : List FixtureRow → Program (Unit {0})
  unfolding attempt_down legacy_rows
  back rows = do
    attempt_down checksum
    rollback_rows ← legacy_rows
    check (same_legacy rollback_rows rows) legacy_rows_not_restored

  unfoldable pub forward_again : ℕ → Program (ℕ × ℕ)
  unfolding apply_migration backfill_cycle
  forward_again fuel = do
    apply v0002
    apply v0003
    cycle ← backfill_cycle fuel
    apply v0004
    apply v0005
    succeed cycle

  -- The body of `run`, inside its `try`.
  unfoldable pub rehearse : ℕ → List FixtureRow → Program Final
  unfolding forward back forward_again observe_final
  rehearse fuel rows = do
    first_cycle ← forward fuel rows
    back rows
    second_cycle ← forward_again fuel
    final ← observe_final rows
    succeed (record {
      destination = final.0;
      first_cycle = first_cycle;
      second_cycle = second_cycle;
      observed = final.1;
    })
