-- ===== src/Contract/Forward.antt =====
-- Each step forward, on the database that it expects: it commits, and leads to the next phase.
use postgres_migration_rehea.Base.{==_refl, ℕ, ◌≡◌, refl, true, false, List}
use postgres_migration_rehea.Contract.Apply.{apply_migration, bootstrap}
use postgres_migration_rehea.Contract.Backfill.{
  enter_backfill_phase, finish_backfill_enable_v2, start_backfill,
}
use postgres_migration_rehea.Contract.Rows.{
  count-is_incomplete, count-misses_target, count-breaks_eur_checks, count-breaks_final_checks,
  map-drop_legacy,
}
use postgres_migration_rehea.Contract.Spec.{Entry, deployed, IsFilled}
use postgres_migration_rehea.Database.{
  initial, expand, compatibility, backfill, switch, contract, Version, v0001, v0002, v0003, v0004,
  v0005, Digest, ok, ◌>>=◌, ◌>>◌, raise_unless, require, transaction, next-ok,
}

module _ (checksum : Version → Digest) (last scanned : ℕ) (es : List Entry) where
  pub apply-expand :
      transaction
        (apply_migration checksum v0002 false)
        (deployed checksum initial last scanned false es)
      ≡ (ok true, deployed checksum expand last scanned false es)
  unfolding apply_migration
  apply-expand = refl

  pub apply-compatibility :
      transaction
        (apply_migration checksum v0003 false)
        (deployed checksum expand last scanned false es)
      ≡ (ok true, deployed checksum compatibility last scanned false es)
  unfolding apply_migration
  apply-compatibility = refl

  pub enable_v2_lem :
      IsFilled es
      → finish_backfill_enable_v2 (deployed checksum backfill last scanned false es)
        ≡ (ok tt, deployed checksum backfill last scanned true es)
  unfolding finish_backfill_enable_v2
  enable_v2_lem h = rw (count-is_incomplete es h) refl

  -- With every row filled and V2 enabled, migration 0004 commits from the backfill phase and
  -- leaves the database of the switch phase with the same rows.
  pub apply-switch :
      IsFilled es
      → transaction
          (apply_migration checksum v0004 false)
          (deployed checksum backfill last scanned true es)
        ≡ (ok true, deployed checksum switch last scanned true es)
  unfolding apply_migration
  apply-switch h =
      rw
        (
          count-is_incomplete es h,
          count-breaks_eur_checks es,
          count-misses_target es h,
          ◌>>=◌,
          ◌>>◌,
          raise_unless,
          require,
        )
        refl

  -- With every row filled, migration 0005 commits from the switch phase and leaves the database
  -- of the contract phase: every amount in EUR under the final constraints, and no legacy
  -- column.
  pub apply-contract :
      IsFilled es
      → transaction
          (apply_migration checksum v0005 false)
          (deployed checksum switch last scanned true es)
        ≡ (ok true, deployed checksum contract last scanned true es)
  unfolding apply_migration
  apply-contract h =
      rw (count-breaks_final_checks es, map-drop_legacy es h, ◌>>=◌, ◌>>◌, raise_unless, require)
        refl

  -- Applying a version that the ledger holds changes nothing.
  bootstrap-compatibility :
      bootstrap checksum v0003 (deployed checksum compatibility last scanned false es)
      ≡ (ok tt, deployed checksum compatibility last scanned false es)
  unfolding bootstrap apply_migration
  bootstrap-compatibility =
      rw (==_refl (checksum v0001), ==_refl (checksum v0002), ==_refl (checksum v0003)) refl

  pub start_backfill_lem :
      start_backfill checksum (deployed checksum compatibility last scanned false es)
      ≡ (ok tt, deployed checksum backfill last scanned false es)
  unfolding start_backfill
  start_backfill_lem =
      next-ok (bootstrap checksum v0003) (λ _. transaction enter_backfill_phase)
        (deployed checksum compatibility last scanned false es) bootstrap-compatibility
