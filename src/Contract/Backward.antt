-- ===== src/Contract/Backward.antt =====
-- `attempt_down` on the database of each phase.
use postgres_migration_rehea.Base.{
  ◌==◌, if◌then◌else◌, ==_refl, Bool-cases, ℕ, ◌≡◌, refl, inl, inr, Bool, true, false, some, List,
  map,
}
use postgres_migration_rehea.Contract.Down.{is_down_phase, down_versions, ledger_of, attempt_down}
use postgres_migration_rehea.Contract.Rows.{count-is_unrepresentable, map-drop_target}
use postgres_migration_rehea.Contract.Spec.{Entry, control_of, deployed, unfill}
use postgres_migration_rehea.Database.{
  Phase, initial, expand, compatibility, backfill, switch, contract, Version, v0001, v0002, v0003,
  v0004, Invoice, Schema, Digest, Database, is_usd, down_forbidden_usd, down_phase_rejected,
  down_ledger_rejected, Failure, runtime_error, ok, err, ◌>>=◌, ◌>>◌, raise_unless, count,
  eq_versions,
}

module _ (checksum : Version → Digest) (last scanned : ℕ) (v2 : Bool) (es : List Entry) where
  abbrev restored : Database
  restored = deployed checksum initial 0 0 false (map unfill es)

  -- On a database in the expand, compatibility, backfill or switch phase, whatever the
  -- checkpoint, the V2 flag and the rows filled so far, `attempt_down` succeeds and leaves the
  -- initial database with every id and amount as it was.
  pub attempt_down-restores :
      (p : Phase)
      → is_down_phase p ≡ true
      → attempt_down checksum (deployed checksum p last scanned v2 es) ≡ (ok tt, restored)
  unfolding attempt_down
  attempt_down-restores initial h = cc
  attempt_down-restores expand h =
      rw
        (
          ==_refl (checksum v0001),
          ==_refl (checksum v0002),
          count-is_unrepresentable es,
          map-drop_target es,
        )
        refl
  attempt_down-restores compatibility h =
      rw
        (
          ==_refl (checksum v0001),
          ==_refl (checksum v0002),
          ==_refl (checksum v0003),
          count-is_unrepresentable es,
          map-drop_target es,
        )
        refl
  attempt_down-restores backfill h =
      rw
        (
          ==_refl (checksum v0001),
          ==_refl (checksum v0002),
          ==_refl (checksum v0003),
          count-is_unrepresentable es,
          map-drop_target es,
        )
        refl
  attempt_down-restores switch h =
      rw
        (
          ==_refl (checksum v0001),
          ==_refl (checksum v0002),
          ==_refl (checksum v0003),
          ==_refl (checksum v0004),
          count-is_unrepresentable es,
          map-drop_target es,
        )
        refl
  attempt_down-restores contract h = cc

abbrev down_refusal : ℕ → Failure
down_refusal usd_rows =
    runtime_error (if usd_rows == 0 then down_phase_rejected else down_forbidden_usd)

abbrev in_phase : Phase → ℕ → ℕ → Bool → Schema → List (Version × Digest) → List Invoice → Database
in_phase p last scanned v2 t ledger rows = record {
  control = some (control_of p last scanned v2);
  schema = t;
  schema_migrations = ledger;
  invoices = rows;
}

module _ (checksum : Version → Digest) (last scanned : ℕ) (v2 : Bool) (t : Schema)
    (ledger : List (Version × Digest)) (rows : List Invoice) where
  -- In the contract phase `attempt_down` fails and changes nothing, whatever the catalog, the
  -- ledger and the rows: with a row in USD by DOWN_FORBIDDEN_USD, without one by
  -- DOWN_PHASE_REJECTED.
  pub attempt_down-contract :
      attempt_down checksum (in_phase contract last scanned v2 t ledger rows) ≡ (
        err (down_refusal (count (λ r. is_usd r.currency_code) rows)),
        in_phase contract last scanned v2 t ledger rows,
      )
  unfolding attempt_down
  attempt_down-contract = elim (Bool-cases (count (λ r. is_usd r.currency_code) rows == 0)) [
    | inl none_found ↦ rw (none_found, ◌>>=◌, ◌>>◌, raise_unless) refl
    | inr found ↦ rw (found, ◌>>=◌, ◌>>◌, raise_unless) refl
  ]

  -- In a phase that has a way back, a ledger that is not the one of the phase makes
  -- `attempt_down` fail with DOWN_LEDGER_REJECTED and change nothing, whatever the catalog and
  -- the rows.
  pub attempt_down-ledger :
      (p : Phase)
      → is_down_phase p ≡ true
      → eq_versions ledger (ledger_of checksum (down_versions p)) ≡ false
      → attempt_down checksum (in_phase p last scanned v2 t ledger rows)
        ≡ (err (runtime_error down_ledger_rejected), in_phase p last scanned v2 t ledger rows)
  unfolding attempt_down
  attempt_down-ledger initial h e = cc
  attempt_down-ledger contract h e = cc
  attempt_down-ledger expand h e = rw e refl
  attempt_down-ledger compatibility h e = rw e refl
  attempt_down-ledger backfill h e = rw e refl
  attempt_down-ledger switch h e = rw e refl
