-- ===== src/Engine/Rehearsal.antt =====
-- The whole rehearsal of the engine, and its disposable database.
use postgres_migration_rehea.Base.{
  ==_refl, length, ℕ, ◌<◌, ◌≡◌, refl, ap, ◌∙◌, true, false, some, List, [], ◌∷◌, map, arith,
}
use postgres_migration_rehea.Contract.{misses_target, attempt_down}
use postgres_migration_rehea.Contract.Backward.{attempt_down-restores}
use postgres_migration_rehea.Contract.Forward.{
  apply-expand, apply-compatibility, apply-switch, apply-contract,
}
use postgres_migration_rehea.Contract.Rows.{IsFilled-fill}
use postgres_migration_rehea.Contract.Spec.{
  Entry, row_of, final_row, deployed, fill, unfill, unfilled,
}
use postgres_migration_rehea.Database.{
  initial, expand, compatibility, backfill, switch, contract, Version, v0001, v0002, v0003, v0004,
  v0005, Digest, Database, database_already_exists, switch_rows_differ, runtime_error, ok, err,
  Program, succeed, next-step, count,
}
use postgres_migration_rehea.Engine.Run.{
  ◌>>=◌, ◌>>◌, check, same_destinations, expected_rows, same_legacy, Final, backfill_cycle, apply,
  observe_final, forward, back, forward_again, rehearse,
}
use postgres_migration_rehea.Engine.Server.{idle, empty_database, with_database, run}
use postgres_migration_rehea.Engine.Stages.{
  entries_of, IsOrdered, apply_initial, reset_fixture_lem, Cycled, cycle_lem,
}
use postgres_migration_rehea.Engine.Statements.{
  FixtureRow, Destination, reset_fixture, destination_of, legacy_of, final_rows, Observation,
}

unfilled-entries_of : (rows : List FixtureRow) → unfilled (entries_of rows) ≡ length rows
unfilled-entries_of [] = refl
unfilled-entries_of (r ∷ rows) = rw (unfilled-entries_of rows) refl

unfill-fill : (rows : List FixtureRow) → map unfill (map fill (entries_of rows)) ≡ entries_of rows
unfill-fill [] = refl
unfill-fill (r ∷ rows) = rw (unfill-fill rows) refl

-- The rows that are read are the rows that are expected, in every shape.
same-switch_rows :
    (rows : List FixtureRow)
    → same_destinations
        (map destination_of (map row_of (map fill (entries_of rows))))
        (expected_rows rows)
      ≡ true
same-switch_rows [] = refl
same-switch_rows (r ∷ rows) =
    rw (==_refl r.invoice_id, ==_refl r.amount_cents, same-switch_rows rows) refl

same-contract_rows :
    (rows : List FixtureRow)
    → same_destinations
        (map destination_of (map final_row (map fill (entries_of rows))))
        (expected_rows rows)
      ≡ true
same-contract_rows [] = refl
same-contract_rows (r ∷ rows) =
    rw (==_refl r.invoice_id, ==_refl r.amount_cents, same-contract_rows rows) refl

same-legacy_rows :
    (rows : List FixtureRow)
    → same_legacy (map legacy_of (map row_of (entries_of rows))) rows ≡ true
same-legacy_rows [] = refl
same-legacy_rows (r ∷ rows) =
    rw (==_refl r.invoice_id, ==_refl r.amount_cents, same-legacy_rows rows) refl

destination-expected :
    (rows : List FixtureRow)
    → map destination_of (map final_row (map fill (entries_of rows))) ≡ expected_rows rows
destination-expected [] = refl
destination-expected (r ∷ rows) = rw (destination-expected rows) refl

no_null_left : (es : List Entry) → count misses_target (map final_row es) ≡ 0
no_null_left [] = refl
no_null_left (e ∷ es) = no_null_left es

module _ (checksum : Version → Digest) (fuel : ℕ) (rows : List FixtureRow) where
  abbrev entries : List Entry
  entries = entries_of rows

  abbrev all_seen : Observation
  all_seen = record {
    final_phase = true;
    ledger_complete = true;
    no_target_nulls = true;
    legacy_column_absent = true;
    final_constraints = true;
  }

  -- The engine's checks pass on a contracted database of the fixture.
  observe_final_lem :
      (last scanned : ℕ)
      → observe_final checksum rows
          (deployed checksum contract last scanned true (map fill entries))
        ≡ (
          ok (expected_rows rows, all_seen),
          deployed checksum contract last scanned true (map fill entries),
        )
  unfolding observe_final
  observe_final_lem last scanned =
      rw
        (
          ==_refl (checksum v0001),
          ==_refl (checksum v0002),
          ==_refl (checksum v0003),
          ==_refl (checksum v0004),
          ==_refl (checksum v0005),
          no_null_left (map fill entries),
          same-contract_rows rows,
          destination-expected rows,
        )
        refl

  abbrev pub report : Final
  report = record {
    destination = expected_rows rows;
    first_cycle = (length rows, 0);
    second_cycle = (length rows, 0);
    observed = all_seen;
  }

  module _ (asc : IsOrdered rows) (enough : length rows < fuel) where
    cycle : Cycled checksum fuel entries
    cycle = cycle_lem checksum fuel entries asc (omega (arith, unfilled-entries_of rows))

    abbrev switched : Database
    switched = deployed checksum switch cycle.checkpoint cycle.scanned true (map fill entries)

    -- The rest of `forward` after each stage.
    abbrev after_switch : ℕ × ℕ → List Destination → Program (ℕ × ℕ)
    after_switch counts switch_rows =
        check (same_destinations switch_rows (expected_rows rows)) switch_rows_differ
        >> succeed counts

    abbrev after_cycle : ℕ × ℕ → Program (ℕ × ℕ)
    after_cycle counts = apply checksum v0004 >> (final_rows >>= after_switch counts)

    abbrev after_expand : Program (ℕ × ℕ)
    after_expand = apply checksum v0003 >> (backfill_cycle checksum fuel >>= after_cycle)

    abbrev finish_again : ℕ × ℕ → Program (ℕ × ℕ)
    finish_again counts = apply checksum v0004 >> (apply checksum v0005 >> succeed counts)

    abbrev after_expand_again : Program (ℕ × ℕ)
    after_expand_again = apply checksum v0003 >> (backfill_cycle checksum fuel >>= finish_again)

    forward_lem : forward checksum fuel rows empty_database ≡ (ok (length rows, 0), switched)
    unfolding forward
    forward_lem =
        next-step (apply checksum v0001)
          (λ _. reset_fixture rows >> (apply checksum v0002 >> after_expand)) empty_database
          (apply_initial checksum).1
          (next-step (reset_fixture rows) (λ _. apply checksum v0002 >> after_expand)
            (deployed checksum initial 0 0 false (apply_initial checksum).0)
            (reset_fixture_lem checksum rows (apply_initial checksum).0 asc)
            (next-step (apply checksum v0002) (λ _. after_expand)
              (deployed checksum initial 0 0 false entries) (apply-expand checksum 0 0 entries)
              (next-step (apply checksum v0003) (λ _. backfill_cycle checksum fuel >>= after_cycle)
                (deployed checksum expand 0 0 false entries)
                (apply-compatibility checksum 0 0 entries)
                (next-step (backfill_cycle checksum fuel) after_cycle
                  (deployed checksum compatibility 0 0 false entries) cycle.outcome
                  (next-step (apply checksum v0004)
                    (λ _. final_rows >>= after_switch (unfilled entries, 0))
                    (deployed checksum backfill cycle.checkpoint cycle.scanned true
                      (map fill entries))
                    (apply-switch checksum cycle.checkpoint cycle.scanned (map fill entries)
                      (IsFilled-fill entries))
                    (rw (same-switch_rows rows, unfilled-entries_of rows) refl))))))

    back_lem : back checksum rows switched ≡ (ok tt, deployed checksum initial 0 0 false entries)
    unfolding back
    back_lem =
        next-step (attempt_down checksum) _ switched
          (attempt_down-restores checksum cycle.checkpoint cycle.scanned true (map fill entries)
              switch refl
            ∙ ap (λ es. (ok tt, deployed checksum initial 0 0 false es)) (unfill-fill rows))
          (rw (same-legacy_rows rows) refl)

    abbrev contracted : Database
    contracted = deployed checksum contract cycle.checkpoint cycle.scanned true (map fill entries)

    forward_again_lem :
        forward_again checksum fuel (deployed checksum initial 0 0 false entries)
        ≡ (ok (length rows, 0), contracted)
    unfolding forward_again
    forward_again_lem =
        next-step (apply checksum v0002) (λ _. after_expand_again)
          (deployed checksum initial 0 0 false entries) (apply-expand checksum 0 0 entries)
          (next-step (apply checksum v0003) (λ _. backfill_cycle checksum fuel >>= finish_again)
            (deployed checksum expand 0 0 false entries) (apply-compatibility checksum 0 0 entries)
            (next-step (backfill_cycle checksum fuel) finish_again
              (deployed checksum compatibility 0 0 false entries) cycle.outcome
              (next-step (apply checksum v0004)
                (λ _. apply checksum v0005 >> succeed (unfilled entries, 0))
                (deployed checksum backfill cycle.checkpoint cycle.scanned true (map fill entries))
                (apply-switch checksum cycle.checkpoint cycle.scanned (map fill entries)
                  (IsFilled-fill entries))
                (next-step (apply checksum v0005) (λ _. succeed (unfilled entries, 0)) switched
                  (apply-contract checksum cycle.checkpoint cycle.scanned (map fill entries)
                    (IsFilled-fill entries))
                  (rw (unfilled-entries_of rows) refl)))))

    rehearse_lem : rehearse checksum fuel rows empty_database ≡ (ok report, contracted)
    unfolding rehearse
    rehearse_lem = next-step (forward checksum fuel rows) _ empty_database forward_lem (
        next-step (back checksum rows) _ switched back_lem (
          next-step (forward_again checksum fuel) _ (deployed checksum initial 0 0 false entries)
            forward_again_lem
            (next-step (observe_final checksum rows) _ contracted
              (observe_final_lem cycle.checkpoint cycle.scanned) refl)))

    -- On an idle server, with fuel above the number of rows, the engine succeeds on every
    -- fixture whose ids are positive and ascend: each row comes out with its amount in EUR, both
    -- backfill cycles fill every row once and find nothing on the second pass, every final check
    -- is true, and the disposable database is gone.
    pub run_lem : (oid : ℕ) → run checksum fuel rows oid idle ≡ (ok report, idle)
    unfolding run
    run_lem oid = rw (rehearse_lem, ==_refl oid) refl

-- A server that already holds the database is left alone.
with_database-busy :
    {A : Type 0} (body : Program A) (oid held : ℕ) (d : Database)
    → with_database body oid (record { disposable = some (held, d) })
      ≡ (err (runtime_error database_already_exists), record { disposable = some (held, d) })
unfolding with_database
with_database-busy body oid held d = refl
