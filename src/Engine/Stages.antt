-- ===== src/Engine/Stages.antt =====
-- The stages of the engine, each on the database that the stage before it leaves.
use mathlib.Core.List.{append-nil, append_assoc}
use native.Mathlib.Nat.{zero-add}
use postgres_migration_rehea.Base.{
  ◌==◌, ℕ, suc, ◌+◌, ◌<◌, ◌≡◌, refl, ap, ◌∙◌, Bool, true, false, some, List, [], ◌∷◌, ◌++◌, map,
  arith,
}
use postgres_migration_rehea.Contract.{
  apply_migration, initial_control, run_backfill_batch, finish_backfill_enable_v2, drain,
  start_backfill,
}
use postgres_migration_rehea.Contract.Batch.{IsCovered-below}
use postgres_migration_rehea.Contract.Drain.{Drained, drain_lem}
use postgres_migration_rehea.Contract.Forward.{enable_v2_lem, start_backfill_lem}
use postgres_migration_rehea.Contract.Idempotence.{IsAscending-fill, batch_again}
use postgres_migration_rehea.Contract.Rows.{IsFilled-fill}
use postgres_migration_rehea.Contract.Seed.{
  IsBelow, IsBelow-append, IsBelow-mono, fresh, seeded, insert_invoice-last, Seeded, seed_from_lem,
}
use postgres_migration_rehea.Contract.Spec.{Entry, deployed, IsAscending, fill, unfilled}
use postgres_migration_rehea.Database.{
  Phase, initial, compatibility, backfill, Version, v0001, Digest, Database, not_idempotent, ok,
  Role, owner, migrator, Advisory, unlocked, exclusive, transaction, Program, bind-ok, next-ok,
  succeed, insert_invoice,
}
use postgres_migration_rehea.Engine.Run.{◌>>=◌, ◌>>◌, check, backfill_cycle}
use postgres_migration_rehea.Engine.Server.{empty_database}
use postgres_migration_rehea.Engine.Statements.{
  FixtureRow, fixture_invoice, insert_fixture, reset_fixture,
}

abbrev entry_of : FixtureRow → Entry
entry_of r = fresh r.invoice_id r.amount_cents

abbrev pub entries_of : List FixtureRow → List Entry
entries_of = map entry_of

-- The fixture's rows come in ascending order of their positive ids.
abbrev pub IsOrdered : List FixtureRow → Type 0
IsOrdered rows = IsAscending 0 (entries_of rows)

insert_fixture_lem :
    (d : Database) (r : Role) (a : Advisory) (b : ℕ) (rows : List FixtureRow) (es : List Entry)
    → IsAscending b (entries_of rows)
    → IsBelow (suc b) es
    → insert_fixture rows (seeded d r a es) ≡ ok (tt, seeded d r a (es ++ entries_of rows))
unfolding insert_fixture
insert_fixture_lem d r a b [] es asc h = rw (append-nil es) refl
insert_fixture_lem d r a b (x ∷ rows) es asc h =
    bind-ok (insert_invoice (fixture_invoice x)) (λ _. insert_fixture rows)
      (insert_invoice-last d r a x.invoice_id x.amount_cents es
        (IsBelow-mono (suc b) x.invoice_id es asc.0 h))
    ∙ insert_fixture_lem d r a x.invoice_id rows (es ++ entry_of x ∷ []) asc.1 (
        IsBelow-append (suc x.invoice_id) (entry_of x) es
          (IsBelow-mono (suc b) (suc x.invoice_id) es (omega (arith, asc.0)) h) (omega arith))
    ∙ ap (λ l. ok (tt, seeded d r a l)) (append_assoc es (entry_of x ∷ []) (entries_of rows))

module _ (checksum : Version → Digest) where
  abbrev at : Phase → ℕ → ℕ → Bool → List Entry → Database
  at = deployed checksum

  -- The tables as 0001 leaves them, before its seed.
  abbrev created : Database
  created = record empty_database { control = some initial_control }

  seed_of : Seeded created migrator exclusive 4096 1 []
  seed_of = seed_from_lem created migrator exclusive 4096 1 [] tt

  -- On a fresh database 0001 commits, with some seed.
  pub apply_initial :
      (es : List Entry) × (transaction (apply_migration checksum v0001 false) empty_database
        ≡ (ok true, at initial 0 0 false es))
  unfolding apply_migration
  apply_initial = (seed_of.entries, rw (seed_of.outcome, ◌>>◌, ◌>>=◌) refl)

  pub reset_fixture_lem :
      (rows : List FixtureRow) (es : List Entry)
      → IsOrdered rows
      → reset_fixture rows (at initial 0 0 false es)
        ≡ (ok tt, at initial 0 0 false (entries_of rows))
  unfolding reset_fixture
  reset_fixture_lem rows es asc =
      rw (insert_fixture_lem (at initial 0 0 false es) owner unlocked 0 rows [] asc tt) refl

  -- What one cycle leaves: everything filled and V2 admitted.
  pub record Cycled (fuel : ℕ) (es : List Entry) : Type 0 where
    pub checkpoint : ℕ
    pub scanned : ℕ
    pub outcome :
        backfill_cycle checksum fuel (at compatibility 0 0 false es)
        ≡ (ok (unfilled es, 0), at backfill checkpoint scanned true (map fill es))

  abbrev second_pass : ℕ → ℕ → Program (ℕ × ℕ)
  second_pass first_pass n = do check (n == 0) not_idempotent; succeed (first_pass, n)

  abbrev after_finish : ℕ → Program (ℕ × ℕ)
  after_finish first_pass = do n ← run_backfill_batch false; second_pass first_pass n

  abbrev after_drain : ℕ → Program (ℕ × ℕ)
  after_drain first_pass = do finish_backfill_enable_v2; after_finish first_pass

  pub cycle_lem :
      (fuel : ℕ) (es : List Entry) → IsAscending 0 es → unfilled es < fuel → Cycled fuel es
  unfolding backfill_cycle
  cycle_lem fuel es asc lt =
      let drained : Drained checksum false fuel 0 0 0 es =
        drain_lem checksum false fuel 0 0 0 es asc (IsCovered-below 0 0 es asc (omega arith)) lt in
      let n : ℕ = 0 + unfilled es in
      let all : List Entry = map fill es in
      record {
        checkpoint = drained.checkpoint;
        scanned = n;
        outcome =
            next-ok (start_backfill checksum) (λ _. drain fuel 0 >>= after_drain)
              (at compatibility 0 0 false es) (start_backfill_lem checksum 0 0 es)
            ∙ next-ok (drain fuel 0) after_drain (at backfill 0 0 false es) drained.outcome
            ∙ next-ok finish_backfill_enable_v2 (λ _. after_finish n)
                (at backfill drained.checkpoint n false all)
                (enable_v2_lem checksum drained.checkpoint n all (IsFilled-fill es))
            ∙ next-ok (run_backfill_batch false) (second_pass n)
                (at backfill drained.checkpoint n true all)
                (batch_again checksum drained.checkpoint n true all (IsAscending-fill 0 es asc)
                  (IsFilled-fill es))
            ∙ (rw (zero-add (unfilled es)) refl);
      }
