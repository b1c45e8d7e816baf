-- ===== src/Contract/Evidence.antt =====
-- `exercise_post_contract_rejections` from the database that the workload finds.
use native.Mathlib.Nat.{zero-add}
use postgres_migration_rehea.Base.{ℕ, ◌+◌, ◌<◌, ◌≡◌, refl, ◌∙◌, true, false, List, map, arith}
use postgres_migration_rehea.Contract.Apply.{apply_migration}
use postgres_migration_rehea.Contract.Backfill.{
  finish_backfill_enable_v2, drain, start_backfill, enter_backfill,
}
use postgres_migration_rehea.Contract.Batch.{IsCovered-below}
use postgres_migration_rehea.Contract.Drain.{Drained, drain_lem}
use postgres_migration_rehea.Contract.Exercises.{
  expected_states, post_contract_evidence, confirm, to_switch, exercise_post_contract_rejections,
}
use postgres_migration_rehea.Contract.Forward.{
  enable_v2_lem, apply-switch, apply-contract, start_backfill_lem,
}
use postgres_migration_rehea.Contract.Rows.{count-breaks_final_checks, IsFilled-fill}
use postgres_migration_rehea.Contract.Spec.{Entry, deployed, IsAscending, fill, unfilled}
use postgres_migration_rehea.Database.{
  Phase, compatibility, backfill, switch, contract, Version, v0005, Digest, Database, check_row,
  injected_failure, runtime_error, ok, err, ◌>>=◌, ◌>>◌, raise_unless, require, transaction,
  next-step, insert_row,
}

module _ (checksum : Version → Digest) where
  post_contract_evidence_of :
      (es : List Entry) (last scanned : ℕ)
      → post_contract_evidence (deployed checksum contract last scanned true es)
        ≡ (ok expected_states, deployed checksum contract last scanned true es)
  unfolding post_contract_evidence insert_row check_row
  post_contract_evidence_of es last scanned = refl

module _ (checksum : Version → Digest) (es : List Entry) where
  -- On a database in the switch phase, 0005 with its failpoint set fails with
  -- the injected failure and leaves the database as it was.
  pub apply-failpoint :
      (last scanned : ℕ)
      → transaction
          (apply_migration checksum v0005 true)
          (deployed checksum switch last scanned true es)
        ≡ (
          err (runtime_error (injected_failure v0005)),
          deployed checksum switch last scanned true es,
        )
  unfolding apply_migration
  apply-failpoint last scanned =
      rw (count-breaks_final_checks es, ◌>>=◌, ◌>>◌, raise_unless, require) refl

  module _ (fuel : ℕ) (asc : IsAscending 0 es) (lt : unfilled es < fuel) where
    pub drained : Drained checksum false fuel 0 0 0 es
    drained =
        drain_lem checksum false fuel 0 0 0 es asc (IsCovered-below 0 0 es asc (omega arith)) lt

    -- The database of a later phase, with every row filled.
    abbrev pub later : Phase → Database
    later p = deployed checksum p drained.checkpoint (0 + unfilled es) true (map fill es)

    pub enter_backfill_lem :
        enter_backfill checksum fuel (deployed checksum compatibility 0 0 false es)
        ≡ (ok tt, later backfill)
    unfolding enter_backfill
    enter_backfill_lem =
        next-step (start_backfill checksum) _ (deployed checksum compatibility 0 0 false es)
          (start_backfill_lem checksum 0 0 es)
          (next-step (drain fuel 0) (λ _. finish_backfill_enable_v2)
            (deployed checksum backfill 0 0 false es) drained.outcome
            (enable_v2_lem checksum drained.checkpoint (0 + unfilled es) (map fill es)
              (IsFilled-fill es)))

    to_switch_lem :
        to_switch checksum fuel (deployed checksum compatibility 0 0 false es)
        ≡ (ok true, later switch)
    unfolding to_switch
    to_switch_lem =
        next-step (enter_backfill checksum fuel) _ (deployed checksum compatibility 0 0 false es)
          enter_backfill_lem
          (apply-switch checksum drained.checkpoint (0 + unfilled es) (map fill es)
            (IsFilled-fill es))

    exercise_lem :
        exercise_post_contract_rejections checksum fuel
          (deployed checksum compatibility 0 0 false es)
        ≡ (ok expected_states, later contract)
    unfolding exercise_post_contract_rejections
    exercise_lem =
        next-step (to_switch checksum fuel) _ (deployed checksum compatibility 0 0 false es)
          to_switch_lem
          (next-step (transaction (apply_migration checksum v0005 false)) _ (later switch)
            (apply-contract checksum drained.checkpoint (0 + unfilled es) (map fill es)
              (IsFilled-fill es))
            (next-step post_contract_evidence confirm (later contract)
              (post_contract_evidence_of checksum (map fill es) drained.checkpoint
                (0 + unfilled es))
              refl))

  -- On a database in the compatibility phase in key order with nothing filled past the checkpoint 0,
  -- and with more fuel than unfilled rows, the exercise goes through the backfill, the switch and the
  -- contract, sees the V1 write refused for its phase and the six probes refused with the SQLSTATEs
  -- that it expects, and leaves the contracted database with every row filled.
  pub exercise_post_contract_rejections_lem :
      (fuel : ℕ)
      → IsAscending 0 es
      → unfilled es < fuel
      → (checkpoint : ℕ) × (exercise_post_contract_rejections checksum fuel
            (deployed checksum compatibility 0 0 false es)
          ≡ (
            ok expected_states,
            deployed checksum contract checkpoint (unfilled es) true (map fill es),
          ))
  exercise_post_contract_rejections_lem fuel asc lt = (
    (drained fuel asc lt).checkpoint,
    exercise_lem fuel asc lt ∙ (rw (zero-add (unfilled es)) refl),
  )
