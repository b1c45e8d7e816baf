-- ===== src/Contract/Reforward.antt =====
-- `exercise_rollback_reforward_and_0005` on a database in the switch phase.
use native.Mathlib.Nat.{zero-add}
use postgres_migration_rehea.Base.{
  ==_refl, length, ℕ, ◌<◌, ◌≡◌, refl, ◌∙◌, Bool, true, false, List, [], ◌∷◌, map, arith,
}
use postgres_migration_rehea.Contract.Apply.{apply_migration, bootstrap}
use postgres_migration_rehea.Contract.Backfill.{enter_backfill}
use postgres_migration_rehea.Contract.Backward.{attempt_down-restores}
use postgres_migration_rehea.Contract.Down.{attempt_down}
use postgres_migration_rehea.Contract.Evidence.{apply-failpoint, drained, later, enter_backfill_lem}
use postgres_migration_rehea.Contract.Exercises.{injected, rollback_reforward_and_0005}
use postgres_migration_rehea.Contract.Forward.{apply-switch, apply-contract}
use postgres_migration_rehea.Contract.Idempotence.{IsAscending-unfill}
use postgres_migration_rehea.Contract.Rows.{IsFilled-fill}
use postgres_migration_rehea.Contract.Spec.{Entry, deployed, IsAscending, fill, unfill, unfilled}
use postgres_migration_rehea.Database.{
  Phase, initial, compatibility, backfill, switch, contract, Version, v0001, v0003, v0004, v0005,
  Digest, Database, ok, transaction, next-step,
}

module _ (checksum : Version → Digest) (es : List Entry) where
  bootstrap-restored :
      bootstrap checksum v0003 (deployed checksum initial 0 0 false es)
      ≡ (ok tt, deployed checksum compatibility 0 0 false es)
  unfolding bootstrap apply_migration
  bootstrap-restored = rw (==_refl (checksum v0001)) refl

  injected-contract :
      (last scanned : ℕ)
      → injected checksum (
          transaction
            (apply_migration checksum v0005 true)
            (deployed checksum switch last scanned true es))
        ≡ (ok tt, deployed checksum switch last scanned true es)
  injected-contract last scanned = rw (apply-failpoint checksum es last scanned) refl

refill : (es : List Entry) → map fill (map unfill es) ≡ map fill es
refill [] = refl
refill (e ∷ es) = rw (refill es) refl

unfilled-unfill : (es : List Entry) → unfilled (map unfill es) ≡ length es
unfilled-unfill [] = refl
unfilled-unfill (e ∷ es) = rw (unfilled-unfill es) refl

module _ (checksum : Version → Digest) (es : List Entry) (fuel last scanned : ℕ) (v2 : Bool)
    (asc : IsAscending 0 es) (lt : unfilled (map unfill es) < fuel) where
  abbrev rolled_back : List Entry
  rolled_back = map unfill es

  abbrev old : IsAscending 0 rolled_back
  old = IsAscending-unfill 0 es asc

  abbrev next_one : Phase → Database
  next_one = later checksum rolled_back fuel old lt

  reforward_lem :
      rollback_reforward_and_0005 checksum fuel (deployed checksum switch last scanned v2 es)
      ≡ (ok true, next_one contract)
  unfolding rollback_reforward_and_0005
  reforward_lem =
      next-step (attempt_down checksum) _ (deployed checksum switch last scanned v2 es)
        (attempt_down-restores checksum last scanned v2 es switch refl)
        (next-step (bootstrap checksum v0003) _ (deployed checksum initial 0 0 false rolled_back)
          (bootstrap-restored checksum rolled_back)
          (next-step (enter_backfill checksum fuel) _
            (deployed checksum compatibility 0 0 false rolled_back)
            (enter_backfill_lem checksum rolled_back fuel old lt)
            (next-step (transaction (apply_migration checksum v0004 false)) _ (next_one backfill)
              (apply-switch checksum _ _ (map fill rolled_back) (IsFilled-fill rolled_back))
              (next-step
                (λ d. injected checksum (transaction (apply_migration checksum v0005 true) d)) _
                (next_one switch) (injected-contract checksum (map fill rolled_back) _ _)
                (apply-contract checksum _ _ (map fill rolled_back) (IsFilled-fill rolled_back))))))

-- On a database in the switch phase in key order, with more fuel than rows: the way down, the whole
-- way forward again, 0005 with its failpoint and 0005 itself all succeed, and leave the contracted
-- database with every row filled, the amounts of the start and every row counted once more.
pub rollback_reforward_and_0005_lem :
    (checksum : Version → Digest) (es : List Entry) (fuel last scanned : ℕ) (v2 : Bool)
    → IsAscending 0 es
    → length es < fuel
    → (checkpoint : ℕ) × (rollback_reforward_and_0005 checksum fuel
          (deployed checksum switch last scanned v2 es)
        ≡ (ok true, deployed checksum contract checkpoint (length es) true (map fill es)))
rollback_reforward_and_0005_lem checksum es fuel last scanned v2 asc lt =
    let enough : unfilled (map unfill es) < fuel = omega (arith, unfilled-unfill es) in
    (
      (drained checksum (map unfill es) fuel (IsAscending-unfill 0 es asc) enough).checkpoint,
      reforward_lem checksum es fuel last scanned v2 asc enough
          ∙ (rw (zero-add (unfilled (map unfill es)), unfilled-unfill es, refill es) refl),
    )
