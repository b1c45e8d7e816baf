-- ===== src/Contract/Exercises.antt =====
-- `exercise_post_contract_rejections` and its probes.
-- `except psycopg.Error`: the SQLSTATE of a transaction that has to fail.
use postgres_migration_rehea.Base.{
  if◌then◌else◌, ℤ, pos, negsuc, ℕ, Bool, true, false, ◌&&◌, Option, none, some, List, [], ◌∷◌,
}
use postgres_migration_rehea.Contract.Apply.{apply_migration, bootstrap}
use postgres_migration_rehea.Contract.Backfill.{enter_backfill}
use postgres_migration_rehea.Contract.Clients.{attempt_v1_write, v2_insert, legacy_probe}
use postgres_migration_rehea.Contract.Down.{attempt_down}
use postgres_migration_rehea.Database.{
  Version, v0003, v0004, v0005, Currency, eur, other, Digest, Database, SqlState, undefined_column,
  not_null_violation, check_violation, Reason, injected_failure, client_phase_rejected,
  legacy_column_exists, v1_write_passed, invalid_insert_succeeded, post_contract_mismatch,
  psycopg_error, runtime_error, Result, ok, err, Role, owner, migrator, transaction, Program, next,
  succeed, fail,
}

abbrev sqlstate_from : {A : Type 0} → Reason → Result A × Database → Result SqlState × Database
sqlstate_from unexpected (ok _, d) = (err (runtime_error unexpected), d)
sqlstate_from unexpected (err (psycopg_error state), d) = (ok state, d)
sqlstate_from unexpected (err (runtime_error e), d) = (err (runtime_error e), d)

-- `_legacy_column_sqlstate`
unfoldable legacy_column_sqlstate : Role → Program SqlState
unfolding legacy_probe
legacy_column_sqlstate r d = sqlstate_from legacy_column_exists (transaction (legacy_probe r) d)

-- `_v2_insert_sqlstate`
unfoldable v2_insert_sqlstate : ℕ → Option ℤ → Option Currency → Program SqlState
unfolding v2_insert
v2_insert_sqlstate i m k d =
    sqlstate_from invalid_insert_succeeded (transaction (v2_insert i m k) d)

-- The V1 write has to be refused for its phase.
abbrev refused_v1 : Result (Unit {0}) × Database → Result (Unit {0}) × Database
refused_v1 (ok _, d) = (err (runtime_error v1_write_passed), d)
refused_v1 (err (runtime_error client_phase_rejected), d) = (ok tt, d)
refused_v1 (err e, d) = (err e, d)

abbrev pub expected_states : List SqlState
expected_states =
    undefined_column ∷ undefined_column ∷ not_null_violation ∷ not_null_violation ∷ check_violation
    ∷ check_violation ∷ []

-- A currency that is neither EUR nor USD stands for 'GBP'.
abbrev gbp : Currency
gbp = other 0

-- What follows 0005: the refused write and the six probes.
unfoldable pub post_contract_evidence : Program (List SqlState)
unfolding attempt_v1_write legacy_column_sqlstate v2_insert_sqlstate
post_contract_evidence =
    next (λ d. refused_v1 (attempt_v1_write d))
      λ _. next (legacy_column_sqlstate owner) λ legacy_owner.
        next (legacy_column_sqlstate migrator) λ legacy_migrator.
          next (v2_insert_sqlstate 910001 none (some eur)) λ null_amount.
            next (v2_insert_sqlstate 910002 (some (pos 1)) none) λ null_currency.
              next (v2_insert_sqlstate 910003 (some (negsuc 0)) (some eur)) λ negative.
                next (v2_insert_sqlstate 910004 (some (pos 1)) (some gbp)) λ wrong_currency.
                  succeed (
                    legacy_owner ∷ legacy_migrator ∷ null_amount ∷ null_currency ∷ negative
                    ∷ wrong_currency ∷ [])

abbrev same_state : SqlState → SqlState → Bool
same_state undefined_column undefined_column = true
same_state not_null_violation not_null_violation = true
same_state check_violation check_violation = true
same_state _ _ = false

abbrev same_states : List SqlState → List SqlState → Bool
same_states [] [] = true
same_states (s ∷ ss) (t ∷ ts) = same_state s t && same_states ss ts
same_states _ _ = false

abbrev pub confirm : List SqlState → Program (List SqlState)
confirm evidence =
    if same_states evidence expected_states then succeed evidence else fail post_contract_mismatch

module _ (checksum : Version → Digest) where
  -- `_to_switch`
  unfoldable pub to_switch : ℕ → Program Bool
  unfolding enter_backfill apply_migration
  to_switch fuel =
      next (enter_backfill checksum fuel) λ _. transaction (apply_migration checksum v0004 false)

  unfoldable pub exercise_post_contract_rejections : ℕ → Program (List SqlState)
  unfolding to_switch apply_migration post_contract_evidence
  exercise_post_contract_rejections fuel = next (to_switch fuel) λ _.
      next (transaction (apply_migration checksum v0005 false))
        λ _. next post_contract_evidence confirm

  -- `except RuntimeError` around 0005 with its failpoint: only the injected failure is let by.
  abbrev pub injected : Result Bool × Database → Result (Unit {0}) × Database
  injected (err (runtime_error (injected_failure v0005)), d) = (ok tt, d)
  injected (ok _, d) = (ok tt, d)
  injected (err e, d) = (err e, d)

  -- `exercise_rollback_reforward_and_0005`, after `_workload_to_switch`.
  unfoldable pub rollback_reforward_and_0005 : ℕ → Program Bool
  unfolding attempt_down bootstrap enter_backfill apply_migration
  rollback_reforward_and_0005 fuel = next (attempt_down checksum) λ _.
      next (bootstrap checksum v0003) λ _. next (enter_backfill checksum fuel) λ _.
        next (transaction (apply_migration checksum v0004 false)) λ _.
          next (λ d. injected (transaction (apply_migration checksum v0005 true) d))
            λ _. transaction (apply_migration checksum v0005 false)
