-- ===== src/Tests/Migration.antt =====
-- The migration and its engine on small tables.
use postgres_migration_rehea.Base.{
  if◌then◌else◌, length, pos, negsuc, ℕ, ◌+◌, ◌≤◌, ◌≡◌, refl, true, false, some, List, [], ◌∷◌, map,
  arith,
}
use postgres_migration_rehea.Contract.{
  client_actor, v2_insert, apply_migration, expected_states, exercise_post_contract_rejections,
  rollback_reforward_and_0005, ledger_of, attempt_down, run_backfill_batch, drain,
}
use postgres_migration_rehea.Contract.Backward.{
  attempt_down-restores, attempt_down-contract, attempt_down-ledger,
}
use postgres_migration_rehea.Contract.Coexistence.{bump, in_range, client_actor-v1, client_actor-v2}
use postgres_migration_rehea.Contract.Drain.{drain-fills}
use postgres_migration_rehea.Contract.Evidence.{
  apply-failpoint, exercise_post_contract_rejections_lem,
}
use postgres_migration_rehea.Contract.Forward.{apply-switch, apply-contract}
use postgres_migration_rehea.Contract.Guards.{apply-applied, apply-mismatch, apply-unrun}
use postgres_migration_rehea.Contract.Idempotence.{batch_again}
use postgres_migration_rehea.Contract.Marks.{open_ids}
use postgres_migration_rehea.Contract.Refinement.{batch_lem}
use postgres_migration_rehea.Contract.Reforward.{rollback_reforward_and_0005_lem}
use postgres_migration_rehea.Contract.Rejections.{v2_insert-refused}
use postgres_migration_rehea.Contract.Spec.{
  row_of, final_row, schema_of, applied, control_of, deployed, fill, unfill, fill_first,
}
use postgres_migration_rehea.Database.{
  Phase, initial, expand, compatibility, backfill, switch, contract, v0001, v0002, v0004, v0005,
  eur, phase_transition, compatibility_insert, fire_update, check_violation, checksum_mismatch,
  unexpected_phase, injected_failure, down_forbidden_usd, down_ledger_rejected, psycopg_error,
  runtime_error, ok, err, Advisory, unlocked, shared, exclusive, transaction,
}
use postgres_migration_rehea.Database.Pairs.{
  is_paired, compatibility_insert-is_paired, fire_update-is_paired,
}
use postgres_migration_rehea.Database.Phases.{
  rank, is_allowed, phase_transition-exactly, update_phases, update_phases-forward,
}
use postgres_migration_rehea.Engine.{idle, run}
use postgres_migration_rehea.Engine.Rehearsal.{report, run_lem}
use postgres_migration_rehea.Tests.Samples.{
  digest, two_rows, two_rows-IsOrdered, half_filled, half_filled-IsAscending, half_filled-IsCovered,
  all_filled, client_rows, legacy_row, filled_row, usd_row, with_usd, without_ledger, tampered,
}

run_lem_example : run digest 3 two_rows 42 idle ≡ (ok (report digest 3 two_rows), idle)
run_lem_example = run_lem digest 3 two_rows two_rows-IsOrdered (omega arith) 42

attempt_down-restores_example :
    attempt_down digest (deployed digest backfill 1 1 false half_filled)
    ≡ (ok tt, deployed digest initial 0 0 false (map unfill half_filled))
attempt_down-restores_example = attempt_down-restores digest 1 1 false half_filled backfill refl

drain-fills_example :
    (checkpoint : ℕ) × (drain 2 0 (deployed digest backfill 1 1 false half_filled)
      ≡ (ok 1, deployed digest backfill checkpoint 2 false (map fill half_filled)))
drain-fills_example =
    drain-fills digest false 2 1 1 half_filled half_filled-IsAscending half_filled-IsCovered
      (omega arith)

batch_lem_example :
    run_backfill_batch false (deployed digest backfill 1 1 false half_filled)
    ≡ (ok 1, deployed digest backfill 2 2 false (map fill half_filled))
unfolding open_ids fill_first
batch_lem_example = batch_lem digest 1 1 false half_filled 0 half_filled-IsAscending

fire_update-is_paired_example : is_paired (filled_row 7) ≡ true
unfolding fire_update
fire_update-is_paired_example =
    fire_update-is_paired (legacy_row 7)
      (record (legacy_row 7) { amount_minor = some (pos 7); currency_code = some eur })
      (filled_row 7) refl refl

compatibility_insert-is_paired_example : is_paired (filled_row 7) ≡ true
unfolding compatibility_insert
compatibility_insert-is_paired_example =
    compatibility_insert-is_paired (legacy_row 7) (filled_row 7) refl

refused_after_contract :
    attempt_down digest with_usd ≡ (err (runtime_error down_forbidden_usd), with_usd)
refused_after_contract =
    attempt_down-contract digest 2 2 true (schema_of contract true)
      (ledger_of digest (applied contract)) (usd_row ∷ [])

short_ledger :
    attempt_down digest without_ledger ≡ (err (runtime_error down_ledger_rejected), without_ledger)
short_ledger =
    attempt_down-ledger digest 0 0 false (schema_of expand false) [] (map row_of half_filled) expand
      refl refl

applied_twice :
    transaction (apply_migration digest v0002 true) (deployed digest contract 2 2 true half_filled)
    ≡ (ok false, deployed digest contract 2 2 true half_filled)
applied_twice =
    apply-applied digest (control_of contract 2 2 true) (schema_of contract true)
      (ledger_of digest (applied contract)) (map final_row half_filled) v0002 true refl

applied_elsewhere :
    transaction (apply_migration digest v0001 false) tampered
    ≡ (err (runtime_error (checksum_mismatch v0001)), tampered)
applied_elsewhere =
    apply-mismatch digest (control_of initial 0 0 false) (schema_of initial false)
      ((v0001, 99) ∷ []) [] v0001 false 99 refl (λ e. absurd (omega (arith, e)))

apply-unrun_example :
    transaction (apply_migration digest v0005 false) (deployed digest backfill 2 2 true half_filled)
    ≡ (err (runtime_error (unexpected_phase v0005)), deployed digest backfill 2 2 true half_filled)
apply-unrun_example =
    apply-unrun digest (control_of backfill 2 2 true) (schema_of backfill true)
      (ledger_of digest (applied backfill)) (map row_of half_filled) v0005 false
      (err (runtime_error (unexpected_phase v0005))) refl

apply-switch_example :
    transaction (apply_migration digest v0004 false) (deployed digest backfill 2 2 true all_filled)
    ≡ (ok true, deployed digest switch 2 2 true all_filled)
apply-switch_example = apply-switch digest 2 2 all_filled (refl, (refl, tt))

apply-contract_example :
    transaction (apply_migration digest v0005 false) (deployed digest switch 2 2 true all_filled)
    ≡ (ok true, deployed digest contract 2 2 true all_filled)
apply-contract_example = apply-contract digest 2 2 all_filled (refl, (refl, tt))

batched_twice :
    run_backfill_batch false (deployed digest backfill 2 2 true all_filled)
    ≡ (ok 0, deployed digest backfill 2 2 true all_filled)
batched_twice =
    batch_again digest 2 2 true all_filled (omega arith, (omega arith, tt)) (refl, (refl, tt))

phase_transition-exactly_example : phase_transition exclusive switch initial ≡ (
    if is_allowed exclusive switch initial then ok initial else err (psycopg_error check_violation))
phase_transition-exactly_example = phase_transition-exactly exclusive switch initial

-- Two steps, a refused jump and a refused way back.
abbrev phase_updates : List (Advisory × Phase)
phase_updates =
    (shared, compatibility) ∷ (unlocked, contract) ∷ (shared, backfill) ∷ (shared, initial) ∷ []

update_phases-forward_example :
    (rank expand ≤ rank (update_phases phase_updates expand))
    × (rank (update_phases phase_updates expand) ≤ rank expand + length phase_updates)
update_phases-forward_example = update_phases-forward phase_updates expand refl

client_actor-v1_example :
    transaction (client_actor false) (deployed digest backfill 0 0 false client_rows)
    ≡ (ok 1, deployed digest backfill 0 0 false (map (bump (in_range 4001 4008) 101) client_rows))
client_actor-v1_example =
    client_actor-v1 digest 0 0 false client_rows (omega arith, (omega arith, tt))

client_actor-v2_example :
    transaction (client_actor true) (deployed digest backfill 0 0 true client_rows)
    ≡ (ok 1, deployed digest backfill 0 0 true (map (bump (in_range 4017 4024) 202) client_rows))
client_actor-v2_example =
    client_actor-v2 digest 0 0 client_rows (omega arith, (omega arith, tt)) (refl, (refl, tt))

v2_insert-refused_example :
    transaction
      (v2_insert 900001 (some (negsuc 0)) (some eur))
      (deployed digest contract 2 2 true all_filled)
    ≡ (err (psycopg_error check_violation), deployed digest contract 2 2 true all_filled)
v2_insert-refused_example =
    v2_insert-refused digest 2 2 all_filled 900001 (some (negsuc 0)) (some eur) refl

exercise_post_contract_rejections_lem_example :
    (checkpoint : ℕ) × (exercise_post_contract_rejections digest 2
        (deployed digest compatibility 0 0 false half_filled)
      ≡ (ok expected_states, deployed digest contract checkpoint 1 true (map fill half_filled)))
exercise_post_contract_rejections_lem_example =
    exercise_post_contract_rejections_lem digest half_filled 2 half_filled-IsAscending (omega arith)

failed_before_commit :
    transaction (apply_migration digest v0005 true) (deployed digest switch 2 2 true all_filled)
    ≡ (err (runtime_error (injected_failure v0005)), deployed digest switch 2 2 true all_filled)
failed_before_commit = apply-failpoint digest all_filled 2 2

rollback_reforward_and_0005_lem_example :
    (checkpoint : ℕ) × (rollback_reforward_and_0005 digest 3
        (deployed digest switch 2 2 true all_filled)
      ≡ (ok true, deployed digest contract checkpoint 2 true (map fill all_filled)))
rollback_reforward_and_0005_lem_example =
    rollback_reforward_and_0005_lem digest all_filled 3 2 2 true (omega arith, (omega arith, tt))
      (omega arith)
