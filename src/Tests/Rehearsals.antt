-- ===== src/Tests/Rehearsals.antt =====
-- Rehearsals with the frozen container runtime, and the receipts that they leave.
use postgres_migration_rehea.Adapter.{
  runtime_error, listed, composed_up, composed_down, inspected, relay_started, relay_closed,
  ran_child, receipted, Command, exited, ran_out, resource_ids, verify_local_runtime, Receipt,
  loaded_receipt, write_fails, Io, io_fine, private_file, success_receipt, undelivered,
  cleanup_receipt, record_delivery_failure, opened, made, open_control_directory, started_runtime,
  fixture_error, Attempt, done, fault, run_child,
}
use postgres_migration_rehea.Adapter.Completes.{IsServing}
use postgres_migration_rehea.Adapter.Owned.{IsOwnedTarget, started_runtime-IsOwnedTarget}
use postgres_migration_rehea.Adapter.Recovery.{record_delivery_failure-recorded}
use postgres_migration_rehea.Adapter.Writes.{
  IsAtomic, cleanup_receipt-IsAtomic, IsMatched, record_delivery_failure-IsMatched,
}
use postgres_migration_rehea.Base.{
  length, pos, ◌≤◌, ◌≡◌, refl, inl, true, false, Option, none, some, [], ◌∷◌, arith,
}
use postgres_migration_rehea.Engine.Rehearsal.{report}
use postgres_migration_rehea.Final.{fullmatch_hex}
use postgres_migration_rehea.Fixtures.{validated, max_rows, validate_rows}
use postgres_migration_rehea.Fixtures.Bounds.{IsSound, validate_rows-IsSound}
use postgres_migration_rehea.Http.{Json, json_object, no_members, has_unique_keys}
use postgres_migration_rehea.Response.{validate_engine_response, rows_json, response}
use postgres_migration_rehea.Response.Accepted.{validate_engine_response-printed}
use postgres_migration_rehea.Response.Rendered.{validate_rows-exactly}
use postgres_migration_rehea.Scenarios.{
  run_rehearsal, small_shop_rows, fixture_rows, scenario_summaries,
}
use postgres_migration_rehea.Scenarios.Returned.{IsReturnedRun, run_rehearsal-IsReturned}
use postgres_migration_rehea.Scenarios.Served.{child_output, run_rehearsal-served}
use postgres_migration_rehea.Tests.Frozen.{
  nonce_text, project_text, hex_a, hex_b, sixteen, private_address, roles_path, hash_of, compact,
  sha256_of, sha256_of-hexadecimal, owned_listing, owned_set, inspection_pair, answering,
  fixtures_json, surroundings, lock_metadata, new_directory,
}
use postgres_migration_rehea.Tests.Sizes.{receipt_size, receipt_size-small}

pinned_fixture : fixture_rows (some fixtures_json) "small-shop" ≡ done small_shop_rows
unfolding fixture_rows has_unique_keys
pinned_fixture = refl

rejected_fixture :
    fixture_rows (some fixtures_json) "invalid-negative-amount"
    ≡ fault (fixture_error "amount_cents" "Amount must be a positive whole number of cents.")
unfolding fixture_rows has_unique_keys
rejected_fixture = refl

summarised :
    scenario_summaries none ≡ fault (runtime_error "tracked control-room asset is unavailable")
unfolding scenario_summaries
summarised = refl

started : resource_ids owned_listing ≡ done owned_set
unfolding resource_ids
started = refl

record_delivery_failure-recorded_example :
    record_delivery_failure
      (λ (r : Receipt). r)
      loaded_receipt
      receipt_size
      io_fine
      nonce_text
      "client_disconnected"
      (cleanup_receipt
        (λ (r : Receipt). r)
        loaded_receipt
        receipt_size
        io_fine
        (success_receipt nonce_text)
        new_directory).1
    ≡ (
      done tt,
      record new_directory {
        receipt = some (private_file (undelivered nonce_text "client_disconnected"));
      },
    )
unfolding fullmatch_hex
record_delivery_failure-recorded_example =
    record_delivery_failure-recorded (λ r. r) loaded_receipt receipt_size (λ r valid. refl)
      (λ r valid. omega arith) receipt_size-small nonce_text "client_disconnected" lock_metadata
      none refl (inl refl) refl refl

-- The write of the file fails, and so does the removal of its path.
abbrev disk_fails : Io
disk_fails = record { creates = true; writes = write_fails; closes = true; unlinks = false }

cleanup_receipt-IsAtomic_example :
    IsAtomic
      (λ (r : Receipt). r)
      loaded_receipt
      receipt_size
      false
      (success_receipt nonce_text)
      new_directory
      (cleanup_receipt
        (λ (r : Receipt). r)
        loaded_receipt
        receipt_size
        disk_fails
        (success_receipt nonce_text)
        new_directory)
cleanup_receipt-IsAtomic_example =
    cleanup_receipt-IsAtomic (λ r. r) loaded_receipt receipt_size disk_fails
      (success_receipt nonce_text) new_directory

record_delivery_failure-IsMatched_example :
    IsMatched
      (λ (r : Receipt). r)
      loaded_receipt
      receipt_size
      nonce_text
      "response_write_failed"
      new_directory
      (record_delivery_failure
        (λ (r : Receipt). r)
        loaded_receipt
        receipt_size
        io_fine
        nonce_text
        "response_write_failed"
        new_directory)
record_delivery_failure-IsMatched_example =
    record_delivery_failure-IsMatched (λ r. r) loaded_receipt receipt_size io_fine nonce_text
      "response_write_failed" new_directory

started_runtime-IsOwnedTarget_example : IsOwnedTarget private_address owned_set (
    started_runtime sixteen roles_path project_text private_address owned_set inspection_pair.0
      inspection_pair.1)
started_runtime-IsOwnedTarget_example =
    started_runtime-IsOwnedTarget sixteen roles_path project_text private_address owned_set
      inspection_pair.0 inspection_pair.1

abbrev printed_output : Command (Option Json)
printed_output =
    child_output (λ (r : Receipt). r) loaded_receipt receipt_size sixteen private_address roles_path
      hash_of compact sha256_of sha256_of-hexadecimal (λ v. 7) 7 42 "small-shop" (inl refl)
      (omega arith)

abbrev checks_response : Json → Attempt Json
checks_response =
    validate_engine_response hash_of compact sha256_of (some "small-shop") (some small_shop_rows)

unfoldable answering_serves :
    IsServing
      (λ (r : Receipt). r)
      loaded_receipt
      receipt_size
      nonce_text
      sixteen
      private_address
      roles_path
      project_text
      checks_response
      (answering printed_output)
unfolding verify_local_runtime resource_ids started_runtime fullmatch_hex
answering_serves = record {
  verified = refl;
  is_new = refl;
  is_up = refl;
  first = record { kind = "network"; id = hex_b };
  others = record { kind = "container"; id = hex_a } ∷ [];
  starts = refl;
  seen = _;
  passes = refl;
  relays = refl;
  is_healthy = refl;
  still = owned_set;
  lists = refl;
  is_same = refl;
  is_down = refl;
  leaves_none = refl;
  writes = refl;
}

run_rehearsal-served_example :
    run_rehearsal
      (λ (r : Receipt). r)
      loaded_receipt
      receipt_size
      sixteen
      private_address
      roles_path
      hash_of
      compact
      sha256_of
      (surroundings printed_output)
      "small-shop"
      new_directory
    ≡ record {
      result = done (
          response hash_of compact sha256_of "small-shop" small_shop_rows
            (report (λ v. 7) 7 small_shop_rows)
            true);
      events =
          listed []
          ∷ composed_up
          ∷ listed owned_set
          ∷ inspected
          ∷ relay_started
          ∷ ran_child
          ∷ relay_closed
          ∷ listed owned_set
          ∷ composed_down
          ∷ listed []
          ∷ receipted (success_receipt nonce_text)
          ∷ [];
      directory = record new_directory {
        receipt = some (private_file (success_receipt nonce_text));
      };
    }
unfolding fixture_rows has_unique_keys open_control_directory fullmatch_hex response
    answering_serves
run_rehearsal-served_example =
    run_rehearsal-served (λ r. r) loaded_receipt receipt_size sixteen private_address roles_path
      hash_of compact sha256_of sha256_of-hexadecimal (λ v. 7) 7 42 "small-shop" (inl refl)
      (omega arith) (surroundings printed_output) made none (opened lock_metadata) refl refl refl
      refl refl refl refl refl refl answering_serves

run_rehearsal-IsReturned_example :
    IsReturnedRun
      (λ (r : Receipt). r)
      loaded_receipt
      receipt_size
      sixteen
      private_address
      roles_path
      hash_of
      compact
      sha256_of
      (surroundings printed_output)
      "small-shop"
      new_directory
      small_shop_rows
      (run_rehearsal
        (λ (r : Receipt). r)
        loaded_receipt
        receipt_size
        sixteen
        private_address
        roles_path
        hash_of
        compact
        sha256_of
        (surroundings printed_output)
        "small-shop"
        new_directory)
run_rehearsal-IsReturned_example =
    run_rehearsal-IsReturned (λ r. r) loaded_receipt receipt_size sixteen private_address roles_path
      hash_of compact sha256_of (surroundings printed_output) "small-shop" new_directory refl

validate_rows-exactly_example :
    (validate_rows (rows_json small_shop_rows) ≡ validated small_shop_rows
      → IsSound [] small_shop_rows × (length small_shop_rows ≤ max_rows))
    × (IsSound [] small_shop_rows × (length small_shop_rows ≤ max_rows)
        → validate_rows (rows_json small_shop_rows) ≡ validated small_shop_rows)
validate_rows-exactly_example = validate_rows-exactly small_shop_rows

IsSound-small_rows : IsSound [] small_shop_rows
unfolding validate_rows
IsSound-small_rows = validate_rows-IsSound (rows_json small_shop_rows) small_shop_rows refl

validate_engine_response-printed_example :
    validate_engine_response hash_of compact sha256_of (some "small-shop") (some small_shop_rows) (
      response hash_of compact sha256_of "small-shop" small_shop_rows
        (report (λ v. 7) 7 small_shop_rows)
        true)
    ≡ done (
        response hash_of compact sha256_of "small-shop" small_shop_rows
          (report (λ v. 7) 7 small_shop_rows)
          true)
validate_engine_response-printed_example =
    validate_engine_response-printed hash_of compact sha256_of sha256_of-hexadecimal (λ v. 7) 7
      small_shop_rows IsSound-small_rows (omega arith) "small-shop" (inl refl)

-- A response that is rejected: the process has run, and its exit is still the initial one.
rejected_response :
    run_child
      (λ v. fault (runtime_error "rejected"))
      (answering (exited (pos 0) (some (json_object no_members)))).process
    ≡ record { exit = "not_started"; outcome = fault (runtime_error "rejected") }
unfolding run_child
rejected_response = refl

-- A process that runs out of time and does not heed SIGTERM: the timeout is forgotten.
stubborn_process :
    run_child
      (λ v. done v)
      (record {
        spawns = true;
        has_pidfd = true;
        communicated = ran_out;
        still_runs = true;
        heeds_sigterm = false;
        heeds_sigkill = true;
      })
    ≡ record { exit = "signal"; outcome = fault (runtime_error "bounded local engine timed out") }
unfolding run_child
stubborn_process = refl
