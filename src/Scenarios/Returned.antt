-- ===== src/Scenarios/Returned.antt =====
-- What `run_rehearsal` returns.
use mathlib.Core.Path.{subst}
use postgres_migration_rehea.Adapter.{
  runtime_error, Run, preflight_rejected, Receipt, Loaded, ControlDir, cleanup_receipt, Metadata,
  open_control_directory, owned_compose_runtime, Fault, runtime_identity_error, relay_error,
  engine_busy, key_error, fixture_error, command_timeout, os_error, file_not_found, type_error,
  Attempt, done, fault, is_one_of,
}
use postgres_migration_rehea.Adapter.Settled.{owned_compose_runtime-IsSettled}
use postgres_migration_rehea.Adapter.SettledCleanup.{IsSettled, written-fault}
use postgres_migration_rehea.Base.{
  if-cases, ℤ, same_text, ℕ, ◌≡◌, refl, true, false, not, Option, some, List, [], String, ◌<>◌,
}
use postgres_migration_rehea.Database.{Version}
use postgres_migration_rehea.Engine.{FixtureRow}
use postgres_migration_rehea.Final.{fullmatch_hex}
use postgres_migration_rehea.Fixtures.Runtime.{Address}
use postgres_migration_rehea.Http.{Json}
use postgres_migration_rehea.Response.{validate_engine_response}
use postgres_migration_rehea.Scenarios.Load.{scenario_ids, pinned_rows, fixture_rows}
use postgres_migration_rehea.Scenarios.Pinned.{fixture_rows-pinned}
use postgres_migration_rehea.Scenarios.Rehearse.{
  Surroundings, rejected_receipt, not_loaded_run, in_runtime, with_rows, run_rehearsal,
}

module _ {Raw : Type 0} (dumps_receipt : Receipt → Raw) (loads_receipt : Raw → Loaded)
    (size : Raw → ℕ) (decimal : ℤ → String) (parse : String → Option Address) (bind_source : String)
    (hashes : Version → String) (dumps : Json → String) (sha256 : String → String)
    (s : Surroundings) (id : String) (d : ControlDir Raw) where
  -- A document of the child validated against these rows, and the receipt of the success.
  abbrev pub IsReturned : List FixtureRow → Attempt Json → ControlDir Raw → Type 0
  IsReturned rows =
      IsSettled dumps_receipt loads_receipt size s.nonce
        (validate_engine_response hashes dumps sha256 (some id) (some rows))

  abbrev pub IsReturnedRun : List FixtureRow → Run Raw → Type 0
  IsReturnedRun rows r = IsReturned rows r.result r.directory

  in_runtime-IsReturned :
      (rows : List FixtureRow) (o : Attempt Metadata)
      → IsReturnedRun rows (
          in_runtime dumps_receipt loads_receipt size decimal parse bind_source hashes dumps sha256
            s id rows o d)
  unfolding validate_engine_response owned_compose_runtime
  in_runtime-IsReturned rows (fault e) = tt
  in_runtime-IsReturned rows (done m) =
      owned_compose_runtime-IsSettled dumps_receipt loads_receipt size s.nonce
        (validate_engine_response hashes dumps sha256 (some id) (some rows)) decimal parse
        bind_source ("pmr-control-room-" <> s.nonce) s.answers d s.lock

  rejected-IsReturned :
      (rows : List FixtureRow) (e : Fault) (o : Attempt Metadata)
      → IsReturnedRun rows (
          rejected_receipt dumps_receipt loads_receipt size decimal parse bind_source hashes dumps
            sha256 s e o d)
  unfolding cleanup_receipt
  rejected-IsReturned rows e (fault f) = tt
  rejected-IsReturned rows e (done m) =
      written-fault dumps_receipt loads_receipt size s.nonce
        (validate_engine_response hashes dumps sha256 (some id) (some rows)) s.answers
        (preflight_rejected e []) d _ e _

  not_loaded-IsReturned :
      (rows : List FixtureRow) (e : Fault)
      → IsReturnedRun rows (
          not_loaded_run dumps_receipt loads_receipt size decimal parse bind_source hashes dumps
            sha256 s e d)
  unfolding open_control_directory
  not_loaded-IsReturned rows (fixture_error field detail) =
      rejected-IsReturned rows (fixture_error field detail)
        (open_control_directory s.root_opens true s.makes s.control)
  not_loaded-IsReturned rows (runtime_error m) = tt
  not_loaded-IsReturned rows (runtime_identity_error m) = tt
  not_loaded-IsReturned rows (relay_error m) = tt
  not_loaded-IsReturned rows (engine_busy m) = tt
  not_loaded-IsReturned rows (key_error m) = tt
  not_loaded-IsReturned rows command_timeout = tt
  not_loaded-IsReturned rows os_error = tt
  not_loaded-IsReturned rows file_not_found = tt
  not_loaded-IsReturned rows type_error = tt

  with_rows-IsReturned :
      (o : Attempt (List FixtureRow))
      → ((rows : List FixtureRow) → o ≡ done rows → rows ≡ pinned_rows id)
      → IsReturnedRun (pinned_rows id) (
          with_rows dumps_receipt loads_receipt size decimal parse bind_source hashes dumps sha256 s
            id o d)
  unfolding open_control_directory
  with_rows-IsReturned (fault e) h = not_loaded-IsReturned (pinned_rows id) e
  with_rows-IsReturned (done rows) h =
      subst
        (λ pinned. IsReturnedRun pinned (
          in_runtime dumps_receipt loads_receipt size decimal parse bind_source hashes dumps sha256
            s id rows (open_control_directory s.root_opens true s.makes s.control) d))
        (h rows refl)
        (in_runtime-IsReturned rows (open_control_directory s.root_opens true s.makes s.control))

  -- Whatever the fixture file, the child and the container runtime answer, a rehearsal of a scenario
  -- other than the rejected one returns only a document that passed the validation against the pinned
  -- rows of that scenario, and then the receipt of its success stands in the control directory.
  pub run_rehearsal-IsReturned :
      same_text id "invalid-negative-amount" ≡ false
      → IsReturnedRun (pinned_rows id) (
          run_rehearsal dumps_receipt loads_receipt size decimal parse bind_source hashes dumps
            sha256 s id d)
  unfolding run_rehearsal
  run_rehearsal-IsReturned valid =
      if-cases (IsReturnedRun (pinned_rows id)) (not (is_one_of id scenario_ids)) _ _ tt (
        if-cases (IsReturnedRun (pinned_rows id)) (not s.has_pidfd) _ _ tt (
          if-cases (IsReturnedRun (pinned_rows id)) (not (fullmatch_hex 16 s.nonce)) _ _ tt (
            with_rows-IsReturned (fixture_rows s.fixtures id)
              (λ rows h. fixture_rows-pinned s.fixtures id rows valid h))))
