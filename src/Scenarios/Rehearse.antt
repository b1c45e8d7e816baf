-- ===== src/Scenarios/Rehearse.antt =====
-- `run_rehearsal`: one scenario from its identifier to the response or the exception.
-- What the process and its surroundings answer: the two pidfd calls, the nonce, the fixture file, the
-- control directory, the lock, and the container runtime.
use postgres_migration_rehea.Adapter.{
  runtime_error, Answers, Run, Receipt, Loaded, ControlDir, cleanup_receipt, Metadata, Opened,
  Mkdir, open_control_directory, Lock, with_receipt_of, owned_compose_runtime, Fault, key_error,
  fixture_error, Attempt, done, fault, is_one_of,
}
use postgres_migration_rehea.Base.{
  if◌then◌else◌, ℤ, ℕ, Bool, true, not, Option, some, List, [], String, ◌<>◌,
}
use postgres_migration_rehea.Database.{Version}
use postgres_migration_rehea.Engine.{FixtureRow}
use postgres_migration_rehea.Final.{fullmatch_hex}
use postgres_migration_rehea.Fixtures.Runtime.{Address}
use postgres_migration_rehea.Http.{Json}
use postgres_migration_rehea.Response.{validate_engine_response}
use postgres_migration_rehea.Scenarios.Load.{scenario_ids, fixture_rows}

pub record Surroundings : Type 0 where
  pub has_pidfd : Bool
  pub nonce : String
  pub fixtures : Option Json
  pub root_opens : Bool
  pub makes : Mkdir
  pub control : Opened
  pub lock : Lock
  pub answers : Answers

module _ {Raw : Type 0} (dumps_receipt : Receipt → Raw) (loads_receipt : Raw → Loaded)
    (size : Raw → ℕ) (decimal : ℤ → String) (parse : String → Option Address) (bind_source : String)
    (hashes : Version → String) (dumps : Json → String) (sha256 : String → String) where
  -- `_cleanup_receipt` on a directory that it opens itself, then the exception.
  abbrev pub rejected_receipt : Surroundings → Fault → Attempt Metadata → ControlDir Raw → Run Raw
  rejected_receipt s e (fault f) d = record { result = fault f; events = []; directory = d }
  rejected_receipt s e (done m) d =
      with_receipt_of dumps_receipt loads_receipt size s.nonce s.answers
        (record {
          run_nonce = s.nonce;
          cleanup_state = "not_needed";
          reason = "validation_rejected";
          remaining = 0;
          child_exit = "not_started";
        })
        (fault e) [] d

  -- Only a `FixtureValidationError` is caught.
  abbrev pub not_loaded_run : Surroundings → Fault → ControlDir Raw → Run Raw
  not_loaded_run s (fixture_error field detail) d =
      rejected_receipt s (fixture_error field detail)
        (open_control_directory s.root_opens true s.makes s.control) d
  not_loaded_run s e d = record { result = fault e; events = []; directory = d }

  abbrev pub in_runtime :
      Surroundings → String → List FixtureRow → Attempt Metadata → ControlDir Raw → Run Raw
  in_runtime s scenario_id rows (fault e) d = record {
    result = fault e;
    events = [];
    directory = d;
  }
  in_runtime s scenario_id rows (done m) d =
      owned_compose_runtime dumps_receipt loads_receipt size s.nonce decimal parse bind_source
        ("pmr-control-room-" <> s.nonce)
        (validate_engine_response hashes dumps sha256 (some scenario_id) (some rows)) s.lock
        s.answers d

  abbrev pub with_rows :
      Surroundings → String → Attempt (List FixtureRow) → ControlDir Raw → Run Raw
  with_rows s scenario_id (fault e) d = not_loaded_run s e d
  with_rows s scenario_id (done rows) d =
      in_runtime s scenario_id rows (open_control_directory s.root_opens true s.makes s.control) d

  unfoldable pub run_rehearsal : Surroundings → String → ControlDir Raw → Run Raw
  unfolding fixture_rows open_control_directory cleanup_receipt owned_compose_runtime
      validate_engine_response
  run_rehearsal s scenario_id d =
      if not (is_one_of scenario_id scenario_ids)
      then record { result = fault (key_error scenario_id); events = []; directory = d }
      else if not s.has_pidfd
      then record {
        result = fault (runtime_error "Linux pidfd support is required");
        events = [];
        directory = d;
      }
      else if not (fullmatch_hex 16 s.nonce)
      then record {
        result = fault (runtime_error "invalid internal engine nonce");
        events = [];
        directory = d;
      }
      else with_rows s scenario_id (fixture_rows s.fixtures scenario_id) d
