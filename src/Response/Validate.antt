-- ===== src/Response/Validate.antt =====
-- `_validate_engine_response`. A parsed object has each key once, as `json.dumps` prints it.
use postgres_migration_rehea.Adapter.{
  runtime_error, ◌>>=◌, ◌>>◌, require, get, is_text, is_exactly_number, keys_are, Fault, type_error,
  Attempt, done, fault,
}
use postgres_migration_rehea.Base.{
  ◌==◌, if◌then◌else◌, length, Bool, true, false, ◌&&◌, ◌||◌, Option, none, some, List, [], ◌∷◌,
  String,
}
use postgres_migration_rehea.Database.{Version}
use postgres_migration_rehea.Engine.{FixtureRow}
use postgres_migration_rehea.Final.{fullmatch_hex}
use postgres_migration_rehea.Fixtures.{Validated, rejected, validated, validate_rows}
use postgres_migration_rehea.Http.{Json, json_text}
use postgres_migration_rehea.Response.Checks.{
  bounded_text, is_text_list, destination_ok, stages_ok, checks_ok, warnings_ok, plan_ok,
  backfill_ok, rollback_ok, integrity_ok, hashes_ok,
}
use postgres_migration_rehea.Response.Document.{rows_json, is_empty, interfaces, run_id_of}

abbrev mismatch : Fault
mismatch = runtime_error "engine response contract mismatch"

abbrev pub required : List String
required =
    "schema_version" ∷ "run_id" ∷ "scenario_id" ∷ "mode" ∷ "verdict" ∷ "verdict_label" ∷ "summary"
    ∷ "source_rows" ∷ "destination_rows" ∷ "stages" ∷ "checks" ∷ "warnings" ∷ "rollback_plan"
    ∷ "evidence" ∷ "next_action" ∷ "cleanup_state" ∷ []

abbrev is_scenario : Json → Bool
is_scenario v = is_text "small-shop" v || is_text "empty-ledger" v

-- `re.fullmatch` on the run id, a TypeError where it is not a text.
abbrev check_run_id : Json → Attempt (Unit {0})
check_run_id (json_text s) = require (fullmatch_hex 64 s) mismatch
check_run_id _ = fault type_error

abbrev is_expected : Option String → Json → Bool
is_expected none v = true
is_expected (some s) v = is_text s v

abbrev pub check_header : Option String → Json → Attempt (Unit {0})
check_header expected_scenario_id v = do
  require
      (is_exactly_number 1 (get v "schema_version")
        && (is_scenario (get v "scenario_id")
            && (is_expected expected_scenario_id (get v "scenario_id")
                && (is_text "bounded_disposable_database_operation" (get v "mode")
                    && is_text "complete" (get v "cleanup_state")))))
      mismatch
  check_run_id (get v "run_id")
  require
      (bounded_text 120 (get v "verdict_label")
        && (bounded_text 1024 (get v "summary") && bounded_text 240 (get v "next_action")))
      mismatch

abbrev pub same_rows : List FixtureRow → List FixtureRow → Bool
same_rows [] [] = true
same_rows [] (r ∷ rs) = false
same_rows (q ∷ qs) [] = false
same_rows (q ∷ qs) (r ∷ rs) =
    (q.invoice_id == r.invoice_id && q.amount_cents == r.amount_cents) && same_rows qs rs

abbrev are_expected : Option (List FixtureRow) → List FixtureRow → Bool
are_expected none rows = true
are_expected (some expected) rows = same_rows rows expected

abbrev rows_or_mismatch : Validated → Attempt (List FixtureRow)
rows_or_mismatch (rejected field detail) = fault mismatch
rows_or_mismatch (validated rows) = done rows

-- `hashes` are those of `_migration_digests`; `dumps` and `sha256` as in the engine.
module _ (hashes : Version → String) (dumps : Json → String) (sha256 : String → String) where
  abbrev pub evidence_ok : List FixtureRow → Json → Json → Bool
  evidence_ok rows run_id v =
      keys_are
        ("interfaces" ∷ "postgresql_version" ∷ "migration_sha256" ∷ "fixture_sha256" ∷ "backfill"
          ∷ "rollback" ∷ "integrity" ∷ "operation_limit" ∷ [])
        v
      && ((is_text_list interfaces (get v "interfaces")
            && (is_text "18.6" (get v "postgresql_version")
                && (hashes_ok hashes (get v "migration_sha256")
                    && (is_text (sha256 (dumps (rows_json rows))) (get v "fixture_sha256")
                        && (is_text (run_id_of hashes dumps sha256 rows) run_id
                            && bounded_text 320 (get v "operation_limit"))))))
          && (backfill_ok (length rows) (get v "backfill")
              && (rollback_ok (get v "rollback")
                  && integrity_ok (length rows) (get v "integrity"))))

  abbrev pub check_body : List FixtureRow → Json → Attempt (Unit {0})
  check_body rows v = do
    require (destination_ok rows (get v "destination_rows")) mismatch
    require
        (is_text (if is_empty rows then "NO_ROWS_TO_MIGRATE" else "LOCAL_REHEARSAL_PASSED")
          (get v "verdict"))
        mismatch
    require (stages_ok (is_empty rows) (get v "stages")) mismatch
    require (checks_ok (get v "checks")) mismatch
    require (warnings_ok (get v "warnings")) mismatch
    require (plan_ok (get v "rollback_plan")) mismatch
    require (evidence_ok rows (get v "run_id") (get v "evidence")) mismatch

  unfoldable pub validate_engine_response :
      Option String → Option (List FixtureRow) → Json → Attempt Json
  unfolding validate_rows
  validate_engine_response expected_scenario_id expected_source_rows v = do
    require (keys_are required v) mismatch
    check_header expected_scenario_id v
    rows ← rows_or_mismatch (validate_rows (get v "source_rows"))
    require (are_expected expected_source_rows rows) mismatch
    check_body rows v
    done v
