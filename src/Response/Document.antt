-- ===== src/Response/Document.antt =====
-- `_response`: the document that the engine prints.
use postgres_migration_rehea.Adapter.{Command, exited}
use postgres_migration_rehea.Base.{
  if◌then◌else◌, length, ℤ, pos, ℕ, Bool, true, false, Option, none, some, List, [], ◌∷◌, map,
  String, ◌<>◌,
}
use postgres_migration_rehea.Database.{
  Version, v0001, v0002, v0003, v0004, v0005, Currency, eur, Result, ok, err,
}
use postgres_migration_rehea.Engine.{Final, FixtureRow, Destination, Observation}
use postgres_migration_rehea.Http.{
  Json, json_null, json_bool, json_number, json_text, json_array, json_object, Items, no_items,
  item, Members, no_members, member,
}

abbrev pub pairs : List (String × Json) → Members
pairs [] = no_members
pairs ((k, v) ∷ kvs) = member k v (pairs kvs)

-- A dictionary and a list, as `json.dumps` prints them.
abbrev pub object_of : List (String × Json) → Json
object_of kvs = json_object (pairs kvs)

abbrev pub items_of : List Json → Items
items_of [] = no_items
items_of (v ∷ vs) = item v (items_of vs)

abbrev pub list_of : List Json → Json
list_of vs = json_array (items_of vs)

abbrev pub number : ℕ → Json
number n = json_number (pos n)

abbrev pub row_json : FixtureRow → Json
row_json r =
    object_of (("invoice_id", number r.invoice_id) ∷ ("amount_cents", number r.amount_cents) ∷ [])

abbrev pub rows_json : List FixtureRow → Json
rows_json rows = list_of (map row_json rows)

abbrev currency_text : Option Currency → String
currency_text (some eur) = "EUR"
currency_text _ = ""

-- `int(row[1])` of a NULL raises; the final check keeps such a row from being printed.
abbrev amount_json : Option ℤ → Json
amount_json (some n) = json_number n
amount_json none = json_null

abbrev pub destination_json : Destination → Json
destination_json r = object_of (
    ("invoice_id", number r.invoice_id)
    ∷ ("amount_minor", amount_json r.amount_minor)
    ∷ ("currency_code", json_text (currency_text r.currency_code))
    ∷ [])

-- `not rows`
abbrev pub is_empty : {A : Type 0} → List A → Bool
is_empty [] = true
is_empty (x ∷ xs) = false

abbrev pub stage_json : String → String → String → String → Json
stage_json stage label status explanation = object_of (
    ("id", json_text stage)
    ∷ ("label", json_text label)
    ∷ ("status", json_text status)
    ∷ ("explanation", json_text explanation)
    ∷ ("evidence_ids", list_of (json_text stage ∷ []))
    ∷ [])

abbrev complete_stage : String → String → Json
complete_stage stage label = stage_json stage label "complete" "Observed locally."

abbrev backfill_stage : Bool → Json
backfill_stage true =
    stage_json "backfill" "Backfill" "not_needed" "No existing values needed copying."
backfill_stage false = complete_stage "backfill" "Backfill"

abbrev pub stages_json : Bool → Json
stages_json empty = list_of (
    complete_stage "baseline" "Baseline"
    ∷ complete_stage "expand" "Expand"
    ∷ backfill_stage empty
    ∷ complete_stage "switch" "Switch"
    ∷ complete_stage "contract" "Contract"
    ∷ [])

abbrev pub checks_json : Json
checks_json = list_of (
    object_of (
      ("id", json_text "destination_matches_source")
      ∷ ("label", json_text "Destination matches source")
      ∷ ("status", json_text "pass")
      ∷ ("detail", json_text "Observed in the disposable database.")
      ∷ ("evidence_id", json_text "integrity")
      ∷ [])
    ∷ [])

abbrev pub warnings_json : Json
warnings_json = list_of (
    object_of (
      ("id", json_text "bounded_scope")
      ∷ ("label", json_text "Bounded scope")
      ∷ (
        "detail",
        json_text
            "This six-row rehearsal does not exercise the full-volume or concurrent-client paths.",
      )
      ∷ [])
    ∷ [])

abbrev step_json : ℕ → String → Bool → Json
step_json order label observed = object_of (
    ("order", number order)
    ∷ ("label", json_text label)
    ∷ ("observed", json_bool observed)
    ∷ ("evidence_id", json_text "rollback")
    ∷ [])

abbrev pub plan_json : Bool → Bool → Json
plan_json restored final_phase = list_of (
    step_json 1 "Return to the baseline shape" restored
    ∷ step_json 2 "Roll forward through the contract" final_phase
    ∷ [])

abbrev pub backfill_json : ℕ × ℕ → ℕ × ℕ → Json
backfill_json first second = object_of (
    ("initial_first_pass_rows", number first.0)
    ∷ ("initial_idempotent_pass_rows", number first.1)
    ∷ ("cycles", number 2)
    ∷ ("roll_forward_first_pass_rows", number second.0)
    ∷ ("roll_forward_idempotent_pass_rows", number second.1)
    ∷ [])

abbrev pub rollback_json : Bool → Bool → Json
rollback_json restored final_phase = object_of (
    ("down_phase", json_text "initial")
    ∷ ("legacy_rows_restored", json_bool restored)
    ∷ ("roll_forward_complete", json_bool final_phase)
    ∷ [])

-- `destination_matches_source` is True where `_observe_final` returns.
abbrev pub integrity_json : ℕ → Observation → Json
integrity_json row_count seen = object_of (
    ("final_phase", json_text (if seen.final_phase then "contract" else "unverified"))
    ∷ ("ledger_complete", json_bool seen.ledger_complete)
    ∷ ("row_count", number row_count)
    ∷ ("destination_matches_source", json_bool true)
    ∷ ("no_target_nulls", json_bool seen.no_target_nulls)
    ∷ ("legacy_column_absent", json_bool seen.legacy_column_absent)
    ∷ [])

abbrev pub interfaces : List String
interfaces =
    "contract._apply_migration" ∷ "contract._start_backfill" ∷ "contract._run_backfill_batch"
    ∷ "contract._finish_backfill_enable_v2" ∷ "contract.attempt_down" ∷ []

-- `hashes` gives the digest of each migration file, `dumps` the compact text of a document, and
-- `sha256` the digest of a text.
module _ (hashes : Version → String) (dumps : Json → String) (sha256 : String → String) where
  abbrev pub hashes_json : Json
  hashes_json = object_of (
      ("0001", json_text (hashes v0001))
      ∷ ("0002", json_text (hashes v0002))
      ∷ ("0003", json_text (hashes v0003))
      ∷ ("0004", json_text (hashes v0004))
      ∷ ("0005", json_text (hashes v0005))
      ∷ [])

  abbrev pub run_id_of : List FixtureRow → String
  run_id_of rows = sha256 (
      dumps (rows_json rows)
      <> (hashes v0001 <> (hashes v0002 <> (hashes v0003 <> (hashes v0004 <> hashes v0005)))))

  abbrev pub evidence_json : List FixtureRow → Final → Bool → Json
  evidence_json rows f restored = object_of (
      ("interfaces", list_of (map json_text interfaces))
      ∷ ("postgresql_version", json_text "18.6")
      ∷ ("migration_sha256", hashes_json)
      ∷ ("fixture_sha256", json_text (sha256 (dumps (rows_json rows))))
      ∷ ("backfill", backfill_json f.first_cycle f.second_cycle)
      ∷ ("rollback", rollback_json restored f.observed.final_phase)
      ∷ ("integrity", integrity_json (length f.destination) f.observed)
      ∷ ("operation_limit", json_text "No full-volume, concurrent-client, or failpoint exercise.")
      ∷ [])

  unfoldable pub response : String → List FixtureRow → Final → Bool → Json
  response scenario_id rows f restored = object_of (
      ("schema_version", number 1)
      ∷ ("run_id", json_text (run_id_of rows))
      ∷ ("scenario_id", json_text scenario_id)
      ∷ ("mode", json_text "bounded_disposable_database_operation")
      ∷ (
        "verdict",
        json_text (if is_empty rows then "NO_ROWS_TO_MIGRATE" else "LOCAL_REHEARSAL_PASSED"),
      )
      ∷ (
        "verdict_label",
        json_text (if is_empty rows then "No rows to migrate" else "Local rehearsal passed"),
      )
      ∷ ("summary", json_text "The disposable local database completed the bounded migration path.")
      ∷ ("source_rows", rows_json rows)
      ∷ ("destination_rows", list_of (map destination_json f.destination))
      ∷ ("stages", stages_json (is_empty rows))
      ∷ ("checks", checks_json)
      ∷ ("warnings", warnings_json)
      ∷ ("rollback_plan", plan_json restored f.observed.final_phase)
      ∷ ("evidence", evidence_json rows f restored)
      ∷ ("next_action", json_text "Review the local evidence and reset when ready.")
      ∷ ("cleanup_state", json_text "complete")
      ∷ [])

  -- `main`: the document on standard output, or the return code 1.
  unfoldable pub main : String → List FixtureRow → Result Final → Command (Option Json)
  unfolding response
  main scenario_id rows (ok f) = exited (pos 0) (some (response scenario_id rows f true))
  main scenario_id rows (err e) = exited (pos 1) none
