-- ===== src/Scenarios/Load.antt =====
-- `_load_document`, `load_scenarios` and `scenario_summaries`.
-- What `json.loads` makes of the file, `none` where it cannot be read or parsed.
use postgres_migration_rehea.Adapter.{
  runtime_error, ◌>>=◌, ◌>>◌, require, get, is_text, is_exactly_number, keys_are, is_list_of,
  is_object, is_minus_one, key_error, fixture_error, Attempt, done, fault, is_one_of,
}
use postgres_migration_rehea.Base.{
  if◌then◌else◌, same_text, ℕ, Bool, true, false, not, ◌&&◌, Option, none, some, List, [], ◌∷◌,
  ◌++◌, map, String,
}
use postgres_migration_rehea.Engine.{FixtureRow}
use postgres_migration_rehea.Fixtures.{Validated, rejected, validated, count_items, validate_rows}
use postgres_migration_rehea.Http.{
  Json, json_text, json_array, Items, no_items, item, has_unique_keys,
}
use postgres_migration_rehea.Response.{same_rows, bounded_text, object_of, list_of, number}

abbrev pub load_document : Option Json → Attempt Json
load_document none = fault (runtime_error "tracked control-room asset is unavailable")
load_document (some v) = do
  require (has_unique_keys v) (runtime_error "tracked control-room asset is unavailable")
  require (is_object v) (runtime_error "tracked control-room asset has an invalid shape")
  done v

-- The scenarios in the order of the file, by their identifier.
abbrev pub Scenarios : Type 0
Scenarios = List (String × Json)

abbrev pub scenario_ids : List String
scenario_ids = "small-shop" ∷ "empty-ledger" ∷ "invalid-negative-amount" ∷ []

abbrev pub row : ℕ → ℕ → FixtureRow
row i a = record { invoice_id = i; amount_cents = a }

abbrev pub small_shop_rows : List FixtureRow
small_shop_rows =
    row 101 1250 ∷ row 102 2400 ∷ row 103 99 ∷ row 104 5000 ∷ row 105 725 ∷ row 106 3100 ∷ []

abbrev pub pinned_rows : String → List FixtureRow
pinned_rows identifier = if same_text identifier "small-shop" then small_shop_rows else []

abbrev outcome_of : String → String
outcome_of identifier =
    if same_text identifier "small-shop"
    then "ready"
    else if same_text identifier "empty-ledger"
    then "empty"
    else "rejected"

-- `rows == _INVALID_ROWS`
abbrev pub is_invalid_row : Json → Bool
is_invalid_row v =
    keys_are ("invoice_id" ∷ "amount_cents" ∷ []) v
    && (is_exactly_number 201 (get v "invoice_id") && is_minus_one (get v "amount_cents"))

abbrev pub has_scenario : String → Scenarios → Bool
has_scenario identifier [] = false
has_scenario identifier ((k, v) ∷ s) =
    if same_text k identifier then true else has_scenario identifier s

abbrev pub check_valid_rows : String → Validated → Attempt (Unit {0})
check_valid_rows identifier (rejected field detail) =
    fault (runtime_error "fixture scenario rows are invalid")
check_valid_rows identifier (validated rows) =
    require (same_rows rows (pinned_rows identifier))
      (runtime_error "fixture scenario rows changed without a schema version")

unfoldable pub check_rows : String → Json → Attempt (Unit {0})
unfolding validate_rows
check_rows identifier v =
    if same_text identifier "invalid-negative-amount"
    then require (is_list_of is_invalid_row v) (runtime_error "fixture rejected scenario changed")
    else check_valid_rows identifier (validate_rows v)

abbrev pub check_scenario : String → Json → Scenarios → Attempt (Unit {0})
check_scenario identifier v s = do
  require (keys_are ("id" ∷ "title" ∷ "purpose" ∷ "expected_outcome" ∷ "rows" ∷ []) v)
      (runtime_error "fixture scenario schema is not closed")
  require (is_one_of identifier scenario_ids && not (has_scenario identifier s))
      (runtime_error "fixture scenario identifier is invalid")
  require
      (bounded_text 80 (get v "title")
        && (bounded_text 240 (get v "purpose")
            && is_text (outcome_of identifier) (get v "expected_outcome")))
      (runtime_error "fixture scenario metadata is invalid")

-- One turn of the loop, given the rest of it for the scenario's identifier.
abbrev pub collect_item : Json → (String → Attempt Scenarios) → Scenarios → Json → Attempt Scenarios
collect_item v rest s (json_text identifier) =
    check_scenario identifier v s >> check_rows identifier (get v "rows") >> rest identifier
collect_item v rest s _ = fault (runtime_error "fixture scenario has an invalid shape")

-- The loop over the items, with the scenarios so far.
unfoldable pub collect : Scenarios → Items → Attempt Scenarios
unfolding check_rows
collect s no_items = done s
collect s (item v vs) =
    collect_item v (λ identifier. collect (s ++ (identifier, v) ∷ []) vs) s (get v "id")

abbrev is_source : Json → Bool
is_source v =
    keys_are ("kind" ∷ "authoring_method" ∷ "license_status" ∷ "limitation" ∷ []) v
    && (is_text "synthetic" (get v "kind")
        && (is_text "hand-authored deterministic fixture" (get v "authoring_method")
            && (is_text "project-authored synthetic data" (get v "license_status")
                && is_text "Six rows are a bounded local rehearsal, not production data."
                    (get v "limitation"))))

abbrev pub collect_list : Json → Attempt Scenarios
collect_list (json_array l) = collect [] l
collect_list _ = fault (runtime_error "fixture scenario list is unavailable")

abbrev same_ids : Scenarios → List String → Bool
same_ids [] [] = true
same_ids [] (k ∷ ks) = false
same_ids (s ∷ ss) [] = false
same_ids ((j, v) ∷ ss) (k ∷ ks) = same_text j k && same_ids ss ks

abbrev pub find : String → Scenarios → Option Json
find identifier [] = none
find identifier ((k, v) ∷ s) = if same_text k identifier then some v else find identifier s

abbrev pub rows_or_rejection : Validated → Attempt (List FixtureRow)
rows_or_rejection (rejected field detail) = fault (fixture_error field detail)
rows_or_rejection (validated rows) = done rows

abbrev pub select : String → Option Json → Attempt (List FixtureRow)
select identifier none = fault (key_error identifier)
select identifier (some v) = rows_or_rejection (validate_rows (get v "rows"))

abbrev pub selected : Option String → Scenarios → Attempt Scenarios
selected none s = done s
selected (some identifier) s = select identifier (find identifier s) >> done s

abbrev pub check_document : Json → Attempt (Unit {0})
check_document document = do
  require
      (is_exactly_number 1 (get document "schema_version")
        && is_text "small-shop" (get document "default_scenario_id"))
      (runtime_error "fixture schema is not the approved version")
  require
      (keys_are ("schema_version" ∷ "default_scenario_id" ∷ "source" ∷ "scenarios" ∷ []) document)
      (runtime_error "fixture schema is not closed")
  require (is_source (get document "source")) (runtime_error "fixture source is not approved")

abbrev pub check_ids : Scenarios → Attempt (Unit {0})
check_ids found =
    require (same_ids found scenario_ids)
      (runtime_error "fixture scenario set is not the approved allowlist")

abbrev pub from_list : Option String → Scenarios → Attempt Scenarios
from_list scenario_id found = check_ids found >> selected scenario_id found

abbrev pub from_document : Option String → Json → Attempt Scenarios
from_document scenario_id document =
    check_document document >> (collect_list (get document "scenarios") >>= from_list scenario_id)

unfoldable pub load_scenarios : Option Json → Option String → Attempt Scenarios
unfolding collect validate_rows
load_scenarios file scenario_id = load_document file >>= from_document scenario_id

-- `_validate_rows(load_scenarios(root, scenario_id=scenario_id)[scenario_id].get("rows"))`
unfoldable pub fixture_rows : Option Json → String → Attempt (List FixtureRow)
unfolding load_scenarios
fixture_rows file identifier =
    load_scenarios file (some identifier) >>= (λ s. select identifier (find identifier s))

abbrev row_count : Json → ℕ
row_count (json_array l) = count_items l
row_count _ = 0

abbrev texts_of : List String → Json
texts_of ss = list_of (map json_text ss)

abbrev summary_of : Scenarios → String → Attempt Json
summary_of s identifier = elim (find identifier s) [
  | none ↦ fault (key_error identifier)
  | some v ↦ done (
      object_of (
        ("id", json_text identifier)
        ∷ ("title", get v "title")
        ∷ ("purpose", get v "purpose")
        ∷ ("row_count", number (row_count (get v "rows")))
        ∷ ("expected_outcome", get v "expected_outcome")
        ∷ ("source_schema", texts_of ("invoice_id" ∷ "amount_cents" ∷ []))
        ∷ ("destination_schema", texts_of ("invoice_id" ∷ "amount_minor" ∷ "currency_code" ∷ []))
        ∷ (
          "provenance",
          object_of (
              ("kind", json_text "synthetic")
              ∷ ("fixture_version", json_text "1")
              ∷ ("source", json_text "control-room-data/fixtures-v1.json")
              ∷ ("license_status", json_text "project-authored synthetic data")
              ∷ []),
        )
        ∷ []))
]

unfoldable pub scenario_summaries : Option Json → Attempt Json
unfolding load_scenarios
scenario_summaries file = do
  found ← load_scenarios file none
  small ← summary_of found "small-shop"
  empty ← summary_of found "empty-ledger"
  invalid ← summary_of found "invalid-negative-amount"
  done (
      object_of (
        ("schema_version", number 1)
        ∷ ("default_scenario_id", json_text "small-shop")
        ∷ ("scenarios", list_of (small ∷ empty ∷ invalid ∷ []))
        ∷ ("scope", json_text "synthetic_local_only_no_external_database")
        ∷ []))
