-- ===== src/Fixtures/Rows.antt =====
-- `_validate_rows`. A dictionary of the parsed document has each key once (`_unique_json_object`).
-- The `field` and `detail` of a `FixtureValidationError`, or the rows.
use postgres_migration_rehea.Base.{
  ltb, leb, ◌==◌, if◌then◌else◌, pos, same_text, ℕ, suc, Bool, true, false, ◌&&◌, Option, none,
  some, List, [], ◌∷◌, String,
}
use postgres_migration_rehea.Engine.{FixtureRow}
use postgres_migration_rehea.Http.{
  Json, json_number, json_array, json_object, Items, no_items, item, no_members, member,
}

pub data Validated : Type 0 where
  rejected : String → String → Validated
  validated : List FixtureRow → Validated

abbrev pub max_rows : ℕ
max_rows = 6

abbrev pub max_invoice_id : ℕ
max_invoice_id = 2147483647

abbrev pub max_amount : ℕ
max_amount = 100000000

-- `set(row) == {"invoice_id", "amount_cents"}`, with the two values.
abbrev pub fields_of : Json → Option (Json × Json)
fields_of (json_object (member j v (member k w no_members))) =
    if same_text j "invoice_id" && same_text k "amount_cents"
    then some (v, w)
    else if same_text j "amount_cents" && same_text k "invoice_id"
    then some (w, v)
    else none
fields_of _ = none

-- `not isinstance(value, bool) and isinstance(value, int) and 1 <= value <= bound`
abbrev pub whole_between : ℕ → Json → Option ℕ
whole_between bound (json_number (pos n)) = if leb 1 n && leb n bound then some n else none
whole_between bound _ = none

abbrev pub is_among : ℕ → List ℕ → Bool
is_among i [] = false
is_among i (j ∷ js) = if j == i then true else is_among i js

abbrev pub cons_row : FixtureRow → Validated → Validated
cons_row r (rejected field detail) = rejected field detail
cons_row r (validated rows) = validated (r ∷ rows)

abbrev bad_fields : Validated
bad_fields = rejected "invoice_id" "Each synthetic row must have two numeric fields."

abbrev bad_id : Validated
bad_id = rejected "invoice_id" "Invoice ID must be a positive whole number."

abbrev bad_amount : Validated
bad_amount = rejected "amount_cents" "Amount must be a positive whole number of cents."

abbrev pub row_with : ℕ → Option ℕ → Validated → Validated
row_with i none rest = bad_amount
row_with i (some a) rest = cons_row (record { invoice_id = i; amount_cents = a }) rest

-- One turn of the loop, given the rest of the loop for the ids seen with this one.
abbrev pub row_step : List ℕ → Option ℕ → Json → (ℕ → Validated) → Validated
row_step ids none amount rest = bad_id
row_step ids (some i) amount rest =
    if is_among i ids
    then rejected "invoice_id" "Invoice IDs must be unique."
    else row_with i (whole_between max_amount amount) (rest i)

abbrev pub with_fields : List ℕ → Option (Json × Json) → (ℕ → Validated) → Validated
with_fields ids none rest = bad_fields
with_fields ids (some (invoice_id, amount)) rest =
    row_step ids (whole_between max_invoice_id invoice_id) amount rest

-- `ids` holds the ids of the rows before.
unfoldable pub validate_each : List ℕ → Items → Validated
validate_each ids no_items = validated []
validate_each ids (item row rows) =
    with_fields ids (fields_of row) (λ i. validate_each (i ∷ ids) rows)

abbrev pub count_items : Items → ℕ
count_items no_items = 0
count_items (item v l) = suc (count_items l)

abbrev bad_count : Validated
bad_count = rejected "invoice_id" "The synthetic fixture has an invalid row count."

unfoldable pub validate_rows : Json → Validated
unfolding validate_each
validate_rows (json_array l) =
    if ltb max_rows (count_items l) then bad_count else validate_each [] l
validate_rows _ = bad_count
