-- ===== src/Tests/Documents.antt =====
-- The validation of fixtures on small documents.
use postgres_migration_rehea.Base.{
  if◌then◌else◌, pos, same_text, ℕ, ◌≡◌, refl, true, false, ◌||◌, Option, some, List, [], ◌∷◌,
  String,
}
use postgres_migration_rehea.Engine.{FixtureRow}
use postgres_migration_rehea.Final.{fullmatch_hex}
use postgres_migration_rehea.Fixtures.{rejected, validate_rows}
use postgres_migration_rehea.Fixtures.Bounds.{IsSound, validate_rows-IsSound}
use postgres_migration_rehea.Fixtures.Runtime.{
  Address, image_id, verify_started_runtime, runtime_target, runtime_target-accepted,
}
use postgres_migration_rehea.Http.{
  Json, json_bool, json_number, json_text, json_array, json_object, no_items, item, no_members,
  member,
}

abbrev row_document : ℕ → ℕ → Json
row_document i a = json_object (
    member "invoice_id" (json_number (pos i))
      (member "amount_cents" (json_number (pos a)) no_members))

abbrev two_documents : Json
two_documents = json_array (item (row_document 101 1250) (item (row_document 102 2400) no_items))

abbrev two_fixtures : List FixtureRow
two_fixtures =
    record { invoice_id = 101; amount_cents = 1250 }
    ∷ record { invoice_id = 102; amount_cents = 2400 }
    ∷ []

validate_rows-IsSound_example : IsSound [] two_fixtures
unfolding validate_rows
validate_rows-IsSound_example = validate_rows-IsSound two_documents two_fixtures refl

validate_rows-twice :
    validate_rows (json_array (item (row_document 1 5) (item (row_document 1 6) no_items)))
    ≡ rejected "invoice_id" "Invoice IDs must be unique."
unfolding validate_rows
validate_rows-twice = refl

abbrev sixty_four_hex : String
sixty_four_hex = "aaaaaaaaaaaaaaaaaaaaaaaaaaaaaaaaaaaaaaaaaaaaaaaaaaaaaaaaaaaaaaaa"

abbrev private_address : String → Option Address
private_address address = some (record {
  is_ipv4 = true;
  is_private = true;
  is_loopback = false;
  is_link_local = false;
  is_multicast = false;
  is_unspecified = false;
})

abbrev observed : String → Json
observed key =
    if same_text key "container_id" || (same_text key "network_id" || same_text key "endpoint_id")
    then json_text sixty_four_hex
    else if same_text key "image_id"
    then json_text image_id
    else if same_text key "project"
    then json_text "pmr"
    else if same_text key "service"
    then json_text "postgres"
    else if same_text key "network_internal"
    then json_bool true
    else if same_text key "published_ports"
    then json_array no_items
    else if same_text key "destination_port"
    then json_number (pos 5432)
    else json_text "172.18.0.2"

target_of_container :
    runtime_target private_address observed
    ≡ some (record {
      container_id = sixty_four_hex;
      network_id = sixty_four_hex;
      endpoint_id = sixty_four_hex;
      ipv4_address = "172.18.0.2";
    })
unfolding verify_started_runtime fullmatch_hex
target_of_container = runtime_target-accepted private_address observed "pmr" sixty_four_hex refl
