-- ===== src/Tests/Frozen.antt =====
-- A container runtime that answers every call, and the fixture file of the repository.
use postgres_migration_rehea.Adapter.{
  Answers, Command, exited, Listing, Resource, Host, Receipt, ControlDir, io_fine, Metadata, opened,
  missing, created, done,
}
use postgres_migration_rehea.Base.{
  ℤ, pos, negsuc, ◌≡◌, refl, true, false, Option, none, some, List, [], ◌∷◌, String, ◌<>◌,
}
use postgres_migration_rehea.Database.{Version}
use postgres_migration_rehea.Final.{fullmatch_hex}
use postgres_migration_rehea.Fixtures.Runtime.{Address, image_id}
use postgres_migration_rehea.Http.{
  Json, json_null, json_bool, json_number, json_text, json_object, no_members,
}
use postgres_migration_rehea.Response.{object_of, list_of, number, rows_json}
use postgres_migration_rehea.Scenarios.{Surroundings, small_shop_rows}

abbrev pub nonce_text : String
nonce_text = "0123456789abcdef"

abbrev pub project_text : String
project_text = "pmr-control-room-0123456789abcdef"

abbrev pub hex_a : String
hex_a = "aaaaaaaaaaaaaaaaaaaaaaaaaaaaaaaaaaaaaaaaaaaaaaaaaaaaaaaaaaaaaaaa"

abbrev pub hex_b : String
hex_b = "bbbbbbbbbbbbbbbbbbbbbbbbbbbbbbbbbbbbbbbbbbbbbbbbbbbbbbbbbbbbbbbb"

abbrev hex_c : String
hex_c = "cccccccccccccccccccccccccccccccccccccccccccccccccccccccccccccccc"

abbrev pub sixteen : ℤ → String
sixteen n = "16"

abbrev pub private_address : String → Option Address
private_address s = some (record {
  is_ipv4 = true;
  is_private = true;
  is_loopback = false;
  is_link_local = false;
  is_multicast = false;
  is_unspecified = false;
})

abbrev pub roles_path : String
roles_path = "/project/docker/init/001_roles.sql"

abbrev pub hash_of : Version → String
hash_of v = hex_a

abbrev pub compact : Json → String
compact v = "compact"

abbrev pub sha256_of : String → String
sha256_of s = hex_b

pub sha256_of-hexadecimal : (s : String) → fullmatch_hex 64 (sha256_of s) ≡ true
unfolding fullmatch_hex
sha256_of-hexadecimal s = refl

abbrev text_members : List (String × String) → List (String × Json)
text_members [] = []
text_members ((k, v) ∷ kvs) = (k, json_text v) ∷ text_members kvs

abbrev texts_object : List (String × String) → Json
texts_object kvs = object_of (text_members kvs)

abbrev empty_object : Json
empty_object = json_object no_members

abbrev network_text : String
network_text = "pmr-control-room-0123456789abcdef_control_room_internal"

abbrev container_text : String
container_text = "pmr-control-room-0123456789abcdef-postgres-1"

abbrev config_json : Json
config_json = object_of (
    (
      "Labels",
      texts_object (
          ("com.docker.compose.project", project_text)
          ∷ ("com.docker.compose.service", "postgres")
          ∷ ("com.docker.compose.container-number", "1")
          ∷ ("com.docker.compose.oneoff", "False")
          ∷ []),
    )
    ∷ ("User", json_text "70:70")
    ∷ ("ExposedPorts", object_of (("5432/tcp", empty_object) ∷ []))
    ∷ [])

abbrev host_config_json : Json
host_config_json = object_of (
    (
      "Binds",
      list_of (
          json_text
            "/project/docker/init/001_roles.sql:/docker-entrypoint-initdb.d/001_roles.sql:ro"
          ∷ []),
    )
    ∷ (
      "Tmpfs",
      texts_object
          (("/var/lib/postgresql", "rw,noexec,nosuid,size=256m,uid=70,gid=70,mode=0700") ∷ []),
    )
    ∷ ("NetworkMode", json_text network_text)
    ∷ ("PortBindings", empty_object)
    ∷ ("PublishAllPorts", json_bool false)
    ∷ [])

abbrev mount_json : Json
mount_json = object_of (
    ("Type", json_text "bind")
    ∷ ("Source", json_text roles_path)
    ∷ ("Destination", json_text "/docker-entrypoint-initdb.d/001_roles.sql")
    ∷ ("Mode", json_text "ro")
    ∷ ("RW", json_bool false)
    ∷ ("Propagation", json_text "rprivate")
    ∷ [])

abbrev endpoint_json : Json
endpoint_json = object_of (
    ("NetworkID", json_text hex_b)
    ∷ ("EndpointID", json_text hex_c)
    ∷ ("IPAddress", json_text "172.20.0.2")
    ∷ ("IPPrefixLen", number 16)
    ∷ [])

abbrev container_json : Json
container_json = object_of (
    ("Id", json_text hex_a)
    ∷ ("Name", json_text ("/" <> container_text))
    ∷ ("Config", config_json)
    ∷ ("HostConfig", host_config_json)
    ∷ ("Mounts", list_of (mount_json ∷ []))
    ∷ (
      "NetworkSettings",
      object_of (
          ("Ports", object_of (("5432/tcp", json_null) ∷ []))
          ∷ ("Networks", object_of ((network_text, endpoint_json) ∷ []))
          ∷ []),
    )
    ∷ ("Image", json_text image_id)
    ∷ [])

abbrev network_json : Json
network_json = object_of (
    ("Id", json_text hex_b)
    ∷ ("Name", json_text network_text)
    ∷ (
      "Labels",
      texts_object (
          ("com.docker.compose.project", project_text)
          ∷ ("com.docker.compose.network", "control_room_internal")
          ∷ []),
    )
    ∷ (
      "Containers",
      object_of (
          (
            hex_a,
            texts_object (
                ("Name", container_text)
                ∷ ("EndpointID", hex_c)
                ∷ ("IPv4Address", "172.20.0.2/16")
                ∷ ("IPv6Address", "")
                ∷ []),
          )
          ∷ []),
    )
    ∷ ("Internal", json_bool true)
    ∷ [])

abbrev answer : {A : Type 0} → A → Command A
answer x = exited (pos 0) x

abbrev nothing_listed : Listing
nothing_listed = record { containers = answer []; networks = answer []; volumes = answer [] }

abbrev pub owned_listing : Listing
owned_listing = record {
  containers = answer (hex_a ∷ []);
  networks = answer (hex_b ∷ []);
  volumes = answer [];
}

abbrev pub owned_set : List Resource
owned_set = record { kind = "network"; id = hex_b } ∷ record { kind = "container"; id = hex_a } ∷ []

abbrev frozen_host : Host
frozen_host = record {
  docker_digest = some "a429e235ef670ea83357a5c8c7451f0a69d485a6fee49f9032fd938a0ab4969d";
  compose_digest = some "c57ab918abd5b05ca7e7d0f275875dd1330a695074f309dc9eab1b49efafcd4b";
  environment = λ name. "";
  endpoint = answer "unix:///var/run/docker.sock";
  image = answer image_id;
}

abbrev pub inspection_pair : Command (Option Json) × Command (Option Json)
inspection_pair =
    (answer (some (list_of (container_json ∷ []))), answer (some (list_of (network_json ∷ []))))

-- The child's output is an argument.
abbrev pub answering : Command (Option Json) → Answers
answering output = record {
  host = frozen_host;
  before = nothing_listed;
  up = answer tt;
  after = owned_listing;
  inspection = inspection_pair;
  relay = done tt;
  process = record {
    spawns = true;
    has_pidfd = true;
    communicated = output;
    still_runs = false;
    heeds_sigterm = true;
    heeds_sigkill = true;
  };
  healthy = done tt;
  observed = done tt;
  current = owned_listing;
  partial = nothing_listed;
  partial_inspection = inspection_pair;
  down = answer tt;
  remaining = nothing_listed;
  io = io_fine;
}

abbrev scenario_json : String → String → String → String → Json → Json
scenario_json id title purpose outcome rows = object_of (
    ("id", json_text id)
    ∷ ("title", json_text title)
    ∷ ("purpose", json_text purpose)
    ∷ ("expected_outcome", json_text outcome)
    ∷ ("rows", rows)
    ∷ [])

abbrev pub fixtures_json : Json
fixtures_json = object_of (
    ("schema_version", number 1)
    ∷ ("default_scenario_id", json_text "small-shop")
    ∷ (
      "source",
      texts_object (
          ("kind", "synthetic")
          ∷ ("authoring_method", "hand-authored deterministic fixture")
          ∷ ("license_status", "project-authored synthetic data")
          ∷ ("limitation", "Six rows are a bounded local rehearsal, not production data.")
          ∷ []),
    )
    ∷ (
      "scenarios",
      list_of (
          scenario_json "small-shop" "Small shop ledger"
            "See six synthetic invoices move through the local rehearsal." "ready"
            (rows_json small_shop_rows)
          ∷ scenario_json "empty-ledger" "Empty ledger"
              "Confirm that the same safe path handles no rows to migrate." "empty" (list_of [])
          ∷ scenario_json "invalid-negative-amount" "Invalid amount"
              "Show field-level recovery before the database operation starts." "rejected"
              (list_of (
                object_of
                  (("invoice_id", number 201) ∷ ("amount_cents", json_number (negsuc 0)) ∷ [])
                ∷ []))
          ∷ []),
    )
    ∷ [])

abbrev pub surroundings : Command (Option Json) → Surroundings
surroundings output = record {
  has_pidfd = true;
  nonce = nonce_text;
  fixtures = some fixtures_json;
  root_opens = true;
  makes = created;
  control = missing;
  lock = record { opens = true; is_free = true };
  answers = answering output;
}

abbrev pub lock_metadata : Metadata
lock_metadata = record {
  is_regular = true;
  is_directory = false;
  is_owned = true;
  mode = 384;
  links = 1;
}

-- The control directory before the first run.
abbrev pub new_directory : ControlDir Receipt
new_directory = record { receipt = none; temp = none; lock = opened lock_metadata }
