-- ===== src/Adapter/Local.antt =====
-- `_checked`, `_resource_ids` and `_verify_local_runtime`: the questions to the container runtime.
-- How a subprocess ended: its return code with what it printed, or the timeout.
use postgres_migration_rehea.Adapter.Faults.{
  runtime_error, ◌>>=◌, ◌>>◌, require, command_timeout, Attempt, done, fault,
}
use postgres_migration_rehea.Base.{
  if◌then◌else◌, ℤ, pos, eq_ℤ, same_text, Bool, true, false, not, ◌&&◌, Option, none, some, List,
  [], ◌∷◌, String,
}
use postgres_migration_rehea.Fixtures.Runtime.{image_id}

pub data Command (A : Type 0) : Type 0 where
  exited : ℤ → A → Command A
  ran_out : Command A

abbrev pub checked : {A : Type 0} → Command A → Attempt A
checked ran_out = fault command_timeout
checked (exited code output) =
    if eq_ℤ code (pos 0)
    then done output
    else fault (runtime_error "local container runtime command was rejected")

-- The lines printed by `docker ps`, `docker network ls` and `docker volume ls` for the project's label.
pub record Listing : Type 0 where
  pub containers : Command (List String)
  pub networks : Command (List String)
  pub volumes : Command (List String)

-- `f"{kind}:{line}"`. A set of resources is a list in which nothing comes twice.
pub record Resource : Type 0 where
  pub kind : String
  pub id : String

abbrev is_member : Resource → List Resource → Bool
is_member r [] = false
is_member r (q ∷ qs) =
    if same_text r.kind q.kind && same_text r.id q.id then true else is_member r qs

abbrev insert : Resource → List Resource → List Resource
insert r rs = if is_member r rs then rs else r ∷ rs

abbrev pub add_lines : String → List String → List Resource → List Resource
add_lines kind [] rs = rs
add_lines kind (line ∷ lines) rs =
    add_lines kind lines
      (if same_text line "" then rs else insert (record { kind = kind; id = line }) rs)

unfoldable pub resource_ids : Listing → Attempt (List Resource)
resource_ids l = do
  containers ← checked l.containers
  networks ← checked l.networks
  volumes ← checked l.volumes
  done (
      add_lines "volume" volumes
        (add_lines "network" networks (add_lines "container" containers [])))

abbrev is_subset : List Resource → List Resource → Bool
is_subset [] rs = true
is_subset (q ∷ qs) rs = is_member q rs && is_subset qs rs

-- `==` on sets
abbrev pub same_set : List Resource → List Resource → Bool
same_set a b = is_subset a b && is_subset b a

abbrev docker_sha256 : String
docker_sha256 = "a429e235ef670ea83357a5c8c7451f0a69d485a6fee49f9032fd938a0ab4969d"

abbrev compose_sha256 : String
compose_sha256 = "c57ab918abd5b05ca7e7d0f275875dd1330a695074f309dc9eab1b49efafcd4b"

-- The digests of the two executables (`none` where one cannot be read), the environment (the empty
-- text for an unset variable), and the answers to the two questions.
pub record Host : Type 0 where
  pub docker_digest : Option String
  pub compose_digest : Option String
  pub environment : String → String
  pub endpoint : Command String
  pub image : Command String

abbrev overrides : List String
overrides =
    "DOCKER_HOST" ∷ "DOCKER_CONTEXT" ∷ "COMPOSE_FILE" ∷ "COMPOSE_PROJECT_NAME" ∷ "DOCKER_CONFIG"
    ∷ "DOCKER_TLS_VERIFY" ∷ "DOCKER_CERT_PATH" ∷ []

abbrev is_overridden : (String → String) → List String → Bool
is_overridden environment [] = false
is_overridden environment (name ∷ names) =
    if same_text (environment name) "" then is_overridden environment names else true

abbrev verify_digest : String → Option String → Attempt (Unit {0})
verify_digest expected none =
    fault (runtime_error "frozen local container executable is unavailable")
verify_digest expected (some digest) =
    require (same_text digest expected)
      (runtime_error "frozen local container executable digest changed")

unfoldable pub verify_local_runtime : Host → Attempt (Unit {0})
verify_local_runtime h = do
  verify_digest docker_sha256 h.docker_digest
  verify_digest compose_sha256 h.compose_digest
  require (not (is_overridden h.environment overrides))
      (runtime_error "container runtime overrides are not allowed")
  endpoint ← checked h.endpoint
  require (same_text endpoint "unix:///var/run/docker.sock")
      (runtime_error "default local container endpoint is required")
  image ← checked h.image
  require (same_text image image_id) (runtime_error "frozen local container image is unavailable")
