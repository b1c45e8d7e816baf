-- ===== src/Adapter/Documents.antt =====
-- `_started_runtime`: what the two inspected documents must say of the container and the network.
-- A `Ports` value that is a text or a list is reported as malformed here, in the same class of error.
use postgres_migration_rehea.Adapter.Faults.{
  ◌>>=◌, ◌>>◌, require, Fault, runtime_identity_error, Attempt, done, fault,
}
use postgres_migration_rehea.Adapter.Lookup.{
  is_null, get, is_text, is_false, equals_false, keys_are, is_empty_object, is_list_of, subscript,
  is_object,
}
use postgres_migration_rehea.Base.{ℤ, pos, Bool, true, false, ◌&&◌, List, [], ◌∷◌, String, ◌<>◌}
use postgres_migration_rehea.Http.{Json, json_number, json_text, json_object}

abbrev pub changed : String → Fault
changed message = runtime_identity_error message

abbrev is_string_value : Json → Bool
is_string_value (json_text s) = true
is_string_value _ = false

abbrev is_integer : Json → Bool
is_integer (json_number n) = true
is_integer _ = false

abbrev text_of : Json → String
text_of (json_text s) = s
text_of _ = ""

abbrev integer_of : Json → ℤ
integer_of (json_number n) = n
integer_of _ = pos 0

-- The keys that `set(value)` has; null, a number and a Boolean have none to give.
abbrev same_keys : List String → Json → Attempt Bool
same_keys ks (json_object ms) = done (keys_are ks (json_object ms))
same_keys ks _ = fault (runtime_identity_error "owned local runtime inspection is malformed")

abbrev tmpfs_options : String
tmpfs_options = "rw,noexec,nosuid,size=256m,uid=70,gid=70,mode=0700"

abbrev bind_destination : String
bind_destination = "/docker-entrypoint-initdb.d/001_roles.sql"

abbrev has_container_labels : String → Json → Bool
has_container_labels project labels =
    is_object labels
    && (is_text project (get labels "com.docker.compose.project")
        && (is_text "postgres" (get labels "com.docker.compose.service")
            && (is_text "1" (get labels "com.docker.compose.container-number")
                && is_text "False" (get labels "com.docker.compose.oneoff"))))

abbrev has_network_labels : String → Json → Bool
has_network_labels project labels =
    is_object labels
    && (is_text project (get labels "com.docker.compose.project")
        && is_text "control_room_internal" (get labels "com.docker.compose.network"))

abbrev is_tmpfs : Json → Bool
is_tmpfs v =
    keys_are ("/var/lib/postgresql" ∷ []) v && is_text tmpfs_options (get v "/var/lib/postgresql")

abbrev is_mount : String → Json → Bool
is_mount bind_source v =
    keys_are ("Type" ∷ "Source" ∷ "Destination" ∷ "Mode" ∷ "RW" ∷ "Propagation" ∷ []) v
    && (is_text "bind" (get v "Type")
        && (is_text bind_source (get v "Source")
            && (is_text bind_destination (get v "Destination")
                && (is_text "ro" (get v "Mode")
                    && (equals_false (get v "RW") && is_text "rprivate" (get v "Propagation"))))))

-- What the two documents give: the endpoint, the labels, the image and whether the network is internal.
pub record Parts : Type 0 where
  pub membership : Json
  pub labels : Json
  pub image : Json
  pub internal : Json

-- The same with the ids that the documents themselves carry.
pub record Named : Type 0 where
  pub container_id : Json
  pub network_id : Json
  pub parts : Parts

-- `decimal` prints an integer, `bind_source` is the resolved path of the roles file.
module _ (decimal : ℤ → String) (bind_source project : String) where
  abbrev network_name : String
  network_name = project <> "_control_room_internal"

  abbrev container_name : String
  container_name = project <> "-postgres-1"

  abbrev check_host_config : Json → Attempt (Unit {0})
  check_host_config host_config = do
    let message = changed "owned container mounts, network mode, or bindings changed"
    binds ← subscript host_config "Binds"
    require (is_list_of (is_text (bind_source <> (":" <> (bind_destination <> ":ro")))) binds)
        message
    tmpfs ← subscript host_config "Tmpfs"
    require (is_tmpfs tmpfs) message
    mode ← subscript host_config "NetworkMode"
    require (is_text network_name mode) message
    bindings ← subscript host_config "PortBindings"
    require (is_empty_object bindings) message
    published ← subscript host_config "PublishAllPorts"
    require (is_false published) message

  abbrev check_ports : Json → Attempt (Unit {0})
  check_ports ports = do
    expected ← same_keys ("5432/tcp" ∷ []) ports
    require expected (changed "owned container publishes unexpected ports")
    port ← subscript ports "5432/tcp"
    require (is_null port) (changed "owned internal database must not publish a Docker port")

  abbrev pub check_names : String → String → Json → Json → Attempt (Unit {0})
  check_names c n box network = do
    let identity = changed "owned inspect identity does not match the requested resource"
    let name = changed "owned local runtime name changed"
    container_id ← subscript box "Id"
    require (is_text c container_id) identity
    network_id ← subscript network "Id"
    require (is_text n network_id) identity
    found_container ← subscript box "Name"
    require (is_text ("/" <> container_name) found_container) name
    found_network ← subscript network "Name"
    require (is_text network_name found_network) name

  abbrev check_labels : Json → Json → Attempt (Unit {0})
  check_labels labels network = do
    require (has_container_labels project labels) (changed "owned container labels changed")
    network_labels ← subscript network "Labels"
    require (has_network_labels project network_labels) (changed "owned network labels changed")

  abbrev check_config : Json → Attempt (Unit {0})
  check_config config = do
    user ← subscript config "User"
    require (is_text "70:70" user) (changed "owned container user changed")
    exposed ← subscript config "ExposedPorts"
    require (keys_are ("5432/tcp" ∷ []) exposed && is_empty_object (get exposed "5432/tcp"))
        (changed "owned container exposes unexpected ports")

  -- The endpoint in the container's only network.
  abbrev find_membership : Json → Json → Attempt Json
  find_membership settings network = do
    memberships ← subscript settings "Networks"
    require (keys_are (network_name ∷ []) memberships)
        (changed "owned container has an unexpected network membership")
    membership ← subscript memberships network_name
    network_id ← subscript network "Id"
    require (is_object membership && is_text (text_of network_id) (get membership "NetworkID"))
        (changed "owned container network identity drift")
    require
        (is_string_value (get membership "EndpointID")
          && (is_string_value (get membership "IPAddress")
              && is_integer (get membership "IPPrefixLen")))
        (changed "owned container endpoint identity is unavailable")
    done membership

  abbrev check_network : String → Json → Json → Attempt (Unit {0})
  check_network c membership network = do
    members ← subscript network "Containers"
    require
        (keys_are (c ∷ []) members
          && (is_object (get members c) && is_text container_name (get (get members c) "Name")))
        (changed "owned network container identity changed")
    require
        (is_text (text_of (get membership "EndpointID")) (get (get members c) "EndpointID")
          && (is_text
                (text_of (get membership "IPAddress")
                  <> ("/" <> decimal (integer_of (get membership "IPPrefixLen"))))
                (get (get members c) "IPv4Address")
              && is_text "" (get (get members c) "IPv6Address")))
        (changed "owned network endpoint or address identity drift")

  abbrev pub gather_parts : String → Json → Json → Attempt Parts
  gather_parts c box network = do
    config ← subscript box "Config"
    labels ← subscript config "Labels"
    check_labels labels network
    check_config config
    host_config ← subscript box "HostConfig"
    check_host_config host_config
    mounts ← subscript box "Mounts"
    require (is_list_of (is_mount bind_source) mounts)
        (changed "owned container mount identity changed")
    settings ← subscript box "NetworkSettings"
    ports ← subscript settings "Ports"
    check_ports ports
    membership ← find_membership settings network
    check_network c membership network
    image ← subscript box "Image"
    internal ← subscript network "Internal"
    done (record { membership = membership; labels = labels; image = image; internal = internal })

  unfoldable pub gather : String → String → Json → Json → Attempt Named
  gather c n box network = do
    check_names c n box network
    parts ← gather_parts c box network
    container_id ← subscript box "Id"
    network_id ← subscript network "Id"
    done (record { container_id = container_id; network_id = network_id; parts = parts })
