-- ===== src/Fixtures/Runtime.antt =====
-- `verify_started_runtime` and `_runtime_target` of control_room_adapter.py, with `RuntimeTarget` of
-- control_room_runtime/relay.py.
-- What `ipaddress` says of an address.
use postgres_migration_rehea.Base.{
  if◌then◌else◌, pos, eq_ℤ, same_text, ℕ, ◌≡◌, refl, Bool, true, false, not, ◌&&◌, ◌||◌, Option,
  none, some, arith, String,
}
use postgres_migration_rehea.Final.{fullmatch_hex}
use postgres_migration_rehea.Http.{
  Json, json_null, json_bool, json_number, json_text, json_array, json_object, no_items,
}

pub record Address : Type 0 where
  pub is_ipv4 : Bool
  pub is_private : Bool
  pub is_loopback : Bool
  pub is_link_local : Bool
  pub is_multicast : Bool
  pub is_unspecified : Bool

-- A container identity, or the message of a `RuntimeIdentityError`.
pub data Identity : Type 0 where
  container : String → Identity
  identity_error : String → Identity

pub record RuntimeTarget : Type 0 where
  pub container_id : String
  pub network_id : String
  pub endpoint_id : String
  pub ipv4_address : String

abbrev is_destination : Address → Bool
is_destination a =
    a.is_ipv4
    && (a.is_private
        && (not a.is_loopback
            && (not a.is_link_local && (not a.is_multicast && not a.is_unspecified))))

-- `isinstance(value, str)` and the match of `_RESOURCE_ID_RE`
abbrev is_resource_id : Json → Bool
is_resource_id (json_text s) = fullmatch_hex 64 s
is_resource_id _ = false

abbrev is_string : String → Json → Bool
is_string s (json_text t) = same_text t s
is_string s _ = false

abbrev is_true : Json → Bool
is_true (json_bool b) = b
is_true _ = false

abbrev is_empty_list : Json → Bool
is_empty_list (json_array no_items) = true
is_empty_list _ = false

abbrev is_number : ℕ → Json → Bool
is_number n (json_number m) = eq_ℤ m (pos n)
is_number n _ = false

abbrev pub string_of : Json → String
string_of (json_text s) = s
string_of _ = ""

-- `_IMAGE_ID`
abbrev pub image_id : String
image_id = "sha256:e4155efcf0c7e302168f98a9db891ff4ed14ff3209244308533332d30cd7f6ee"

-- `parse` is `ipaddress.ip_address`; `none` is its ValueError.
module _ (parse : String → Option Address) where
  abbrev parsed_destination : Option Address → Bool
  parsed_destination none = false
  parsed_destination (some a) = is_destination a

  abbrev is_destination_text : Json → Bool
  is_destination_text (json_text s) = parsed_destination (parse s)
  is_destination_text _ = false

  -- `get` is `observed.get`, with null for a missing key. The two errors of the address are one here.
  unfoldable pub verify_started_runtime : (String → Json) → String → Identity
  verify_started_runtime get project =
      if not (is_resource_id (get "container_id"))
      then identity_error "container identity is unavailable"
      else if not (is_resource_id (get "network_id"))
      then identity_error "network identity is unavailable"
      else if not (is_resource_id (get "endpoint_id"))
      then identity_error "network endpoint identity is unavailable"
      else if not (is_string image_id (get "image_id"))
      then identity_error "frozen local image identity changed"
      else if not (is_string project (get "project")) || not (is_string "postgres" (get "service"))
      then identity_error "Compose labels do not identify the owned service"
      else if not (is_true (get "network_internal"))
      then identity_error "owned Compose network is not internal"
      else if not (is_empty_list (get "published_ports"))
      then identity_error "owned internal database must not publish a Docker port"
      else if not (is_number 5432 (get "destination_port"))
      then identity_error "owned database destination port changed"
      else if not (is_destination_text (get "container_ipv4"))
      then identity_error "owned database destination address is not private IPv4"
      else container (string_of (get "container_id"))

  -- `RuntimeTarget.__post_init__`; `none` is its ValueError.
  unfoldable make_target : String → String → String → String → Option RuntimeTarget
  make_target container_id network_id endpoint_id ipv4_address =
      if fullmatch_hex 64 container_id
        && (fullmatch_hex 64 network_id
            && (fullmatch_hex 64 endpoint_id && parsed_destination (parse ipv4_address)))
      then some (record {
        container_id = container_id;
        network_id = network_id;
        endpoint_id = endpoint_id;
        ipv4_address = ipv4_address;
      })
      else none

  -- `_runtime_target`
  unfoldable pub runtime_target : (String → Json) → Option RuntimeTarget
  unfolding make_target
  runtime_target get =
      make_target (string_of (get "container_id")) (string_of (get "network_id"))
        (string_of (get "endpoint_id")) (string_of (get "container_ipv4"))

  hex_string_of : (v : Json) → is_resource_id v ≡ true → fullmatch_hex 64 (string_of v) ≡ true
  hex_string_of (json_text s) h = h
  hex_string_of json_null h = cc
  hex_string_of (json_bool b) h = cc
  hex_string_of (json_number n) h = cc
  hex_string_of (json_array l) h = cc
  hex_string_of (json_object m) h = cc

  address_string_of :
      (v : Json) → is_destination_text v ≡ true → parsed_destination (parse (string_of v)) ≡ true
  address_string_of (json_text s) h = h
  address_string_of json_null h = cc
  address_string_of (json_bool b) h = cc
  address_string_of (json_number n) h = cc
  address_string_of (json_array l) h = cc
  address_string_of (json_object m) h = cc

  accepted-fields :
      (get : String → Json) (project c : String)
      → verify_started_runtime get project ≡ container c
      → (is_resource_id (get "container_id") ≡ true)
        × ((is_resource_id (get "network_id") ≡ true)
            × ((is_resource_id (get "endpoint_id") ≡ true)
                × (is_destination_text (get "container_ipv4") ≡ true)))
  unfolding verify_started_runtime
  accepted-fields get project c h = ground arith

  -- Whatever `ipaddress` answers, a started runtime that `verify_started_runtime` accepts makes a relay
  -- target: `RuntimeTarget` takes its three identities and its address without an error.
  pub runtime_target-accepted :
      (get : String → Json) (project c : String)
      → verify_started_runtime get project ≡ container c
      → runtime_target get
        ≡ some (record {
          container_id = string_of (get "container_id");
          network_id = string_of (get "network_id");
          endpoint_id = string_of (get "endpoint_id");
          ipv4_address = string_of (get "container_ipv4");
        })
  unfolding runtime_target
  runtime_target-accepted get project c h =
      let fields = accepted-fields get project c h in
      rw
        (
          hex_string_of (get "container_id") fields.0,
          hex_string_of (get "network_id") fields.1.0,
          hex_string_of (get "endpoint_id") fields.1.1.0,
          address_string_of (get "container_ipv4") fields.1.1.1,
        )
        refl
