-- ===== src/Adapter/Inspect.antt =====
-- `_started_runtime`: the owned container and network, their inspection and the target it gives.
use postgres_migration_rehea.Adapter.Documents.{changed, Named, gather}
use postgres_migration_rehea.Adapter.Faults.{◌>>=◌, runtime_identity_error, Attempt, done, fault}
use postgres_migration_rehea.Adapter.Local.{Command, checked, Resource}
use postgres_migration_rehea.Adapter.Lookup.{get, sole}
use postgres_migration_rehea.Base.{
  if◌then◌else◌, ℤ, pos, same_text, Option, none, some, List, [], ◌∷◌, String,
}
use postgres_migration_rehea.Fixtures.Runtime.{
  Address, Identity, container, identity_error, verify_started_runtime,
}
use postgres_migration_rehea.Http.{
  Json, json_number, json_array, json_object, no_items, no_members, member,
}

-- The ids of one kind.
abbrev pub ids_of : String → List Resource → List String
ids_of kind [] = []
ids_of kind (r ∷ rs) = if same_text r.kind kind then r.id ∷ ids_of kind rs else ids_of kind rs

-- One container, one network and no volume.
abbrev pub only_pair : List String → List String → List String → Attempt (String × String)
only_pair (c ∷ []) (n ∷ []) [] = done (c, n)
only_pair _ _ _ = fault (runtime_identity_error "owned local resource set is incomplete")

abbrev only_documents : Option Json → Option Json → Attempt (Json × Json)
only_documents (some c) (some n) = done (c, n)
only_documents _ _ = fault (runtime_identity_error "owned local runtime inspection is not unique")

-- `decimal` prints an integer, `bind_source` is the resolved path of the roles file.
module _ (decimal : ℤ → String) (bind_source project : String) where
  abbrev parsed : Option Json → Attempt Json
  parsed none = fault (changed "owned local runtime inspection is malformed")
  parsed (some v) = done v

  abbrev pub observed_of : Named → Json
  observed_of q = json_object (
      member "container_id" q.container_id (
        member "network_id" q.network_id (
          member "endpoint_id" (get q.parts.membership "EndpointID") (
            member "image_id" q.parts.image (
              member "project" (get q.parts.labels "com.docker.compose.project") (
                member "service" (get q.parts.labels "com.docker.compose.service") (
                  member "network_internal" q.parts.internal (
                    member "container_ipv4" (get q.parts.membership "IPAddress") (
                      member "destination_port" (json_number (pos 5432))
                        (member "published_ports" (json_array no_items) no_members))))))))))

  abbrev pub verified_as : Json → Identity → Attempt Json
  verified_as observed (container c) = done observed
  verified_as observed (identity_error message) = fault (runtime_identity_error message)

  -- `parse` is `ipaddress.ip_address`.
  abbrev pub verified : (String → Option Address) → Json → Attempt Json
  verified parse observed =
      verified_as observed (verify_started_runtime parse (get observed) project)

  abbrev pub read_documents : Command (Option Json) → Command (Option Json) → Attempt (Json × Json)
  read_documents inspect inspect_network = do
    container_text ← checked inspect
    container_doc ← parsed container_text
    network_text ← checked inspect_network
    network_doc ← parsed network_text
    only_documents (sole container_doc) (sole network_doc)

  abbrev pub verify_parts : (String → Option Address) → Named → Attempt Json
  verify_parts parse named = verified parse (observed_of named)

  abbrev pub verify_documents :
      (String → Option Address) → String × String → Json × Json → Attempt Json
  verify_documents parse ids documents =
      gather decimal bind_source project ids.0 ids.1 documents.0 documents.1 >>= verify_parts parse

  abbrev pub inspected_pair :
      (String → Option Address)
      → Command (Option Json)
      → Command (Option Json)
      → String × String
      → Attempt Json
  inspected_pair parse inspect inspect_network ids =
      read_documents inspect inspect_network >>= verify_documents parse ids

  unfoldable pub started_runtime :
      (String → Option Address)
      → List Resource
      → Command (Option Json)
      → Command (Option Json)
      → Attempt Json
  unfolding verify_started_runtime gather
  started_runtime parse owned inspect inspect_network =
      only_pair (ids_of "container" owned) (ids_of "network" owned) (ids_of "volume" owned)
      >>= inspected_pair parse inspect inspect_network
