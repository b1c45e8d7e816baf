-- ===== src/Http/Messages.antt =====
-- What the handler reads and what it answers: texts, statuses, payloads and JSON documents.
-- Texts as lists of code points, for the tests on characters.
use postgres_migration_rehea.Base.{
  if◌then◌else◌, ℤ, same_text, ℕ, Bool, true, false, not, ◌&&◌, List, String,
}

pub record Header : Type 0 where
  pub value : String
  pub codes : List ℕ

pub data Status : Type 0 where
  status_ok bad_request forbidden not_found method_not_allowed : Status
  request_entity_too_large unsupported_media_type misdirected_request : Status
  unprocessable_entity internal_server_error service_unavailable : Status

-- The documents that the handler sends: `_error` with its fields, the rejected input, and the others.
pub data Payload (A : Type 0) : Type 0 where
  error_document : String → String → String → String → Payload A
  input_rejected : String → String → Payload A
  health scenarios historical : Payload A
  static_asset : String → Payload A
  rehearsal : A → Payload A

-- A JSON value as the decoder builds it, before `object_pairs_hook`: an object is its pairs in order.
mutual
  pub data Json : Type 0 where
    json_null : Json
    json_bool : Bool → Json
    json_number : ℤ → Json
    json_text : String → Json
    json_array : Items → Json
    json_object : Members → Json

  pub data Items : Type 0 where
    no_items : Items
    item : Json → Items → Items

  pub data Members : Type 0 where
    no_members : Members
    member : String → Json → Members → Members

abbrev pub has_key : String → Members → Bool
has_key k no_members = false
has_key k (member j v ms) = if same_text j k then true else has_key k ms

-- `_unique_object` on the pairs of every object: a key that comes twice is an error.
unfoldable mutual
  pub has_unique_keys : Json → Bool
  has_unique_keys json_null = true
  has_unique_keys (json_bool b) = true
  has_unique_keys (json_number n) = true
  has_unique_keys (json_text s) = true
  has_unique_keys (json_array l) = unique_items l
  has_unique_keys (json_object ms) = unique_members ms

  unique_items : Items → Bool
  unique_items no_items = true
  unique_items (item v l) = has_unique_keys v && unique_items l

  unique_members : Members → Bool
  unique_members no_members = true
  unique_members (member k v ms) = not (has_key k ms) && (has_unique_keys v && unique_members ms)
