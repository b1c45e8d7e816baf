-- ===== src/Adapter/Lookup.antt =====
-- What the adapter asks of parsed documents: Python's `get`, `[]`, `set` and `==` on them.
-- The value of the last pair with a key, as `json.loads` keeps it.
use postgres_migration_rehea.Adapter.Faults.{
  Fault, runtime_identity_error, Attempt, done, fault, is_one_of,
}
use postgres_migration_rehea.Base.{
  if◌then◌else◌, pos, negsuc, eq_ℤ, same_text, ℕ, Bool, true, false, not, ◌&&◌, Option, none, some,
  List, [], ◌∷◌, String,
}
use postgres_migration_rehea.Http.{
  Json, json_null, json_bool, json_number, json_text, json_array, json_object, no_items, item,
  Members, no_members, member, has_key,
}

abbrev pub pick : String → Json → Members → Json
pick k v no_members = v
pick k v (member j w ms) = pick k (if same_text j k then w else v) ms

-- `value.get(key)`, with null for None.
abbrev pub get : Json → String → Json
get (json_object ms) k = pick k json_null ms
get _ k = json_null

abbrev pub is_text : String → Json → Bool
is_text s (json_text t) = same_text t s
is_text s _ = false

abbrev pub is_null : Json → Bool
is_null json_null = true
is_null _ = false

abbrev pub is_false : Json → Bool
is_false (json_bool b) = not b
is_false _ = false

abbrev pub is_true : Json → Bool
is_true (json_bool b) = b
is_true _ = false

-- `== False`, which 0 also is
abbrev pub equals_false : Json → Bool
equals_false (json_bool b) = not b
equals_false (json_number n) = eq_ℤ n (pos 0)
equals_false _ = false

abbrev pub is_exactly_number : ℕ → Json → Bool
is_exactly_number n (json_number m) = eq_ℤ m (pos n)
is_exactly_number n _ = false

abbrev member_keys_among : List String → Members → Bool
member_keys_among ks no_members = true
member_keys_among ks (member k v ms) = is_one_of k ks && member_keys_among ks ms

abbrev all_keys_in : List String → Members → Bool
all_keys_in [] ms = true
all_keys_in (k ∷ ks) ms = has_key k ms && all_keys_in ks ms

-- `isinstance(value, dict) and set(value) == {...}`
abbrev pub keys_are : List String → Json → Bool
keys_are ks (json_object ms) = member_keys_among ks ms && all_keys_in ks ms
keys_are ks _ = false

abbrev pub is_empty_object : Json → Bool
is_empty_object (json_object no_members) = true
is_empty_object _ = false

-- A list of one element.
abbrev pub sole : Json → Option Json
sole (json_array (item v no_items)) = some v
sole _ = none

abbrev pub is_list_of : (Json → Bool) → Json → Bool
is_list_of test (json_array (item v no_items)) = test v
is_list_of test _ = false

-- `value[key]`: a KeyError or a TypeError is reported as a malformed inspection.
abbrev malformed : Fault
malformed = runtime_identity_error "owned local runtime inspection is malformed"

abbrev pub subscript : Json → String → Attempt Json
subscript (json_object ms) k = if has_key k ms then done (pick k json_null ms) else fault malformed
subscript _ k = fault malformed

abbrev pub is_object : Json → Bool
is_object (json_object ms) = true
is_object _ = false

abbrev pub is_minus_one : Json → Bool
is_minus_one (json_number n) = eq_ℤ n (negsuc 0)
is_minus_one _ = false
