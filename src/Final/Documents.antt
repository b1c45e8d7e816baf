-- ===== src/Final/Documents.antt =====
-- The JSON mappings of the final directory, and their validators. A mapping is the list of its keys
-- with their values in sorted order: `_read_canonical_mapping` lets no other text through.
use postgres_migration_rehea.Base.{
  leb, ◌==◌, if◌then◌else◌, ℤ, pos, eq_ℤ, same_text, codes_of, ℕ, zero, suc, Bool, true, false, not,
  ◌&&◌, ◌||◌, Option, none, some, List, [], ◌∷◌, String,
}

pub data Value : Type 0 where
  text : String → Value
  whole : ℤ → Value
  null : Value
  another : Value

abbrev pub Mapping : Type 0
Mapping = List (String × Value)

abbrev is_hex : ℕ → Bool
is_hex c = (leb 48 c && leb c 57) || (leb 97 c && leb c 102)

-- `re.compile("[0-9a-f]{n}").fullmatch`, on the code points of a text
abbrev pub hex_codes : ℕ → List ℕ → Bool
hex_codes n [] = n == 0
hex_codes zero (c ∷ cs) = false
hex_codes (suc n) (c ∷ cs) = is_hex c && hex_codes n cs

unfoldable pub fullmatch_hex : ℕ → String → Bool
fullmatch_hex n s = hex_codes n (codes_of s)

abbrev pub lookup : String → Mapping → Value
lookup k [] = another
lookup k ((j, v) ∷ m) = if same_text j k then v else lookup k m

-- `set(mapping) == keys`, with the keys in sorted order
abbrev has_keys : List String → Mapping → Bool
has_keys [] [] = true
has_keys [] (_ ∷ _) = false
has_keys (_ ∷ _) [] = false
has_keys (k ∷ ks) ((j, v) ∷ m) = same_text j k && has_keys ks m

abbrev pub is_text : String → Value → Bool
is_text s (text t) = same_text t s
is_text s _ = false

-- `type(value) is int and value == 1`
abbrev is_one : Value → Bool
is_one (whole n) = eq_ℤ n (pos 1)
is_one _ = false

abbrev is_null_value : Value → Bool
is_null_value null = true
is_null_value _ = false

-- `isinstance(value, str) and _SHA256_RE.fullmatch(value)`
abbrev is_sha256 : Value → Bool
is_sha256 (text s) = fullmatch_hex 64 s
is_sha256 _ = false

abbrev marker_keys : List String
marker_keys = "attempt_id" ∷ "git_commit" ∷ "protocol_sha256" ∷ "schema_version" ∷ "status" ∷ []

abbrev terminal_keys : List String
terminal_keys = "attempt_id" ∷ "reason_code" ∷ "report_sha256" ∷ "schema_version" ∷ "status" ∷ []

abbrev pub success_status : String
success_status = "PHASE_B_GATES_PASSED_AWAITING_ADVERSARIAL_REVIEW"

abbrev pub negative_status : String
negative_status = "HONEST_NEGATIVE"

abbrev pub negative_terminal : String → String → Value → Mapping
negative_terminal attempt_id reason_code report_sha256 =
    ("attempt_id", text attempt_id)
    ∷ ("reason_code", text reason_code)
    ∷ ("report_sha256", report_sha256)
    ∷ ("schema_version", whole (pos 1))
    ∷ ("status", text negative_status)
    ∷ []

abbrev pub success_terminal : String → String → Mapping
success_terminal attempt_id report_sha256 =
    ("attempt_id", text attempt_id)
    ∷ ("reason_code", text "ALL_GATES_PASSED")
    ∷ ("report_sha256", text report_sha256)
    ∷ ("schema_version", whole (pos 1))
    ∷ ("status", text success_status)
    ∷ []

abbrev pub running_marker : String → String → String → Mapping
running_marker attempt_id git_commit protocol_sha256 =
    ("attempt_id", text attempt_id)
    ∷ ("git_commit", text git_commit)
    ∷ ("protocol_sha256", text protocol_sha256)
    ∷ ("schema_version", whole (pos 1))
    ∷ ("status", text "RUNNING")
    ∷ []

-- `_valid_terminal`
unfoldable pub valid_terminal : Mapping → String → Bool
valid_terminal terminal attempt_id =
    let reason = lookup "reason_code" terminal in
    let report_sha = lookup "report_sha256" terminal in
    if not (has_keys terminal_keys terminal && is_one (lookup "schema_version" terminal))
    then false
    else if not (is_text attempt_id (lookup "attempt_id" terminal))
    then false
    else if is_text success_status (lookup "status" terminal)
    then is_text "ALL_GATES_PASSED" reason && is_sha256 report_sha
    else if not (is_text negative_status (lookup "status" terminal))
    then false
    else if is_text "GATE_FAILED" reason
    then is_sha256 report_sha
    else (is_text "INTERRUPTED_AFTER_MARKER" reason || is_text "INTERNAL_ERROR" reason)
      && is_null_value report_sha

-- `digest` is the hexadecimal SHA-256 of `f"{git_commit}\n{protocol_sha256}\n"`.
module _ (digest : String → String → String) where
  -- `_attempt_id`; `none` is its ValueError.
  unfoldable pub make_attempt_id : String → String → Option String
  make_attempt_id git_commit protocol_sha256 =
      if fullmatch_hex 40 git_commit && fullmatch_hex 64 protocol_sha256
      then some (digest git_commit protocol_sha256)
      else none

  abbrev same_attempt : String → Option String → Option String
  same_attempt attempt_id none = none
  same_attempt attempt_id (some expected) =
      if same_text attempt_id expected then some attempt_id else none

  abbrev checked_marker : Value → Value → Value → Option String
  checked_marker (text attempt_id) (text git_commit) (text protocol_sha256) =
      same_attempt attempt_id (make_attempt_id git_commit protocol_sha256)
  checked_marker _ _ _ = none

  -- `_valid_marker`
  unfoldable pub valid_marker : Mapping → Option String
  unfolding make_attempt_id
  valid_marker marker =
      if has_keys marker_keys marker
        && (is_one (lookup "schema_version" marker) && is_text "RUNNING" (lookup "status" marker))
      then checked_marker (lookup "attempt_id" marker) (lookup "git_commit" marker)
          (lookup "protocol_sha256" marker)
      else none
