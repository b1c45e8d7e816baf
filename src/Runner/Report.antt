-- ===== src/Runner/Report.antt =====
-- The gates in a report: how they are printed, and what `_valid_report` asks of them.
use postgres_migration_rehea.Adapter.{get, keys_are}
use postgres_migration_rehea.Base.{
  ltb, if◌then◌else◌, take, drop, pos, eq_ℤ, same_text, ℕ, suc, Bool, true, false, not, ◌&&◌, ◌||◌,
  Option, none, some, List, [], ◌∷◌, ◌++◌, map, String,
}
use postgres_migration_rehea.Final.{fullmatch_hex}
use postgres_migration_rehea.Http.{Json, json_number, json_text}
use postgres_migration_rehea.Response.{object_of}
use postgres_migration_rehea.Runner.Gates.{GateRecord, recorded, not_run, not_needed}
use postgres_migration_rehea.Runner.Names.{Gate, gate_name, gates_before_cleanup, passes}

pub data GateStatus : Type 0 where
  pass fail not_run_status not_needed_status : GateStatus

-- `_record`; `sha256` is the digest of an output.
module _ (sha256 : String → String) where
  abbrev pub record_json : GateRecord → Json
  record_json (recorded r) = object_of (
      ("exit_code", json_number r.exit_code)
      ∷ ("status", json_text (if passes r then "PASS" else "FAIL"))
      ∷ ("stderr_sha256", json_text (sha256 r.stderr))
      ∷ ("stdout_sha256", json_text (sha256 r.stdout))
      ∷ [])
  record_json not_run = object_of (("status", json_text "NOT_RUN") ∷ [])
  record_json not_needed = object_of (("status", json_text "NOT_NEEDED") ∷ [])

  abbrev pub named_json : Gate × GateRecord → String × Json
  named_json (gate, r) = (gate_name gate, record_json r)

  abbrev pub gates_json : List (Gate × GateRecord) → Json
  gates_json gates = object_of (map named_json gates)

-- A status is one of the four.
abbrev read_status : Json → Option GateStatus
read_status (json_text s) =
    if same_text s "PASS"
    then some pass
    else if same_text s "FAIL"
    then some fail
    else if same_text s "NOT_RUN"
    then some not_run_status
    else if same_text s "NOT_NEEDED"
    then some not_needed_status
    else none
read_status _ = none

abbrev is_hex_digest : Json → Bool
is_hex_digest (json_text s) = fullmatch_hex 64 s
is_hex_digest _ = false

abbrev exit_fits : GateStatus → Json → Bool
exit_fits pass (json_number n) = eq_ℤ n (pos 0)
exit_fits fail (json_number n) = not (eq_ℤ n (pos 0))
exit_fits _ _ = false

abbrev has_run : GateStatus → Json → Bool
has_run s v =
    keys_are ("exit_code" ∷ "status" ∷ "stdout_sha256" ∷ "stderr_sha256" ∷ []) v
    && (exit_fits s (get v "exit_code")
        && (is_hex_digest (get v "stdout_sha256") && is_hex_digest (get v "stderr_sha256")))

abbrev fits_status : Option GateStatus → Json → Bool
fits_status none v = false
fits_status (some pass) v = has_run pass v
fits_status (some fail) v = has_run fail v
fits_status (some s) v = keys_are ("status" ∷ []) v

-- One turn of the loop over the gates.
unfoldable pub valid_gate : Json → Bool
valid_gate v = fits_status (read_status (get v "status")) v

-- `gate["status"]` of a gate that passed the loop.
unfoldable pub status_of_gate : Json → Option GateStatus
status_of_gate v = read_status (get v "status")

abbrev pub Statuses : Type 0
Statuses = List (Option GateStatus)

abbrev is_pass : Option GateStatus → Bool
is_pass (some pass) = true
is_pass _ = false

abbrev is_fail : Option GateStatus → Bool
is_fail (some fail) = true
is_fail _ = false

abbrev is_not_run : Option GateStatus → Bool
is_not_run (some not_run_status) = true
is_not_run _ = false

abbrev is_not_needed : Option GateStatus → Bool
is_not_needed (some not_needed_status) = true
is_not_needed _ = false

abbrev all_of : (Option GateStatus → Bool) → Statuses → Bool
all_of test [] = true
all_of test (s ∷ ss) = test s && all_of test ss

-- `next((index for ... if value == "FAIL"), None)`, from an index on.
abbrev first_failure_from : ℕ → Statuses → Option ℕ
first_failure_from i [] = none
first_failure_from i (s ∷ ss) = if is_fail s then some i else first_failure_from (suc i) ss

-- Before the first failure all passed, after it none ran but the cleanup, which ran if and only if
-- `compose_start`, at index 8, was reached. `before` are the gates before the cleanup.
abbrev order_fits : Option ℕ → Statuses → Option GateStatus → Bool
order_fits none before cleanup = true
order_fits (some i) before cleanup =
    all_of is_pass (take i before)
    && (all_of is_not_run (drop (suc i) before)
        && (if ltb i 8 then is_not_needed cleanup else is_pass cleanup || is_fail cleanup))

abbrev status_fits : String → Statuses → Bool
status_fits status ss =
    if same_text status "PHASE_B_GATES_PASSED_AWAITING_ADVERSARIAL_REVIEW"
    then all_of is_pass ss
    else same_text status "HONEST_NEGATIVE" && not (all_of (λ s. not (is_fail s)) ss)

unfoldable pub valid_order : String → Statuses → Option GateStatus → Bool
valid_order status before cleanup =
    status_fits status (before ++ cleanup ∷ [])
    && order_fits (first_failure_from 0 (before ++ cleanup ∷ [])) before cleanup

abbrev pub valid_each : List String → Json → Bool
valid_each [] v = true
valid_each (name ∷ names) v = valid_gate (get v name) && valid_each names v

abbrev pub statuses_of : List String → Json → Statuses
statuses_of [] v = []
statuses_of (name ∷ names) v = status_of_gate (get v name) ∷ statuses_of names v

abbrev pub names_before_cleanup : List String
names_before_cleanup = map gate_name gates_before_cleanup

-- The tests of `_valid_report` on `gates` and `status`.
unfoldable pub valid_gates : String → Json → Bool
valid_gates status gates =
    keys_are (names_before_cleanup ++ "compose_cleanup" ∷ []) gates
    && (valid_each (names_before_cleanup ++ "compose_cleanup" ∷ []) gates
        && valid_order status (statuses_of names_before_cleanup gates)
            (status_of_gate (get gates "compose_cleanup")))
