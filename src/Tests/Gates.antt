-- ===== src/Tests/Gates.antt =====
-- A final run in which the type checker fails, and one in which only the cleanup does.
use postgres_migration_rehea.Base.{
  if◌then◌else◌, pos, same_text, ℕ, ◌≡◌, refl, true, false, Option, some, [], ◌∷◌, String,
}
use postgres_migration_rehea.Final.{fullmatch_hex}
use postgres_migration_rehea.Http.{Json, json_text, json_array, no_items}
use postgres_migration_rehea.Response.{object_of, list_of}
use postgres_migration_rehea.Runner.{
  Gate, ci_static, ruff_format, ruff_lint, mypy, gitleaks, pip_audit, trivy_fs, trivy_image,
  compose_start, image_identity, pytest_coverage, compose_cleanup, gate_name, CommandResult,
  gates_json, valid_gates, Executions, recorded, not_run, not_needed, run_gates,
}
use postgres_migration_rehea.Runner.Ordered.{valid_gates-run_gates}

abbrev gate_digest : String → String
gate_digest s = "aaaaaaaaaaaaaaaaaaaaaaaaaaaaaaaaaaaaaaaaaaaaaaaaaaaaaaaaaaaaaaaa"

gate_digest-hexadecimal : (s : String) → fullmatch_hex 64 (gate_digest s) ≡ true
unfolding fullmatch_hex
gate_digest-hexadecimal s = refl

abbrev returning : ℕ → Gate → CommandResult
returning n gate = record { exit_code = pos n; stdout = gate_name gate; stderr = "" }

abbrev mypy_fails : Gate → CommandResult
mypy_fails mypy = returning 1 mypy
mypy_fails gate = returning 0 gate

abbrev no_texts : Json
no_texts = json_array no_items

abbrev dependency : Json
dependency =
    object_of (("name", json_text "uv") ∷ ("version", json_text "1") ∷ ("vulns", no_texts) ∷ [])

-- The outputs of the scanners, by their text.
abbrev scans : String → Option Json
scans s =
    if same_text s "gitleaks"
    then some no_texts
    else if same_text s "pip_audit"
    then some (object_of (("dependencies", list_of (dependency ∷ [])) ∷ ("fixes", no_texts) ∷ []))
    else some (
        object_of (("Results", list_of (object_of (("Target", json_text "image") ∷ []) ∷ [])) ∷ []))

abbrev executions : (Gate → CommandResult) → CommandResult → Executions
executions plain cleanup = record {
  plain = plain;
  container = returning 0 image_identity;
  container_ids = "id" ∷ [];
  inspection = returning 0 image_identity;
  inspected_image = "image";
  coverage_is_valid = true;
  exported = returning 0 pip_audit;
  store_fails = false;
  store_keeps = false;
  cache_before = λ gate. true;
  cache_after = λ gate. true;
  loads = scans;
  cleanup = cleanup;
}

type_check_failed : run_gates "image" (executions mypy_fails (returning 0 compose_cleanup)) ≡ (
  (ci_static, recorded (returning 0 ci_static))
      ∷ (ruff_format, recorded (returning 0 ruff_format))
      ∷ (ruff_lint, recorded (returning 0 ruff_lint))
      ∷ (mypy, recorded (returning 1 mypy))
      ∷ (gitleaks, not_run)
      ∷ (pip_audit, not_run)
      ∷ (trivy_fs, not_run)
      ∷ (trivy_image, not_run)
      ∷ (compose_start, not_run)
      ∷ (image_identity, not_run)
      ∷ (pytest_coverage, not_run)
      ∷ (compose_cleanup, not_needed)
      ∷ [],
  "HONEST_NEGATIVE",
)
unfolding run_gates
type_check_failed = refl

all_passed :
    (run_gates "image" (executions (returning 0) (returning 0 compose_cleanup))).1
    ≡ "PHASE_B_GATES_PASSED_AWAITING_ADVERSARIAL_REVIEW"
unfolding run_gates
all_passed = refl

only_cleanup_failed :
    (run_gates "image" (executions (returning 0) (returning 1 compose_cleanup))).1
    ≡ "HONEST_NEGATIVE"
unfolding run_gates
only_cleanup_failed = refl

valid_gates-run_gates_example :
    valid_gates (run_gates "image" (executions mypy_fails (returning 0 compose_cleanup))).1 (
      gates_json gate_digest
        (run_gates "image" (executions mypy_fails (returning 0 compose_cleanup))).0)
    ≡ true
valid_gates-run_gates_example =
    valid_gates-run_gates gate_digest gate_digest-hexadecimal "image"
      (executions mypy_fails (returning 0 compose_cleanup))
