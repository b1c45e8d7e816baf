-- ===== src/Runner/Gates.antt =====
-- `run_gates`: the frozen gates in their order, and the cleanup.
-- What the executor, the temporary store and the scanner cache answer. `loads` is what
-- `json.loads` makes of an output.
use postgres_migration_rehea.Base.{
  ltb, if◌then◌else◌, same_text, Bool, true, false, not, ◌&&◌, ◌||◌, Option, List, [], ◌∷◌, ◌++◌,
  String,
}
use postgres_migration_rehea.Http.{Json}
use postgres_migration_rehea.Runner.Names.{
  Gate, gitleaks, pip_audit, trivy_fs, trivy_image, compose_start, image_identity, pytest_coverage,
  compose_cleanup, gates_before_cleanup, CommandResult, passes, failing,
}
use postgres_migration_rehea.Runner.Scanners.{Surface, scanner_surface}

pub record Executions : Type 0 where
  pub plain : Gate → CommandResult
  pub container : CommandResult
  pub container_ids : List String
  pub inspection : CommandResult
  pub inspected_image : String
  pub coverage_is_valid : Bool
  pub exported : CommandResult
  pub store_fails : Bool
  pub store_keeps : Bool
  pub cache_before : Gate → Bool
  pub cache_after : Gate → Bool
  pub loads : String → Option Json
  pub cleanup : CommandResult

abbrev sole_id : List String → Bool
sole_id (s ∷ []) = not (same_text s "")
sole_id _ = false

abbrev image_result : String → Executions → CommandResult
image_result image_id x =
    if passes x.container && sole_id x.container_ids
    then if passes x.inspection && not (same_text x.inspected_image image_id)
      then failing x.inspection
      else x.inspection
    else failing x.container

abbrev scan_fails : Surface → Bool
scan_fails s = not s.is_valid || ltb 0 s.findings

abbrev scanned : Executions → Gate → CommandResult → CommandResult
scanned x gate r =
    if not (passes r) || scan_fails (scanner_surface (x.loads r.stdout) gate) then failing r else r

abbrev coverage_result : Executions → CommandResult → CommandResult
coverage_result x r = if not (passes r) || not x.coverage_is_valid then failing r else r

-- The export, the audit, and the removal of the temporary files.
abbrev audited : Executions → CommandResult
audited x =
    if not (passes x.exported) || same_text x.exported.stdout ""
    then failing x.exported
    else if x.store_fails
    then failing x.exported
    else x.plain pip_audit

abbrev swept : Executions → CommandResult → CommandResult
swept x r = if x.store_keeps then failing r else r

abbrev cache_checked : Executions → Gate → CommandResult
cache_checked x gate =
    if not (x.cache_before gate)
    then failing (x.plain gate)
    else if x.cache_after gate
    then x.plain gate
    else failing (x.plain gate)

-- The branch of the loop for a gate; the texts that replace a failing gate's output are left out.
unfoldable pub gate_result : String → Executions → Gate → CommandResult
unfolding scanner_surface
gate_result image_id x image_identity = image_result image_id x
gate_result image_id x pytest_coverage = coverage_result x (x.plain pytest_coverage)
gate_result image_id x pip_audit = scanned x pip_audit (swept x (audited x))
gate_result image_id x trivy_fs = scanned x trivy_fs (cache_checked x trivy_fs)
gate_result image_id x trivy_image = scanned x trivy_image (cache_checked x trivy_image)
gate_result image_id x gitleaks = scanned x gitleaks (x.plain gitleaks)
gate_result image_id x gate = x.plain gate

-- An entry of `gates`.
pub data GateRecord : Type 0 where
  recorded : CommandResult → GateRecord
  not_run not_needed : GateRecord

abbrev pub is_compose_start : Gate → Bool
is_compose_start compose_start = true
is_compose_start _ = false

-- The gates so far, `failed` and `compose_attempted`.
pub record Progress : Type 0 where
  pub gates : List (Gate × GateRecord)
  pub failed : Bool
  pub compose_attempted : Bool

module _ (result : Gate → CommandResult) where
  -- One turn of the loop.
  abbrev pub gate_turn : Gate → Progress → Progress
  gate_turn gate p =
      if p.failed then record p { gates = p.gates ++ (gate, not_run) ∷ [] } else record {
        gates = p.gates ++ (gate, recorded (result gate)) ∷ [];
        failed = not (passes (result gate));
        compose_attempted = p.compose_attempted || is_compose_start gate;
      }

  unfoldable pub gate_loop : List Gate → Progress → Progress
  gate_loop [] p = p
  gate_loop (gate ∷ gates) p = gate_loop gates (gate_turn gate p)

abbrev pub no_progress : Progress
no_progress = record { gates = []; failed = false; compose_attempted = false }

abbrev pub cleanup_record : Executions → Bool → GateRecord
cleanup_record x true = recorded x.cleanup
cleanup_record x false = not_needed

abbrev pub is_passed : GateRecord → Bool
is_passed (recorded r) = passes r
is_passed _ = false

-- The gates of the report and its status.
abbrev pub cleaned_up : Executions → Progress → List (Gate × GateRecord) × String
cleaned_up x p = (
  p.gates ++ (compose_cleanup, cleanup_record x p.compose_attempted) ∷ [],
  if not p.failed && is_passed (cleanup_record x p.compose_attempted)
      then "PHASE_B_GATES_PASSED_AWAITING_ADVERSARIAL_REVIEW"
      else "HONEST_NEGATIVE",
)

unfoldable pub run_gates : String → Executions → List (Gate × GateRecord) × String
unfolding gate_loop gate_result
run_gates image_id x =
    cleaned_up x (gate_loop (gate_result image_id x) gates_before_cleanup no_progress)
