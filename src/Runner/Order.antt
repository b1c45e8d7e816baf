-- ===== src/Runner/Order.antt =====
-- What the gate loop leaves, and that its statuses are in the order that `_valid_report` asks for.
use mathlib.Core.List.{append-nil, append_assoc}
use postgres_migration_rehea.Base.{
  if◌then◌else◌, ◌≡◌, refl, sym, ap, ◌∙◌, Bool, true, false, not, ◌&&◌, ◌||◌, some, List, [], ◌∷◌,
  ◌++◌, String,
}
use postgres_migration_rehea.Runner.Gates.{
  GateRecord, recorded, not_run, not_needed, is_compose_start, Progress, gate_loop,
}
use postgres_migration_rehea.Runner.Names.{
  Gate, ci_static, ruff_format, ruff_lint, mypy, gitleaks, pip_audit, trivy_fs, trivy_image,
  compose_start, image_identity, pytest_coverage, compose_cleanup, gates_before_cleanup,
  CommandResult, passes,
}
use postgres_migration_rehea.Runner.Report.{
  GateStatus, pass, fail, not_run_status, not_needed_status, Statuses, valid_order,
}

abbrev pub record_of : Bool → CommandResult → GateRecord
record_of true r = not_run
record_of false r = recorded r

abbrev pub status_if : Bool → Bool → GateStatus
status_if true b = not_run_status
status_if false b = if b then pass else fail

abbrev pub status_of_record : GateRecord → GateStatus
status_of_record (recorded r) = if passes r then pass else fail
status_of_record not_run = not_run_status
status_of_record not_needed = not_needed_status

-- The gates' records, `failed` and `compose_attempted` after the loop, from the gates' results alone.
module _ (result : Gate → CommandResult) where
  abbrev pub records : List Gate → Bool → List (Gate × GateRecord)
  records [] halted = []
  records (g ∷ gs) halted =
      (g, record_of halted (result g)) ∷ records gs (halted || not (passes (result g)))

abbrev pub any_failed : (Gate → Bool) → List Gate → Bool → Bool
any_failed p [] halted = halted
any_failed p (g ∷ gs) halted = any_failed p gs (halted || not (p g))

abbrev pub attempted : (Gate → Bool) → List Gate → Bool → Bool → Bool
attempted p [] halted a = a
attempted p (g ∷ gs) halted a =
    attempted p gs (halted || not (p g)) (a || (not halted && is_compose_start g))

abbrev pub progress_of : (Gate → CommandResult) → List Gate → Progress → Progress
progress_of result gs p = record {
  gates = p.gates ++ records result gs p.failed;
  failed = any_failed (λ g. passes (result g)) gs p.failed;
  compose_attempted = attempted (λ g. passes (result g)) gs p.failed p.compose_attempted;
}

or_false : (a : Bool) → (a || false) ≡ a
or_false true = refl
or_false false = refl

pub gate_loop_lem :
    (result : Gate → CommandResult) (gs : List Gate) (ps : List (Gate × GateRecord))
    (halted a : Bool)
    → gate_loop result gs (record { gates = ps; failed = halted; compose_attempted = a })
      ≡ progress_of result gs (record { gates = ps; failed = halted; compose_attempted = a })
unfolding gate_loop
gate_loop_lem result [] ps halted a =
    ap (λ l. record { gates = l; failed = halted; compose_attempted = a }) (sym (append-nil ps))
gate_loop_lem result (g ∷ gs) ps true a =
    gate_loop_lem result gs (ps ++ (g, not_run) ∷ []) true a
    ∙ rw (or_false a, append_assoc ps ((g, not_run) ∷ []) (records result gs true)) refl
gate_loop_lem result (g ∷ gs) ps false a =
    gate_loop_lem result gs (ps ++ (g, recorded (result g)) ∷ []) (not (passes (result g)))
      (a || is_compose_start g)
    ∙ rw
        (append_assoc ps ((g, recorded (result g)) ∷ [])
          (records result gs (not (passes (result g)))))
        refl

-- The gates that pass, one Boolean for each.
abbrev choose : (b₁ b₂ b₃ b₄ b₅ b₆ b₇ b₈ b₉ b₁₀ b₁₁ : Bool) → Gate → Bool
choose b₁ b₂ b₃ b₄ b₅ b₆ b₇ b₈ b₉ b₁₀ b₁₁ ci_static = b₁
choose b₁ b₂ b₃ b₄ b₅ b₆ b₇ b₈ b₉ b₁₀ b₁₁ ruff_format = b₂
choose b₁ b₂ b₃ b₄ b₅ b₆ b₇ b₈ b₉ b₁₀ b₁₁ ruff_lint = b₃
choose b₁ b₂ b₃ b₄ b₅ b₆ b₇ b₈ b₉ b₁₀ b₁₁ mypy = b₄
choose b₁ b₂ b₃ b₄ b₅ b₆ b₇ b₈ b₉ b₁₀ b₁₁ gitleaks = b₅
choose b₁ b₂ b₃ b₄ b₅ b₆ b₇ b₈ b₉ b₁₀ b₁₁ pip_audit = b₆
choose b₁ b₂ b₃ b₄ b₅ b₆ b₇ b₈ b₉ b₁₀ b₁₁ trivy_fs = b₇
choose b₁ b₂ b₃ b₄ b₅ b₆ b₇ b₈ b₉ b₁₀ b₁₁ trivy_image = b₈
choose b₁ b₂ b₃ b₄ b₅ b₆ b₇ b₈ b₉ b₁₀ b₁₁ compose_start = b₉
choose b₁ b₂ b₃ b₄ b₅ b₆ b₇ b₈ b₉ b₁₀ b₁₁ image_identity = b₁₀
choose b₁ b₂ b₃ b₄ b₅ b₆ b₇ b₈ b₉ b₁₀ b₁₁ pytest_coverage = b₁₁
choose b₁ b₂ b₃ b₄ b₅ b₆ b₇ b₈ b₉ b₁₀ b₁₁ compose_cleanup = false

abbrev pub expected : (Gate → Bool) → List Gate → Bool → Statuses
expected p [] halted = []
expected p (g ∷ gs) halted = some (status_if halted (p g)) ∷ expected p gs (halted || not (p g))

abbrev pub cleanup_status : Bool → Bool → GateStatus
cleanup_status true c = if c then pass else fail
cleanup_status false c = not_needed_status

abbrev pub report_status : Bool → Bool → String
report_status halted c =
    if not halted && c
    then "PHASE_B_GATES_PASSED_AWAITING_ADVERSARIAL_REVIEW"
    else "HONEST_NEGATIVE"

abbrev pub IsOrderedReport : (Gate → Bool) → Bool → Type 0
IsOrderedReport p c =
    valid_order
      (report_status (any_failed p gates_before_cleanup false)
        (attempted p gates_before_cleanup false false && c))
      (expected p gates_before_cleanup false)
      (some (cleanup_status (attempted p gates_before_cleanup false false) c))
    ≡ true

pub ordered_report :
    (b₁ b₂ b₃ b₄ b₅ b₆ b₇ b₈ b₉ b₁₀ b₁₁ c : Bool)
    → IsOrderedReport (choose b₁ b₂ b₃ b₄ b₅ b₆ b₇ b₈ b₉ b₁₀ b₁₁) c
unfolding valid_order
ordered_report false b₂ b₃ b₄ b₅ b₆ b₇ b₈ b₉ b₁₀ b₁₁ c = refl
ordered_report true false b₃ b₄ b₅ b₆ b₇ b₈ b₉ b₁₀ b₁₁ c = refl
ordered_report true true false b₄ b₅ b₆ b₇ b₈ b₉ b₁₀ b₁₁ c = refl
ordered_report true true true false b₅ b₆ b₇ b₈ b₉ b₁₀ b₁₁ c = refl
ordered_report true true true true false b₆ b₇ b₈ b₉ b₁₀ b₁₁ c = refl
ordered_report true true true true true false b₇ b₈ b₉ b₁₀ b₁₁ c = refl
ordered_report true true true true true true false b₈ b₉ b₁₀ b₁₁ c = refl
ordered_report true true true true true true true false b₉ b₁₀ b₁₁ c = refl
ordered_report true true true true true true true true false b₁₀ b₁₁ true = refl
ordered_report true true true true true true true true false b₁₀ b₁₁ false = refl
ordered_report true true true true true true true true true false b₁₁ true = refl
ordered_report true true true true true true true true true false b₁₁ false = refl
ordered_report true true true true true true true true true true false true = refl
ordered_report true true true true true true true true true true false false = refl
ordered_report true true true true true true true true true true true true = refl
ordered_report true true true true true true true true true true true false = refl
