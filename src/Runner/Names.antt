-- ===== src/Runner/Names.antt =====
-- The gates of the final run, and what a command returned.
use postgres_migration_rehea.Base.{ℤ, pos, eq_ℤ, Bool, List, [], ◌∷◌, String}

pub data Gate : Type 0 where
  ci_static ruff_format ruff_lint mypy gitleaks pip_audit trivy_fs trivy_image : Gate
  compose_start image_identity pytest_coverage compose_cleanup : Gate

abbrev pub gate_name : Gate → String
gate_name ci_static = "ci_static"
gate_name ruff_format = "ruff_format"
gate_name ruff_lint = "ruff_lint"
gate_name mypy = "mypy"
gate_name gitleaks = "gitleaks"
gate_name pip_audit = "pip_audit"
gate_name trivy_fs = "trivy_fs"
gate_name trivy_image = "trivy_image"
gate_name compose_start = "compose_start"
gate_name image_identity = "image_identity"
gate_name pytest_coverage = "pytest_coverage"
gate_name compose_cleanup = "compose_cleanup"

-- `GATE_ORDER[:-1]`
abbrev pub gates_before_cleanup : List Gate
gates_before_cleanup =
    ci_static ∷ ruff_format ∷ ruff_lint ∷ mypy ∷ gitleaks ∷ pip_audit ∷ trivy_fs ∷ trivy_image
    ∷ compose_start ∷ image_identity ∷ pytest_coverage ∷ []

-- What a command returned; an executor that raises counts as exit code 1 (`_safe_execute`).
pub record CommandResult : Type 0 where
  pub exit_code : ℤ
  pub stdout : String
  pub stderr : String

abbrev pub passes : CommandResult → Bool
passes r = eq_ℤ r.exit_code (pos 0)

abbrev pub failing : CommandResult → CommandResult
failing r = record r { exit_code = pos 1 }
