-- ===== src/Runner/Scanners.antt =====
-- `_scanner_surface` and `_scanner_summary`: what is read in the output of a scanner.
use postgres_migration_rehea.Adapter.{get, keys_are, is_object}
use postgres_migration_rehea.Base.{
  ltb, if◌then◌else◌, same_text, ℕ, ◌+◌, Bool, true, false, not, ◌&&◌, Option, none, some, [], ◌∷◌,
}
use postgres_migration_rehea.Fixtures.{count_items}
use postgres_migration_rehea.Http.{Json, json_null, json_text, json_array, Items, no_items, item}
use postgres_migration_rehea.Runner.Names.{Gate, gitleaks, pip_audit}

pub record Surface : Type 0 where
  pub is_valid : Bool
  pub findings : ℕ
  pub targets : ℕ

abbrev invalid_surface : Surface
invalid_surface = record { is_valid = false; findings = 0; targets = 0 }

abbrev all_items : (Json → Bool) → Items → Bool
all_items test no_items = true
all_items test (item v vs) = test v && all_items test vs

abbrev is_list_with : (Json → Bool) → Json → Bool
is_list_with test (json_array l) = all_items test l
is_list_with test _ = false

abbrev size_of : Json → ℕ
size_of (json_array l) = count_items l
size_of _ = 0

-- `isinstance(value, str) and value`
abbrev is_some_text : Json → Bool
is_some_text (json_text s) = not (same_text s "")
is_some_text _ = false

-- A missing or null list counts for nothing.
abbrev is_finding_list : Json → Bool
is_finding_list json_null = true
is_finding_list v = is_list_with is_object v

abbrev is_target : Json → Bool
is_target v =
    is_some_text (get v "Target")
    && (is_finding_list (get v "Vulnerabilities")
        && (is_finding_list (get v "Misconfigurations") && is_finding_list (get v "Secrets")))

abbrev findings_of : Json → ℕ
findings_of v =
    size_of (get v "Vulnerabilities")
    + (size_of (get v "Misconfigurations") + size_of (get v "Secrets"))

abbrev sum_items : (Json → ℕ) → Items → ℕ
sum_items f no_items = 0
sum_items f (item v vs) = f v + sum_items f vs

abbrev summary_of_results : Json → Surface
summary_of_results (json_array l) =
    if all_items is_target l
    then record {
      is_valid = ltb 0 (count_items l);
      findings = sum_items findings_of l;
      targets = count_items l;
    }
    else invalid_surface
summary_of_results _ = invalid_surface

abbrev is_dependency : Json → Bool
is_dependency v =
    is_some_text (get v "name")
    && (is_some_text (get v "version") && is_list_with is_object (get v "vulns"))

abbrev vulnerabilities_of : Json → ℕ
vulnerabilities_of v = size_of (get v "vulns")

abbrev audit_of_dependencies : Json → Bool → Surface
audit_of_dependencies (json_array l) fixes =
    if fixes && (ltb 0 (count_items l) && all_items is_dependency l)
    then record {
      is_valid = true;
      findings = sum_items vulnerabilities_of l;
      targets = count_items l;
    }
    else invalid_surface
audit_of_dependencies _ fixes = invalid_surface

abbrev audit_surface : Json → Surface
audit_surface v =
    if keys_are ("dependencies" ∷ "fixes" ∷ []) v
    then audit_of_dependencies (get v "dependencies") (is_list_with is_object (get v "fixes"))
    else invalid_surface

abbrev secrets_surface : Json → Surface
secrets_surface (json_array l) =
    if all_items is_object l
    then record { is_valid = true; findings = count_items l; targets = 1 }
    else invalid_surface
secrets_surface _ = invalid_surface

abbrev surface_of : Json → Gate → Surface
surface_of v gitleaks = secrets_surface v
surface_of v pip_audit = audit_surface v
surface_of v gate = summary_of_results (get v "Results")

-- `none` is an output that is not JSON.
unfoldable pub scanner_surface : Option Json → Gate → Surface
scanner_surface none gate = invalid_surface
scanner_surface (some v) gate = surface_of v gate
