-- ===== src/Runner/Ordered.antt =====
-- The report of `run_gates` passes the tests of `_valid_report` on its gates.
use mathlib.Core.Path.{subst}
use postgres_migration_rehea.Adapter.{keys_are}
use postgres_migration_rehea.Base.{
  Bool-cases, ◌≡◌, refl, sym, ap, inl, inr, Bool, true, false, ◌&&◌, Option, some, [], ◌∷◌, ◌++◌,
  String,
}
use postgres_migration_rehea.Final.{fullmatch_hex}
use postgres_migration_rehea.Http.{Json}
use postgres_migration_rehea.Runner.Gates.{
  Executions, gate_result, GateRecord, recorded, not_run, not_needed, Progress, cleanup_record,
  is_passed, cleaned_up, run_gates,
}
use postgres_migration_rehea.Runner.Names.{
  Gate, ci_static, ruff_format, ruff_lint, mypy, gitleaks, pip_audit, trivy_fs, trivy_image,
  compose_start, image_identity, pytest_coverage, compose_cleanup, gates_before_cleanup,
  CommandResult, passes,
}
use postgres_migration_rehea.Runner.Order.{
  record_of, status_if, status_of_record, records, any_failed, attempted, gate_loop_lem, expected,
  cleanup_status, report_status, ordered_report,
}
use postgres_migration_rehea.Runner.Report.{
  GateStatus, record_json, gates_json, valid_gate, status_of_gate, Statuses, valid_order,
  valid_each, statuses_of, names_before_cleanup, valid_gates,
}

module _ (sha256 : String → String)
    (hexadecimal : (s : String) → fullmatch_hex 64 (sha256 s) ≡ true) where
  valid_gate-record_json : (r : GateRecord) → valid_gate (record_json sha256 r) ≡ true
  unfolding valid_gate
  valid_gate-record_json not_run = refl
  valid_gate-record_json not_needed = refl
  valid_gate-record_json (recorded r) = elim (Bool-cases (passes r)) [
    | inl ok ↦ rw (ok, hexadecimal r.stdout, hexadecimal r.stderr) (rw (ok) refl)
    | inr bad ↦ rw (bad, hexadecimal r.stdout, hexadecimal r.stderr) (rw (bad) refl)
  ]

  status_of_gate-record_json :
      (r : GateRecord) → status_of_gate (record_json sha256 r) ≡ some (status_of_record r)
  unfolding status_of_gate
  status_of_gate-record_json not_run = refl
  status_of_gate-record_json not_needed = refl
  status_of_gate-record_json (recorded r) = elim (Bool-cases (passes r)) [
    | inl ok ↦ rw (ok) refl
    | inr bad ↦ rw (bad) refl
  ]

  -- The gate's record in the report, by whether an earlier gate failed.
  status_of_gate-turn :
      (halted : Bool) (r : CommandResult)
      → status_of_gate (record_json sha256 (record_of halted r))
        ≡ some (status_if halted (passes r))
  status_of_gate-turn true r = status_of_gate-record_json not_run
  status_of_gate-turn false r = status_of_gate-record_json (recorded r)

  status_of_gate-cleanup :
      (x : Executions) (a : Bool)
      → status_of_gate (record_json sha256 (cleanup_record x a))
        ≡ some (cleanup_status a (passes x.cleanup))
  status_of_gate-cleanup x true = status_of_gate-record_json (recorded x.cleanup)
  status_of_gate-cleanup x false = status_of_gate-record_json not_needed

  is_passed-cleanup :
      (x : Executions) (a : Bool) → is_passed (cleanup_record x a) ≡ (a && passes x.cleanup)
  is_passed-cleanup x true = refl
  is_passed-cleanup x false = refl

  -- What is printed for the gates with these results.
  abbrev printed_gates : (Gate → CommandResult) → Executions → Json
  printed_gates result x = gates_json sha256 (
      records result gates_before_cleanup false
      ++ (
        compose_cleanup,
        cleanup_record x (attempted (λ g. passes (result g)) gates_before_cleanup false false),
      )
        ∷ [])

  keys_are-printed :
      (result : Gate → CommandResult) (x : Executions)
      → keys_are (names_before_cleanup ++ "compose_cleanup" ∷ []) (printed_gates result x) ≡ true
  keys_are-printed result x = refl

  valid_each-printed :
      (result : Gate → CommandResult) (x : Executions)
      → valid_each (names_before_cleanup ++ "compose_cleanup" ∷ []) (printed_gates result x) ≡ true
  valid_each-printed result x = simp (valid_gate-record_json)

  statuses_of-printed :
      (result : Gate → CommandResult) (x : Executions)
      → statuses_of names_before_cleanup (printed_gates result x)
        ≡ expected (λ g. passes (result g)) gates_before_cleanup false
  statuses_of-printed result x = simp (status_of_gate-turn)

  all_hold :
      (k e : Bool) (ss ss' : Statuses) (c c' : Option GateStatus) (st st' : String)
      → k ≡ true
      → e ≡ true
      → ss ≡ ss'
      → c ≡ c'
      → st ≡ st'
      → valid_order st' ss' c' ≡ true
      → (k && (e && valid_order st ss c)) ≡ true
  all_hold k e ss ss' c c' st st' hk he hs hc ht h = rw (hk, he, hs, hc, ht) h

  module _ (result : Gate → CommandResult) (x : Executions) where
    abbrev reached : Bool
    reached = attempted (λ g. passes (result g)) gates_before_cleanup false false

    abbrev halted_at_end : Bool
    halted_at_end = any_failed (λ g. passes (result g)) gates_before_cleanup false

    valid_gates-printed :
        valid_gates
          (report_status halted_at_end (is_passed (cleanup_record x reached)))
          (printed_gates result x)
        ≡ true
    unfolding valid_gates
    valid_gates-printed =
        all_hold
          (keys_are (names_before_cleanup ++ "compose_cleanup" ∷ []) (printed_gates result x))
          (valid_each (names_before_cleanup ++ "compose_cleanup" ∷ []) (printed_gates result x))
          (statuses_of names_before_cleanup (printed_gates result x))
          (expected (λ g. passes (result g)) gates_before_cleanup false)
          (status_of_gate (record_json sha256 (cleanup_record x reached)))
          (some (cleanup_status reached (passes x.cleanup)))
          (report_status halted_at_end (is_passed (cleanup_record x reached)))
          (report_status halted_at_end (reached && passes x.cleanup)) (keys_are-printed result x)
          (valid_each-printed result x) (statuses_of-printed result x)
          (status_of_gate-cleanup x reached)
          (ap (report_status halted_at_end) (is_passed-cleanup x reached))
          (ordered_report (passes (result ci_static)) (passes (result ruff_format))
            (passes (result ruff_lint)) (passes (result mypy)) (passes (result gitleaks))
            (passes (result pip_audit)) (passes (result trivy_fs)) (passes (result trivy_image))
            (passes (result compose_start)) (passes (result image_identity))
            (passes (result pytest_coverage)) (passes x.cleanup))

  -- From any answers of the executor: the gates and the status that `run_gates` reports pass the tests
  -- of `_valid_report` on them. Every gate has a valid record, all before the first failure passed, none
  -- after it ran but the cleanup, which ran if and only if `compose_start` was reached, and the status
  -- is the success status only if all twelve passed.
  pub valid_gates-run_gates :
      (image_id : String) (x : Executions)
      → valid_gates (run_gates image_id x).1 (gates_json sha256 (run_gates image_id x).0) ≡ true
  unfolding run_gates
  valid_gates-run_gates image_id x =
      subst
        (λ (p : Progress).
          valid_gates (cleaned_up x p).1 (gates_json sha256 (cleaned_up x p).0) ≡ true)
        (sym (gate_loop_lem (gate_result image_id x) gates_before_cleanup [] false false))
        (valid_gates-printed (gate_result image_id x) x)
