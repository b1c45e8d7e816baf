-- ===== src/Tests/Gate.antt =====
-- The final gate on small directories.
use postgres_migration_rehea.Base.{
  ◌==◌, if◌then◌else◌, ℕ, ◌≡◌, refl, Option, none, some, [], ◌∷◌, arith, String,
}
use postgres_migration_rehea.Final.{
  FinalDir, returned, in_effect, Invocation, terminated, run_once, null, fullmatch_hex,
  success_status, negative_status, negative_terminal, make_attempt_id,
}
use postgres_migration_rehea.Final.Once.{IsOnce, call, calls, calls-IsOnce, run_once-terminal}
use postgres_migration_rehea.Final.Recall.{fresh_dir, undisturbed, run_once-recalled}

abbrev sixty_four : String
sixty_four = "aaaaaaaaaaaaaaaaaaaaaaaaaaaaaaaaaaaaaaaaaaaaaaaaaaaaaaaaaaaaaaaa"

abbrev forty : String
forty = "bbbbbbbbbbbbbbbbbbbbbbbbbbbbbbbbbbbbbbbb"

abbrev attempt_digest : String → String → String
attempt_digest commit protocol = sixty_four

abbrev report_digest : ℕ → String
report_digest r = sixty_four

-- Report 0 is a success, report 1 an honest negative, and the others are invalid.
abbrev status_of : Option ℕ → Option String
status_of none = none
status_of (some r) =
    if r == 0 then some success_status else if r == 1 then some negative_status else none

abbrev gate_call : Invocation ℕ
gate_call = undisturbed forty sixty_four (returned 0)

-- A call whose process dies while the effect runs.
abbrev dying_call : Invocation ℕ
dying_call = record gate_call { crash = in_effect }

call-interrupted :
    (call attempt_digest report_digest status_of gate_call
      (call attempt_digest report_digest status_of dying_call fresh_dir).1).0
    ≡ terminated (negative_terminal sixty_four "INTERRUPTED_AFTER_MARKER" null)
unfolding run_once fullmatch_hex
call-interrupted = refl

calls-IsOnce_example : IsOnce (
    calls attempt_digest report_digest status_of
      (dying_call ∷ gate_call ∷ gate_call ∷ [])
      fresh_dir)
calls-IsOnce_example =
    calls-IsOnce attempt_digest report_digest status_of (dying_call ∷ gate_call ∷ gate_call ∷ [])
      fresh_dir (omega arith, λ _. refl)

abbrev settled_dir : FinalDir ℕ
settled_dir = record fresh_dir { terminal = some none }

run_once-terminal_example :
    (call attempt_digest report_digest status_of gate_call settled_dir).1 ≡ settled_dir
run_once-terminal_example =
    run_once-terminal attempt_digest report_digest status_of gate_call settled_dir none refl

run_once-recalled_example :
    call attempt_digest report_digest status_of gate_call
      (call attempt_digest report_digest status_of gate_call fresh_dir).1
    ≡ call attempt_digest report_digest status_of gate_call fresh_dir
unfolding make_attempt_id fullmatch_hex
run_once-recalled_example =
    run_once-recalled attempt_digest report_digest status_of forty sixty_four sixty_four refl
      (λ _. refl) (returned 0) (returned 0)
