-- ===== src/Final/Recall.antt =====
-- What a call writes, a later call reads back.
use postgres_migration_rehea.Base.{
  Bool-cases, same_text_refl, ◌≡◌, refl, inl, inr, true, false, Option, none, some, String,
}
use postgres_migration_rehea.Final.Documents.{
  text, null, Mapping, fullmatch_hex, success_status, negative_status, negative_terminal,
  success_terminal, running_marker, make_attempt_id, valid_marker,
}
use postgres_migration_rehea.Final.Once.{call}
use postgres_migration_rehea.Final.Protocol.{
  no_temps, FinalDir, passed, Effect, returned, gate_failure, raised, no_crash, Invocation, Answer,
  terminated, same_status, run_once,
}

abbrev pub fresh_dir : {R : Type 0} → FinalDir R
fresh_dir = record { marker = none; report = none; terminal = none; temps = no_temps; starts = 0 }

-- A call that nothing disturbs, for one commit and protocol.
abbrev pub undisturbed : {R : Type 0} → String → String → Effect R → Invocation R
undisturbed commit protocol e = record {
  symlinked = false;
  lock_safe = true;
  lock_held = false;
  bootstrap_preflight = passed;
  identity = some (commit, protocol);
  preflight = passed;
  effect = e;
  crash = no_crash;
}

module _ {R : Type 0} (digest : String → String → String) (sha256 : R → String)
    (report_status : Option R → Option String) (commit protocol a : String)
    (identified_as : make_attempt_id digest commit protocol ≡ some a)
    (hexadecimal : (r : R) → fullmatch_hex 64 (sha256 r) ≡ true) where
  valid_marker-running : valid_marker digest (running_marker a commit protocol) ≡ some a
  unfolding valid_marker
  valid_marker-running = rw (identified_as, same_text_refl a) refl

  -- The directory after a call that wrote this report and this terminal.
  abbrev finished : Option R → Mapping → FinalDir R
  finished report t = record {
    marker = some (some (running_marker a commit protocol));
    report = report;
    terminal = some (some t);
    temps = no_temps;
    starts = 1;
  }

  abbrev again : Effect R → FinalDir R → Answer × FinalDir R
  again e = call digest sha256 report_status (undisturbed commit protocol e)

  again-internal :
      (e : Effect R)
      → again e (finished none (negative_terminal a "INTERNAL_ERROR" null)) ≡ (
        terminated (negative_terminal a "INTERNAL_ERROR" null),
        finished none (negative_terminal a "INTERNAL_ERROR" null),
      )
  unfolding run_once
  again-internal e = rw (valid_marker-running, same_text_refl a) refl

  again-gate :
      (r : R) (e : Effect R)
      → same_status digest sha256 report_status (report_status (some r)) negative_status ≡ true
      → again e (finished (some r) (negative_terminal a "GATE_FAILED" (text (sha256 r)))) ≡ (
        terminated (negative_terminal a "GATE_FAILED" (text (sha256 r))),
        finished (some r) (negative_terminal a "GATE_FAILED" (text (sha256 r))),
      )
  unfolding run_once
  again-gate r e h =
      rw (valid_marker-running, same_text_refl a, hexadecimal r, h, same_text_refl (sha256 r)) refl

  again-success :
      (r : R) (e : Effect R)
      → same_status digest sha256 report_status (report_status (some r)) success_status ≡ true
      → again e (finished (some r) (success_terminal a (sha256 r))) ≡ (
        terminated (success_terminal a (sha256 r)),
        finished (some r) (success_terminal a (sha256 r)),
      )
  unfolding run_once
  again-success r e h =
      rw (valid_marker-running, same_text_refl a, hexadecimal r, h, same_text_refl (sha256 r)) refl

  abbrev internal : Answer × FinalDir R
  internal = (
    terminated (negative_terminal a "INTERNAL_ERROR" null),
    finished none (negative_terminal a "INTERNAL_ERROR" null),
  )

  first-internal : again raised fresh_dir ≡ internal
  unfolding run_once
  first-internal = rw identified_as refl

  first-success :
      (r : R)
      → same_status digest sha256 report_status (report_status (some r)) success_status ≡ true
      → again (returned r) fresh_dir ≡ (
        terminated (success_terminal a (sha256 r)),
        finished (some r) (success_terminal a (sha256 r)),
      )
  unfolding run_once
  first-success r h = rw (identified_as, h) refl

  first-unsuccessful :
      (r : R)
      → same_status digest sha256 report_status (report_status (some r)) success_status ≡ false
      → again (returned r) fresh_dir ≡ internal
  unfolding run_once
  first-unsuccessful r h = rw (identified_as, h) refl

  first-gate :
      (r : R)
      → same_status digest sha256 report_status (report_status (some r)) negative_status ≡ true
      → again (gate_failure r) fresh_dir ≡ (
        terminated (negative_terminal a "GATE_FAILED" (text (sha256 r))),
        finished (some r) (negative_terminal a "GATE_FAILED" (text (sha256 r))),
      )
  unfolding run_once
  first-gate r h = rw (identified_as, h) refl

  first-ungated :
      (r : R)
      → same_status digest sha256 report_status (report_status (some r)) negative_status ≡ false
      → again (gate_failure r) fresh_dir ≡ internal
  unfolding run_once
  first-ungated r h = rw (identified_as, h) refl

  -- On a fresh directory, for a commit and a protocol hash that `_attempt_id` accepts, and where
  -- digests of reports are 64 hexadecimal characters: whatever the effect of an undisturbed call
  -- does, a second call with any effect returns the very answer of the first and changes nothing.
  pub run_once-recalled : (e e' : Effect R) → again e' (again e fresh_dir).1 ≡ again e fresh_dir
  run_once-recalled raised e' = rw first-internal (again-internal e')
  run_once-recalled (returned r) e' =
      elim (Bool-cases
        (same_status digest sha256 report_status (report_status (some r)) success_status)) [
          | inl accepted ↦ rw (first-success r accepted) (again-success r e' accepted)
          | inr refused ↦ rw (first-unsuccessful r refused) (again-internal e')
        ]
  run_once-recalled (gate_failure r) e' =
      elim (Bool-cases
        (same_status digest sha256 report_status (report_status (some r)) negative_status)) [
          | inl accepted ↦ rw (first-gate r accepted) (again-gate r e' accepted)
          | inr refused ↦ rw (first-ungated r refused) (again-internal e')
        ]
