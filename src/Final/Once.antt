-- ===== src/Final/Once.antt =====
-- The final gate runs at most once, and a terminal that it wrote is what every later call returns.
-- One start at most, and none before the marker is there.
use mathlib.Core.Option.{none-ne-some}
use postgres_migration_rehea.Base.{
  if-cases, ◌≤◌, ◌≡◌, refl, sym, Option, none, some, List, [], ◌∷◌, arith, String,
}
use postgres_migration_rehea.Final.Protocol.{
  Document, Temps, no_temps, stale_temps, unexpected_temps, FinalDir, Preflight, passed, not_passed,
  preflight_raised, Effect, returned, gate_failure, raised, Crash, no_crash, before_recovery,
  after_marker, in_effect, after_report, Invocation, Answer, after_effect, entered, start,
  when_passed, identified, identify, begin_attempt, recover, clean_temps, with_lock, run_once,
}

abbrev pub IsOnce : {R : Type 0} → FinalDir R → Type 0
IsOnce d = (d.starts ≤ 1) × (d.marker ≡ none → d.starts ≡ 0)

module _ {R : Type 0} (digest : String → String → String) (sha256 : R → String)
    (report_status : Option R → Option String) where
  abbrev pub call : Invocation R → FinalDir R → Answer × FinalDir R
  call = run_once digest sha256 report_status

  -- Calls one after the other, each by a process of its own.
  abbrev pub calls : List (Invocation R) → FinalDir R → FinalDir R
  calls [] d = d
  calls (i ∷ rest) d = calls rest (call i d).1

  abbrev LeavesOnce : Answer × FinalDir R → Type 0
  LeavesOnce x = IsOnce x.1

  after_effect-IsOnce :
      (c : Crash) (a : String) (e : Effect R) (d : FinalDir R)
      → IsOnce d
      → LeavesOnce (after_effect digest sha256 report_status c a e d)
  after_effect-IsOnce in_effect a e d once = once
  after_effect-IsOnce no_crash a (returned r) d once = search (if-cases LeavesOnce, once)
  after_effect-IsOnce no_crash a (gate_failure r) d once = search (if-cases LeavesOnce, once)
  after_effect-IsOnce no_crash a raised d once = once
  after_effect-IsOnce before_recovery a (returned r) d once = search (if-cases LeavesOnce, once)
  after_effect-IsOnce before_recovery a (gate_failure r) d once = search (if-cases LeavesOnce, once)
  after_effect-IsOnce before_recovery a raised d once = once
  after_effect-IsOnce after_marker a (returned r) d once = search (if-cases LeavesOnce, once)
  after_effect-IsOnce after_marker a (gate_failure r) d once = search (if-cases LeavesOnce, once)
  after_effect-IsOnce after_marker a raised d once = once
  after_effect-IsOnce after_report a (returned r) d once = search (if-cases LeavesOnce, once)
  after_effect-IsOnce after_report a (gate_failure r) d once = search (if-cases LeavesOnce, once)
  after_effect-IsOnce after_report a raised d once = once

  abbrev opened : String → String → String → FinalDir R → FinalDir R
  opened = entered digest sha256 report_status

  entered-IsOnce :
      (a commit protocol : String) (d : FinalDir R)
      → d.starts ≡ 0
      → IsOnce (opened a commit protocol d)
  entered-IsOnce a commit protocol d h = (omega (arith, h), λ m. absurd (none-ne-some _ (sym m)))

  start-IsOnce :
      (c : Crash) (e : Effect R) (a commit protocol : String) (d : FinalDir R)
      → d.starts ≡ 0
      → LeavesOnce (start digest sha256 report_status c e a commit protocol d)
  start-IsOnce after_marker e a commit protocol d h = (omega (arith, h), λ _. h)
  start-IsOnce no_crash e a commit protocol d h =
      after_effect-IsOnce no_crash a e (opened a commit protocol d)
        (entered-IsOnce a commit protocol d h)
  start-IsOnce before_recovery e a commit protocol d h =
      after_effect-IsOnce before_recovery a e (opened a commit protocol d)
        (entered-IsOnce a commit protocol d h)
  start-IsOnce in_effect e a commit protocol d h = entered-IsOnce a commit protocol d h
  start-IsOnce after_report e a commit protocol d h =
      after_effect-IsOnce after_report a e (opened a commit protocol d)
        (entered-IsOnce a commit protocol d h)

  when_passed-IsOnce :
      (p : Preflight) (d : FinalDir R) (x : Answer × FinalDir R)
      → IsOnce d
      → LeavesOnce x
      → LeavesOnce (when_passed digest sha256 report_status p d x)
  when_passed-IsOnce passed d x h k = k
  when_passed-IsOnce not_passed d x h k = h
  when_passed-IsOnce preflight_raised d x h k = h

  begin_attempt-IsOnce :
      (i : Invocation R) (d : FinalDir R) (marker : Option Document)
      → d.marker ≡ marker
      → IsOnce d
      → LeavesOnce (begin_attempt digest sha256 report_status i d marker)
  begin_attempt-IsOnce i d (some marker) e once = once
  begin_attempt-IsOnce i d none e once =
      when_passed-IsOnce i.bootstrap_preflight d _ once (identify-IsOnce i.identity)
    where
      identified-IsOnce :
          (commit protocol : String) (a : Option String)
          → LeavesOnce (identified digest sha256 report_status i d commit protocol a)
      identified-IsOnce commit protocol none = once
      identified-IsOnce commit protocol (some a) =
          when_passed-IsOnce i.preflight d _ once
            (start-IsOnce i.crash i.effect a commit protocol d (once.1 e))

      identify-IsOnce :
          (o : Option (String × String)) → LeavesOnce (identify digest sha256 report_status i d o)
      identify-IsOnce none = once
      identify-IsOnce (some (commit, protocol)) = identified-IsOnce commit protocol _

  recover-IsOnce :
      (c : Crash) (i : Invocation R) (d : FinalDir R)
      → IsOnce d
      → LeavesOnce (recover digest sha256 report_status c i d)
  recover-IsOnce before_recovery i d once = once
  recover-IsOnce no_crash i d once = begin_attempt-IsOnce i d d.marker refl once
  recover-IsOnce after_marker i d once = begin_attempt-IsOnce i d d.marker refl once
  recover-IsOnce in_effect i d once = begin_attempt-IsOnce i d d.marker refl once
  recover-IsOnce after_report i d once = begin_attempt-IsOnce i d d.marker refl once

  clean_temps-IsOnce :
      (i : Invocation R) (d : FinalDir R) (t : Temps)
      → IsOnce d
      → LeavesOnce (clean_temps digest sha256 report_status i d t)
  clean_temps-IsOnce i d unexpected_temps once = once
  clean_temps-IsOnce i d no_temps once =
      recover-IsOnce i.crash i (record d { temps = no_temps }) once
  clean_temps-IsOnce i d stale_temps once =
      recover-IsOnce i.crash i (record d { temps = no_temps }) once

  with_lock-IsOnce :
      (i : Invocation R) (d : FinalDir R) (t : Option Document)
      → IsOnce d
      → LeavesOnce (with_lock digest sha256 report_status i d t)
  with_lock-IsOnce i d (some terminal) once = search (if-cases LeavesOnce, once)
  with_lock-IsOnce i d none once =
      search (if-cases LeavesOnce, once, clean_temps-IsOnce i d d.temps once)

  run_once-IsOnce : (i : Invocation R) (d : FinalDir R) → IsOnce d → LeavesOnce (call i d)
  unfolding run_once
  run_once-IsOnce i d once =
      search (if-cases LeavesOnce, once, with_lock-IsOnce i d d.terminal once)

  -- However many calls follow each other, whatever their callables do and wherever a process dies,
  -- the effect is started at most once from a directory where it was started at most once, and not
  -- before the marker was written.
  pub calls-IsOnce : (is : List (Invocation R)) (d : FinalDir R) → IsOnce d → IsOnce (calls is d)
  calls-IsOnce [] d once = once
  calls-IsOnce (i ∷ rest) d once = calls-IsOnce rest (call i d).1 (run_once-IsOnce i d once)

  abbrev Leaves : FinalDir R → Answer × FinalDir R → Type 0
  Leaves d x = x.1 ≡ d

  with_lock-terminal :
      (i : Invocation R) (d : FinalDir R) (t : Document) (o : Option Document)
      → o ≡ some t
      → Leaves d (with_lock digest sha256 report_status i d o)
  with_lock-terminal i d t none e = absurd (none-ne-some t e)
  with_lock-terminal i d t (some u) e = search (if-cases (Leaves d))

  -- Once there is a terminal no call changes the directory.
  pub run_once-terminal :
      (i : Invocation R) (d : FinalDir R) (t : Document) → d.terminal ≡ some t → (call i d).1 ≡ d
  unfolding run_once
  run_once-terminal i d t h = search (if-cases (Leaves d), with_lock-terminal i d t d.terminal h)
