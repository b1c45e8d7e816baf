-- ===== src/Final/Protocol.antt =====
-- `_run_final_once_marker_protocol` on the final directory. The process may die between two of its
-- durable writes; `os.replace` and the exclusive create make each write happen or not.
-- `None` of `_read_canonical_mapping` is `none`.
use postgres_migration_rehea.Base.{
  if◌then◌else◌, same_text, ℕ, suc, Bool, true, false, not, ◌&&◌, Option, none, some, String,
}
use postgres_migration_rehea.Final.Documents.{
  Value, text, null, Mapping, lookup, is_text, success_status, negative_status, negative_terminal,
  success_terminal, running_marker, valid_terminal, make_attempt_id, valid_marker,
}

abbrev pub Document : Type 0
Document = Option Mapping

-- What `_cleanup_stale_temps` finds.
pub data Temps : Type 0 where
  no_temps stale_temps unexpected_temps : Temps

-- `starts` counts how often the effect was started: a ghost that no code reads.
pub record FinalDir (R : Type 0) : Type 0 where
  pub marker : Option Document
  pub report : Option R
  pub terminal : Option Document
  pub temps : Temps
  pub starts : ℕ

pub data Preflight : Type 0 where
  passed not_passed preflight_raised : Preflight

-- How the effect ends: it returns a report, raises `FinalGateFailure` with one, or raises.
pub data Effect (R : Type 0) : Type 0 where
  returned : R → Effect R
  gate_failure : R → Effect R
  raised : Effect R

-- Where the process dies, if it does.
pub data Crash : Type 0 where
  no_crash before_recovery after_marker in_effect after_report : Crash

-- One invocation: the state of the paths and of the lock, and what its callables do.
pub record Invocation (R : Type 0) : Type 0 where
  pub symlinked : Bool
  pub lock_safe : Bool
  pub lock_held : Bool
  pub bootstrap_preflight : Preflight
  pub identity : Option (String × String)
  pub preflight : Preflight
  pub effect : Effect R
  pub crash : Crash

pub data Blocked : Type 0 where
  terminal_path_symlink terminal_lock_unsafe lock_is_held terminal_stale_temp : Blocked
  terminal_marker_mismatch terminal_invalid terminal_attempt_mismatch : Blocked
  terminal_report_mismatch stale_temp_invalid preflight_failed preflight_internal : Blocked

pub data Answer : Type 0 where
  blocked : Blocked → Answer
  terminated : Mapping → Answer
  died : Answer

abbrev zeros : String
zeros = "0000000000000000000000000000000000000000000000000000000000000000"

abbrev is_clean : Temps → Bool
is_clean no_temps = true
is_clean _ = false

-- `digest` is that of `_attempt_id`, `sha256` the hexadecimal SHA-256 of a report and
-- `report_status` is `_report_status`.
module _ {R : Type 0} (digest : String → String → String) (sha256 : R → String)
    (report_status : Option R → Option String) where
  abbrev marker_id : Option Document → Option String
  marker_id none = none
  marker_id (some none) = none
  marker_id (some (some marker)) = valid_marker digest marker

  abbrev pub same_status : Option String → String → Bool
  same_status none s = false
  same_status (some t) s = same_text t s

  abbrev same_digest : Option R → String → Bool
  same_digest none s = false
  same_digest (some r) s = same_text (sha256 r) s

  abbrev expected_status : Mapping → String
  expected_status terminal =
      if is_text success_status (lookup "status" terminal) then success_status else negative_status

  abbrev matches_report : Option R → Mapping → Value → Bool
  matches_report report terminal (text report_sha) =
      same_status (report_status report) (expected_status terminal) && same_digest report report_sha
  matches_report report terminal _ = true

  abbrev read_terminal : Option R → Mapping → String → Answer
  read_terminal report terminal attempt_id =
      if not (is_text attempt_id (lookup "attempt_id" terminal))
      then blocked terminal_attempt_mismatch
      else if not (valid_terminal terminal attempt_id)
      then blocked terminal_invalid
      else if matches_report report terminal (lookup "report_sha256" terminal)
      then terminated terminal
      else blocked terminal_report_mismatch

  -- The answer from a terminal that is there, by the marker and the report beside it.
  abbrev recall : Option R → Document → Option String → Answer
  recall report none none = blocked terminal_marker_mismatch
  recall report (some terminal) none =
      if valid_terminal terminal zeros
      then terminated terminal
      else blocked terminal_marker_mismatch
  recall report none (some attempt_id) = blocked terminal_invalid
  recall report (some terminal) (some attempt_id) = read_terminal report terminal attempt_id

  -- The terminal of a marker that a dead process left.
  abbrev orphan_terminal : Option String → Mapping
  orphan_terminal none = negative_terminal zeros "INTERNAL_ERROR" null
  orphan_terminal (some attempt_id) = negative_terminal attempt_id "INTERRUPTED_AFTER_MARKER" null

  abbrev write_terminal : Mapping → FinalDir R → Answer × FinalDir R
  write_terminal t d = (terminated t, record d { terminal = some (some t) })

  abbrev internal_error : String → Mapping
  internal_error attempt_id = negative_terminal attempt_id "INTERNAL_ERROR" null

  abbrev keep_report : Crash → R → Mapping → FinalDir R → Answer × FinalDir R
  keep_report after_report r t d = (died, record d { report = some r })
  keep_report _ r t d = write_terminal t (record d { report = some r })

  -- From the outcome of the effect on: the report, then the terminal.
  abbrev pub after_effect : Crash → String → Effect R → FinalDir R → Answer × FinalDir R
  after_effect in_effect attempt_id e d = (died, d)
  after_effect c attempt_id (returned r) d =
      if same_status (report_status (some r)) success_status
      then keep_report c r (success_terminal attempt_id (sha256 r)) d
      else write_terminal (internal_error attempt_id) d
  after_effect c attempt_id (gate_failure r) d =
      if same_status (report_status (some r)) negative_status
      then keep_report c r (negative_terminal attempt_id "GATE_FAILED" (text (sha256 r))) d
      else write_terminal (internal_error attempt_id) d
  after_effect c attempt_id raised d = write_terminal (internal_error attempt_id) d

  -- The marker is there and the effect has started.
  abbrev pub entered : String → String → String → FinalDir R → FinalDir R
  entered attempt_id commit protocol d = record d {
    marker = some (some (running_marker attempt_id commit protocol));
    starts = suc d.starts;
  }

  -- The exclusive create of the marker, and the effect.
  abbrev pub start : Crash → Effect R → String → String → String → FinalDir R → Answer × FinalDir R
  start after_marker e attempt_id commit protocol d =
      (died, record d { marker = some (some (running_marker attempt_id commit protocol)) })
  start c e attempt_id commit protocol d =
      after_effect c attempt_id e (entered attempt_id commit protocol d)

  -- What a preflight lets through.
  abbrev pub when_passed : Preflight → FinalDir R → Answer × FinalDir R → Answer × FinalDir R
  when_passed passed d rest = rest
  when_passed not_passed d rest = (blocked preflight_failed, d)
  when_passed preflight_raised d rest = (blocked preflight_internal, d)

  abbrev pub identified :
      Invocation R → FinalDir R → String → String → Option String → Answer × FinalDir R
  identified i d commit protocol none = (blocked preflight_internal, d)
  identified i d commit protocol (some attempt_id) =
      when_passed i.preflight d (start i.crash i.effect attempt_id commit protocol d)

  abbrev pub identify : Invocation R → FinalDir R → Option (String × String) → Answer × FinalDir R
  identify i d none = (blocked preflight_internal, d)
  identify i d (some (commit, protocol)) =
      identified i d commit protocol (make_attempt_id digest commit protocol)

  -- Without a terminal: an orphaned marker, or the preflights.
  abbrev pub begin_attempt : Invocation R → FinalDir R → Option Document → Answer × FinalDir R
  begin_attempt i d (some marker) = write_terminal (orphan_terminal (marker_id (some marker))) d
  begin_attempt i d none = when_passed i.bootstrap_preflight d (identify i d i.identity)

  abbrev pub recover : Crash → Invocation R → FinalDir R → Answer × FinalDir R
  recover before_recovery i d = (died, d)
  recover _ i d = begin_attempt i d d.marker

  abbrev pub clean_temps : Invocation R → FinalDir R → Temps → Answer × FinalDir R
  clean_temps i d unexpected_temps = (blocked stale_temp_invalid, d)
  clean_temps i d _ = recover i.crash i (record d { temps = no_temps })

  abbrev pub with_lock : Invocation R → FinalDir R → Option Document → Answer × FinalDir R
  with_lock i d (some terminal) =
      if not i.lock_safe
      then (blocked terminal_lock_unsafe, d)
      else if i.lock_held
      then (blocked lock_is_held, d)
      else if not (is_clean d.temps)
      then (blocked terminal_stale_temp, d)
      else (recall d.report terminal (marker_id d.marker), d)
  with_lock i d none = if i.lock_held then (blocked lock_is_held, d) else clean_temps i d d.temps

  unfoldable pub run_once : Invocation R → FinalDir R → Answer × FinalDir R
  unfolding valid_terminal valid_marker make_attempt_id
  run_once i d =
      if i.symlinked then (blocked terminal_path_symlink, d) else with_lock i d d.terminal
