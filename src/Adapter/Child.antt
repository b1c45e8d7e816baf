-- ===== src/Adapter/Child.antt =====
-- `_run_child`: the engine's process and the exit that is recorded for it.
-- A process that does not decode as text, and a signal that cannot be sent, are not modelled.
-- How the process behaves: whether it is spawned, whether it gets a descriptor, what `communicate`
-- gives (`none` is an output that is not JSON), whether it still runs in the `finally`, and whether it
-- ends within five seconds of SIGTERM and of SIGKILL.
use postgres_migration_rehea.Adapter.Faults.{
  runtime_error, command_timeout, os_error, Attempt, done, fault,
}
use postgres_migration_rehea.Adapter.Local.{Command, exited, ran_out}
use postgres_migration_rehea.Base.{
  if◌then◌else◌, pos, eq_ℤ, Bool, true, false, not, ◌||◌, Option, some, String,
}
use postgres_migration_rehea.Http.{Json, json_object}

pub record Process : Type 0 where
  pub spawns : Bool
  pub has_pidfd : Bool
  pub communicated : Command (Option Json)
  pub still_runs : Bool
  pub heeds_sigterm : Bool
  pub heeds_sigkill : Bool

-- `child["exit"]`, with what the call returns or raises.
pub record Child : Type 0 where
  pub exit : String
  pub outcome : Attempt Json

abbrev pub killed : Bool → Attempt Json → Attempt Json
killed true outcome = outcome
killed false outcome = fault command_timeout

-- The `finally` block, for a process that may still run.
abbrev pub reap : Process → Child → Child
reap p c =
    if not p.still_runs || p.heeds_sigterm
    then c
    else record { exit = "signal"; outcome = killed p.heeds_sigkill c.outcome }

abbrev invalid_evidence : Child
invalid_evidence = record {
  exit = "error";
  outcome = fault (runtime_error "bounded local engine returned invalid evidence");
}

-- A response that is rejected leaves the exit as it was.
abbrev pub validated_child : Attempt Json → Child
validated_child (fault e) = record { exit = "not_started"; outcome = fault e }
validated_child (done v) = record { exit = "success"; outcome = done v }

module _ (validate : Json → Attempt Json) where
  abbrev pub answered : Option Json → Child
  answered (some (json_object ms)) = validated_child (validate (json_object ms))
  answered _ = invalid_evidence

  abbrev pub ended : Process → Command (Option Json) → Child
  ended p ran_out = reap p (record {
    exit = "timeout";
    outcome = fault (runtime_error "bounded local engine timed out");
  })
  ended p (exited code output) = if eq_ℤ code (pos 0) then answered output else record {
    exit = "error";
    outcome = fault (runtime_error "bounded local engine did not complete");
  }

  unfoldable pub run_child : Process → Child
  run_child p =
      if not p.spawns
      then record { exit = "not_started"; outcome = fault os_error }
      else if not p.has_pidfd
      then reap p (record {
        exit = "error";
        outcome = fault (runtime_error "Linux pidfd support is required");
      })
      else ended p p.communicated
