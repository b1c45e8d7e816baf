-- ===== src/Adapter/Runtime.antt =====
-- `_owned_compose_runtime` around `_run_child`, given what the system answers to each of its calls.
use postgres_migration_rehea.Adapter.Child.{Process, run_child}
use postgres_migration_rehea.Adapter.Faults.{runtime_error, ◌>>◌, Fault, Attempt, done, fault}
use postgres_migration_rehea.Adapter.Inspect.{started_runtime}
use postgres_migration_rehea.Adapter.Local.{
  Command, checked, Listing, Resource, resource_ids, Host, verify_local_runtime,
}
use postgres_migration_rehea.Adapter.Receipts.{Receipt, ControlDir, Io}
use postgres_migration_rehea.Base.{
  if◌then◌else◌, ℤ, same_text, Bool, true, false, Option, none, some, List, [], ◌∷◌, ◌++◌, String,
}
use postgres_migration_rehea.Fixtures.Runtime.{Address}
use postgres_migration_rehea.Http.{Json}

pub data Event : Type 0 where
  listed : List Resource → Event
  composed_up composed_down inspected : Event
  relay_started relay_closed ran_child : Event
  receipted : Receipt → Event

-- The answers, in the order of the calls; `current`, `partial` and what follows belong to the cleanup.
pub record Answers : Type 0 where
  pub host : Host
  pub before : Listing
  pub up : Command (Unit {0})
  pub after : Listing
  pub inspection : Command (Option Json) × Command (Option Json)
  pub relay : Attempt (Unit {0})
  pub process : Process
  pub healthy : Attempt (Unit {0})
  pub observed : Attempt (Unit {0})
  pub current : Listing
  pub partial : Listing
  pub partial_inspection : Command (Option Json) × Command (Option Json)
  pub down : Command (Unit {0})
  pub remaining : Listing
  pub io : Io

-- What the body of the `try` leaves to its `finally`: its result, the owned set where it has started,
-- whether `compose` is bound, whether the relay is, the reason, the child's exit, and its calls.
pub record Body : Type 0 where
  pub result : Attempt Json
  pub started : Option (List Resource)
  pub composes : Bool
  pub relays : Bool
  pub reason : String
  pub exit : String
  pub events : List Event

pub record Run (Raw : Type 0) : Type 0 where
  pub result : Attempt Json
  pub events : List Event
  pub directory : ControlDir Raw

abbrev pub child_reason : String → String
child_reason exit =
    if same_text exit "not_started"
    then "spawn_failed"
    else if same_text exit "timeout"
    then "engine_timeout"
    else "engine_error"

abbrev pub preflight_rejected : Fault → List Event → Body
preflight_rejected e events = record {
  result = fault e;
  started = none;
  composes = false;
  relays = false;
  reason = "preflight_rejected";
  exit = "not_started";
  events = events;
}

abbrev pub spawn_failed : Fault → Option (List Resource) → List Event → Body
spawn_failed e started events = record {
  result = fault e;
  started = started;
  composes = true;
  relays = false;
  reason = "spawn_failed";
  exit = "not_started";
  events = events;
}

abbrev pub after_child : List Resource → String → String → Attempt Json → List Event → Body
after_child owned reason exit result events = record {
  result = result;
  started = some owned;
  composes = true;
  relays = true;
  reason = reason;
  exit = exit;
  events = events;
}

abbrev pub health_checked : List Resource → String → Json → Attempt (Unit {0}) → List Event → Body
health_checked owned exit v (fault e) events =
    after_child owned "engine_error" exit (fault e) events
health_checked owned exit v (done _) events = after_child owned "success" exit (done v) events

abbrev pub returned_to : Answers → List Resource → String → Attempt Json → List Event → Body
returned_to a owned exit (fault e) events =
    after_child owned (child_reason exit) exit (fault e) events
returned_to a owned exit (done v) events =
    health_checked owned exit v (a.healthy >> a.observed) events

-- `decimal`, `parse` and `bind_source` are those of `started_runtime`; `validate` checks the response.
module _ (decimal : ℤ → String) (parse : String → Option Address) (bind_source project : String)
    (validate : Json → Attempt Json) where
  abbrev pub relay_answered : Answers → List Resource → Attempt (Unit {0}) → List Event → Body
  relay_answered a owned (fault e) events = spawn_failed e (some owned) events
  relay_answered a owned (done _) events =
      let child = run_child validate a.process in
      returned_to a owned child.exit child.outcome (events ++ relay_started ∷ ran_child ∷ [])

  -- `_started_runtime` and `_start_runtime_relay`
  abbrev pub runtime_started : Answers → List Resource → Attempt Json → List Event → Body
  runtime_started a owned (fault e) events = spawn_failed e none events
  runtime_started a owned (done v) events =
      relay_answered a owned a.relay (events ++ inspected ∷ [])

  abbrev pub listed_after : Answers → Attempt (List Resource) → List Event → Body
  listed_after a (fault e) events = spawn_failed e none events
  listed_after a (done []) events =
      spawn_failed (runtime_error "local Compose start created no owned resources") none
        (events ++ listed [] ∷ [])
  listed_after a (done (r ∷ rs)) events =
      runtime_started a (r ∷ rs)
        (started_runtime decimal bind_source project parse (r ∷ rs) a.inspection.0 a.inspection.1)
        (events ++ listed (r ∷ rs) ∷ [])

  abbrev pub composed : Answers → Attempt (Unit {0}) → Body
  composed a (fault e) = spawn_failed e none (listed [] ∷ composed_up ∷ [])
  composed a (done _) = listed_after a (resource_ids a.after) (listed [] ∷ composed_up ∷ [])

  abbrev pub listed_before : Answers → Attempt (List Resource) → Body
  listed_before a (fault e) = preflight_rejected e []
  listed_before a (done (r ∷ rs)) =
      preflight_rejected (runtime_error "fresh local Compose project already owns resources")
        (listed (r ∷ rs) ∷ [])
  listed_before a (done []) = composed a (checked a.up)

  abbrev pub preflighted : Answers → Attempt (Unit {0}) → Body
  preflighted a (fault e) = preflight_rejected e []
  preflighted a (done _) = listed_before a (resource_ids a.before)

  -- The body of the inner `try`.
  unfoldable pub attempt_body : Answers → Body
  unfolding verify_local_runtime resource_ids started_runtime run_child
  attempt_body a = preflighted a (verify_local_runtime a.host)
