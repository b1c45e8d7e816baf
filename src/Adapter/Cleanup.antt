-- ===== src/Adapter/Cleanup.antt =====
-- The `finally` of `_owned_compose_runtime`, its lock, and `run_rehearsal`.
-- Before the run: the lock file and whether another run holds it.
use postgres_migration_rehea.Adapter.Faults.{
  runtime_error, Fault, runtime_identity_error, engine_busy, Attempt, done, fault,
}
use postgres_migration_rehea.Adapter.Inspect.{started_runtime}
use postgres_migration_rehea.Adapter.Local.{checked, Resource, resource_ids, same_set}
use postgres_migration_rehea.Adapter.Receipts.{Receipt, Loaded, ControlDir, cleanup_receipt}
use postgres_migration_rehea.Adapter.Runtime.{
  Event, listed, composed_down, inspected, relay_closed, receipted, Answers, Body, Run,
  attempt_body,
}
use postgres_migration_rehea.Base.{
  if◌then◌else◌, length, ℤ, ℕ, Bool, true, false, not, Option, none, some, List, [], ◌∷◌, ◌++◌,
  String,
}
use postgres_migration_rehea.Fixtures.Runtime.{Address}
use postgres_migration_rehea.Http.{Json}

pub record Lock : Type 0 where
  pub opens : Bool
  pub is_free : Bool

module _ {Raw : Type 0} (dumps : Receipt → Raw) (loads : Raw → Loaded) (size : Raw → ℕ)
    (nonce : String) where
  abbrev receipt_of : String → String → ℕ → String → Receipt
  receipt_of state reason remaining exit = record {
    run_nonce = nonce;
    cleanup_state = state;
    reason = reason;
    remaining = remaining;
    child_exit = exit;
  }

  -- A receipt that cannot be written raises in place of what the run was ending with.
  abbrev pub written : Attempt (Unit {0}) × ControlDir Raw → Attempt Json → List Event → Run Raw
  written (done _, d) result events = record { result = result; events = events; directory = d }
  written (fault e, d) result events = record { result = fault e; events = events; directory = d }

  abbrev pub with_receipt_of :
      Answers → Receipt → Attempt Json → List Event → ControlDir Raw → Run Raw
  with_receipt_of a r result events d =
      written (cleanup_receipt dumps loads size a.io r d) result (events ++ receipted r ∷ [])

  abbrev pub blocked :
      Answers → Body → List Resource → String → List Event → ControlDir Raw → Run Raw
  blocked a b left message events d =
      with_receipt_of a (receipt_of "blocked_identity_drift" "identity_drift" (length left) b.exit)
        (fault (runtime_error message)) events d

  abbrev finished : Answers → Body → String → List Event → ControlDir Raw → Run Raw
  finished a b state events d =
      with_receipt_of a (receipt_of state b.reason 0 b.exit) b.result events d

  abbrev stopped : Fault → List Event → ControlDir Raw → Run Raw
  stopped e events d = record { result = fault e; events = events; directory = d }

  abbrev pub counted_left :
      Answers → Body → String → Attempt (List Resource) → List Event → ControlDir Raw → Run Raw
  counted_left a b message (fault e) events d = stopped e events d
  counted_left a b message (done []) events d = finished a b "complete" (events ++ listed [] ∷ []) d
  counted_left a b message (done (r ∷ rs)) events d =
      blocked a b (r ∷ rs) message (events ++ listed (r ∷ rs) ∷ []) d

  -- `down`, and what it leaves.
  abbrev pub taken_down :
      Answers → Body → String → Attempt (Unit {0}) → List Event → ControlDir Raw → Run Raw
  taken_down a b message (fault e) events d = stopped e (events ++ composed_down ∷ []) d
  taken_down a b message (done _) events d =
      counted_left a b message (resource_ids a.remaining) (events ++ composed_down ∷ []) d

  abbrev pub clean_started :
      Answers
      → Body
      → List Resource
      → Attempt (List Resource)
      → List Event
      → ControlDir Raw
      → Run Raw
  clean_started a b owned (fault e) events d = stopped e events d
  clean_started a b owned (done current) events d =
      if same_set current owned
      then taken_down a b "local cleanup did not remove owned resources" (checked a.down)
          (events ++ listed current ∷ []) d
      else blocked a b current "local cleanup blocked by resource identity drift"
          (events ++ listed current ∷ []) d

  abbrev pub partial_inspected :
      Answers → Body → List Resource → Attempt Json → List Event → ControlDir Raw → Run Raw
  partial_inspected a b partial (done v) events d =
      taken_down a b "partial local Compose cleanup did not remove owned resources" (checked a.down)
        (events ++ inspected ∷ []) d
  partial_inspected a b partial (fault (runtime_identity_error message)) events d =
      blocked a b partial "partial local Compose identity drift" events d
  partial_inspected a b partial (fault e) events d = stopped e events d

  module _ (decimal : ℤ → String) (parse : String → Option Address)
      (bind_source project : String) where
    abbrev pub clean_partial :
        Answers → Body → Attempt (List Resource) → List Event → ControlDir Raw → Run Raw
    clean_partial a b (fault e) events d = stopped e events d
    clean_partial a b (done []) events d = finished a b "not_needed" (events ++ listed [] ∷ []) d
    clean_partial a b (done (r ∷ rs)) events d =
        partial_inspected a b (r ∷ rs)
          (started_runtime decimal bind_source project parse (r ∷ rs) a.partial_inspection.0
            a.partial_inspection.1)
          (events ++ listed (r ∷ rs) ∷ []) d

    abbrev pub clean_up_from :
        Answers → Body → Option (List Resource) → Bool → List Event → ControlDir Raw → Run Raw
    clean_up_from a b (some owned) composes events d =
        clean_started a b owned (resource_ids a.current) events d
    clean_up_from a b none true events d = clean_partial a b (resource_ids a.partial) events d
    clean_up_from a b none false events d = finished a b "not_needed" events d

    abbrev relay_ended : Body → List Event
    relay_ended b = if b.relays then b.events ++ relay_closed ∷ [] else b.events

    abbrev pub clean_up : Answers → Body → ControlDir Raw → Run Raw
    clean_up a b d = clean_up_from a b b.started b.composes (relay_ended b) d

    -- `with _owned_compose_runtime(root, nonce) as child: return ...`, the directory being open.
    unfoldable pub owned_compose_runtime :
        (Json → Attempt Json) → Lock → Answers → ControlDir Raw → Run Raw
    unfolding attempt_body cleanup_receipt resource_ids started_runtime
    owned_compose_runtime validate lock a d =
        if not lock.opens
        then stopped (runtime_error "control-room engine lock symlink is refused") [] d
        else if not lock.is_free
        then stopped (engine_busy "bounded local engine is busy") [] d
        else clean_up a (attempt_body decimal parse bind_source project validate a) d
