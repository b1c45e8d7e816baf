-- ===== src/Adapter/SettledCleanup.antt =====
-- The cleanup returns a result only with the receipt of a success in place.
use postgres_migration_rehea.Adapter.Cleanup.{
  written, with_receipt_of, counted_left, taken_down, clean_started, partial_inspected,
}
use postgres_migration_rehea.Adapter.Faults.{
  runtime_error, Fault, runtime_identity_error, relay_error, engine_busy, key_error, fixture_error,
  command_timeout, os_error, file_not_found, type_error, Attempt, done, fault,
}
use postgres_migration_rehea.Adapter.Local.{checked, Resource, resource_ids, same_set}
use postgres_migration_rehea.Adapter.Receipts.{
  Receipt, Loaded, ControlDir, private_file, success_receipt, cleanup_receipt,
}
use postgres_migration_rehea.Adapter.Runtime.{Event, Answers, Body, Run}
use postgres_migration_rehea.Adapter.Writes.{IsAtomic, cleanup_receipt-IsAtomic}
use postgres_migration_rehea.Base.{◌&&◌, if-cases, ℕ, ◌≡◌, some, List, [], ◌∷◌, String}
use postgres_migration_rehea.Http.{Json}

module _ {Raw : Type 0} (dumps : Receipt → Raw) (loads : Raw → Loaded) (size : Raw → ℕ)
    (nonce : String) (validate : Json → Attempt Json) where
  -- The run returns a validated response, with the receipt of its success in place.
  abbrev pub IsSettled : Attempt Json → ControlDir Raw → Type 0
  IsSettled (fault e) d = Unit
  IsSettled (done v) d =
      ((j : Json) × (validate j ≡ done v))
      × (d.receipt ≡ some (private_file (dumps (success_receipt nonce))))

  abbrev pub IsSettledRun : Run Raw → Type 0
  IsSettledRun r = IsSettled r.result r.directory

  -- What the cleanup may return of a body: a result only with the reason and the exit of a success.
  abbrev pub IsReady : String → String → String → Attempt Json → Type 0
  IsReady state reason exit (fault e) = Unit
  IsReady state reason exit (done v) =
      ((j : Json) × (validate j ≡ done v))
      × ((state ≡ "complete") × ((reason ≡ "success") × (exit ≡ "success")))

  module _ (a : Answers) (b : Body) (d : ControlDir Raw) where
    pub written-fault :
        (out : Attempt (Unit {0}) × ControlDir Raw) (e : Fault) (events : List Event)
        → IsSettledRun (written dumps loads size nonce out (fault e) events)
    written-fault (done _, after) e events = tt
    written-fault (fault _, after) e events = tt

    written-done :
        (out : Attempt (Unit {0}) × ControlDir Raw) (v : Json) (events : List Event)
        → ((j : Json) × (validate j ≡ done v))
        → IsAtomic dumps loads size (a.io.closes && a.io.unlinks) (success_receipt nonce) d out
        → IsSettledRun (written dumps loads size nonce out (done v) events)
    written-done (done _, after) v events good h = (good, h.0)
    written-done (fault _, after) v events good h = tt

    pub finished-IsSettled :
        (state reason exit : String) (result : Attempt Json) (events : List Event)
        → IsReady state reason exit result
        → IsSettledRun (
            with_receipt_of dumps loads size nonce a
              (record {
                run_nonce = nonce;
                cleanup_state = state;
                reason = reason;
                remaining = 0;
                child_exit = exit;
              })
              result
              events
              d)
    unfolding cleanup_receipt
    finished-IsSettled state reason exit (fault e) events ready = written-fault _ e _
    finished-IsSettled state reason exit (done v) events ready =
        rw (ready.1.0, ready.1.1.0, ready.1.1.1)
          (written-done (cleanup_receipt dumps loads size a.io (success_receipt nonce) d) v _
            ready.0 (cleanup_receipt-IsAtomic dumps loads size a.io (success_receipt nonce) d))

    pub counted_left-IsSettled :
        (message : String) (left : Attempt (List Resource)) (events : List Event)
        → IsReady "complete" b.reason b.exit b.result
        → IsSettledRun (counted_left dumps loads size nonce a b message left events d)
    unfolding cleanup_receipt
    counted_left-IsSettled message (fault e) events ready = tt
    counted_left-IsSettled message (done []) events ready =
        finished-IsSettled "complete" b.reason b.exit b.result _ ready
    counted_left-IsSettled message (done (r ∷ rs)) events ready = written-fault _ _ _

    pub taken_down-IsSettled :
        (message : String) (down : Attempt (Unit {0})) (events : List Event)
        → IsReady "complete" b.reason b.exit b.result
        → IsSettledRun (taken_down dumps loads size nonce a b message down events d)
    unfolding resource_ids
    taken_down-IsSettled message (fault e) events ready = tt
    taken_down-IsSettled message (done _) events ready =
        counted_left-IsSettled message (resource_ids a.remaining) _ ready

    pub clean_started-IsSettled :
        (owned : List Resource) (current : Attempt (List Resource)) (events : List Event)
        → IsReady "complete" b.reason b.exit b.result
        → IsSettledRun (clean_started dumps loads size nonce a b owned current events d)
    unfolding cleanup_receipt
    clean_started-IsSettled owned (fault e) events ready = tt
    clean_started-IsSettled owned (done current) events ready =
        if-cases IsSettledRun (same_set current owned) _ _
          (taken_down-IsSettled _ (checked a.down) _ ready) (written-fault _ _ _)

    pub partial_inspected-IsSettled :
        (partial : List Resource) (o : Attempt Json) (events : List Event)
        → IsReady "complete" b.reason b.exit b.result
        → IsSettledRun (partial_inspected dumps loads size nonce a b partial o events d)
    unfolding cleanup_receipt
    partial_inspected-IsSettled partial (done v) events ready =
        taken_down-IsSettled _ (checked a.down) _ ready
    partial_inspected-IsSettled partial (fault (runtime_identity_error m)) events ready =
        written-fault _ _ _
    partial_inspected-IsSettled partial (fault (runtime_error m)) events ready = tt
    partial_inspected-IsSettled partial (fault (relay_error m)) events ready = tt
    partial_inspected-IsSettled partial (fault (engine_busy m)) events ready = tt
    partial_inspected-IsSettled partial (fault (key_error m)) events ready = tt
    partial_inspected-IsSettled partial (fault (fixture_error m n)) events ready = tt
    partial_inspected-IsSettled partial (fault command_timeout) events ready = tt
    partial_inspected-IsSettled partial (fault os_error) events ready = tt
    partial_inspected-IsSettled partial (fault file_not_found) events ready = tt
    partial_inspected-IsSettled partial (fault type_error) events ready = tt
