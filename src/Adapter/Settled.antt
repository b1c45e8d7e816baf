-- ===== src/Adapter/Settled.antt =====
-- What a run that returns has left behind.
use postgres_migration_rehea.Adapter.Answered.{IsAnswered, run_child-IsAnswered}
use postgres_migration_rehea.Adapter.Child.{Child, run_child}
use postgres_migration_rehea.Adapter.Cleanup.{Lock, clean_partial, clean_up, owned_compose_runtime}
use postgres_migration_rehea.Adapter.Faults.{◌>>◌, Fault, Attempt, done, fault}
use postgres_migration_rehea.Adapter.Inspect.{started_runtime}
use postgres_migration_rehea.Adapter.Local.{checked, Resource, resource_ids, verify_local_runtime}
use postgres_migration_rehea.Adapter.Receipts.{Receipt, Loaded, ControlDir}
use postgres_migration_rehea.Adapter.Runtime.{
  Event, listed, composed_up, Answers, Body, child_reason, preflight_rejected, spawn_failed,
  after_child, health_checked, returned_to, relay_answered, runtime_started, listed_after, composed,
  listed_before, preflighted,
}
use postgres_migration_rehea.Adapter.SettledCleanup.{
  IsSettledRun, IsReady, finished-IsSettled, clean_started-IsSettled, partial_inspected-IsSettled,
}
use postgres_migration_rehea.Base.{
  if-cases, ℤ, ℕ, ◌≡◌, refl, not, Option, none, some, List, [], ◌∷◌, ◌++◌, String,
}
use postgres_migration_rehea.Fixtures.Runtime.{Address}
use postgres_migration_rehea.Http.{Json}

module _ {Raw : Type 0} (dumps : Receipt → Raw) (loads : Raw → Loaded) (size : Raw → ℕ)
    (nonce : String) (validate : Json → Attempt Json) where
  module _ (decimal : ℤ → String) (parse : String → Option Address) (bind_source project : String)
      (a : Answers) (d : ControlDir Raw) where
    abbrev IsSettledBody : Body → Type 0
    IsSettledBody b =
        IsSettledRun dumps loads size nonce validate
          (clean_up dumps loads size nonce decimal parse bind_source project a b d)

    rejected-IsSettled :
        (e : Fault) (events : List Event) → IsSettledBody (preflight_rejected e events)
    rejected-IsSettled e events =
        finished-IsSettled dumps loads size nonce validate a (preflight_rejected e events) d
          "not_needed" "preflight_rejected" "not_started" (fault e) events tt

    spawn_failed-IsSettled :
        (e : Fault) (events : List Event) → IsSettledBody (spawn_failed e none events)
    unfolding resource_ids started_runtime
    spawn_failed-IsSettled e events = partial_set (resource_ids a.partial)
      where
        partial_set :
            (o : Attempt (List Resource))
            → IsSettledRun dumps loads size nonce validate (
                clean_partial dumps loads size nonce decimal parse bind_source project a
                  (spawn_failed e none events)
                  o
                  events
                  d)
        partial_set (fault f) = tt
        partial_set (done []) =
            finished-IsSettled dumps loads size nonce validate a (spawn_failed e none events) d
              "not_needed" "spawn_failed" "not_started" (fault e) _ tt
        partial_set (done (r ∷ rs)) =
            partial_inspected-IsSettled dumps loads size nonce validate a
              (spawn_failed e none events) d (r ∷ rs)
              (started_runtime decimal bind_source project parse (r ∷ rs) a.partial_inspection.0
                a.partial_inspection.1)
              _ tt

    owned-IsSettled :
        (owned : List Resource) (b : Body)
        → b.started ≡ some owned
        → IsReady dumps loads size nonce validate "complete" b.reason b.exit b.result
        → IsSettledBody b
    unfolding resource_ids
    owned-IsSettled owned b e ready = rw (e) (
        clean_started-IsSettled dumps loads size nonce validate a b d owned (resource_ids a.current)
          _ ready)

    health_checked-IsSettled :
        (owned : List Resource) (v : Json) (o : Attempt (Unit {0})) (events : List Event)
        → ((j : Json) × (validate j ≡ done v))
        → IsSettledBody (health_checked owned "success" v o events)
    health_checked-IsSettled owned v (fault e) events good =
        owned-IsSettled owned (after_child owned "engine_error" "success" (fault e) events) refl tt
    health_checked-IsSettled owned v (done _) events good =
        owned-IsSettled owned (after_child owned "success" "success" (done v) events) refl
          (good, (refl, (refl, refl)))

    returned_to-IsSettled :
        (owned : List Resource) (c : Child) (events : List Event)
        → IsAnswered validate c
        → IsSettledBody (returned_to a owned c.exit c.outcome events)
    returned_to-IsSettled owned c events h = by_outcome c.exit c.outcome h
      where
        by_outcome :
            (exit : String) (o : Attempt Json)
            → IsAnswered validate (record { exit = exit; outcome = o })
            → IsSettledBody (returned_to a owned exit o events)
        by_outcome exit (fault e) h =
            owned-IsSettled owned (after_child owned (child_reason exit) exit (fault e) events) refl
              tt
        by_outcome exit (done v) h =
            rw (h.0) (health_checked-IsSettled owned v (a.healthy >> a.observed) events h.1)

    relay_answered-IsSettled :
        (owned : List Resource) (o : Attempt (Unit {0})) (events : List Event)
        → IsSettledBody (relay_answered decimal parse bind_source project validate a owned o events)
    unfolding run_child
    relay_answered-IsSettled owned (fault e) events =
        owned-IsSettled owned (spawn_failed e (some owned) events) refl tt
    relay_answered-IsSettled owned (done _) events =
        returned_to-IsSettled owned (run_child validate a.process) _
          (run_child-IsAnswered validate a.process)

    runtime_started-IsSettled :
        (owned : List Resource) (o : Attempt Json) (events : List Event)
        → IsSettledBody
            (runtime_started decimal parse bind_source project validate a owned o events)
    runtime_started-IsSettled owned (fault e) events = spawn_failed-IsSettled e events
    runtime_started-IsSettled owned (done v) events = relay_answered-IsSettled owned a.relay _

    listed_after-IsSettled :
        (o : Attempt (List Resource)) (events : List Event)
        → IsSettledBody (listed_after decimal parse bind_source project validate a o events)
    unfolding started_runtime
    listed_after-IsSettled (fault e) events = spawn_failed-IsSettled e events
    listed_after-IsSettled (done []) events = spawn_failed-IsSettled _ (events ++ listed [] ∷ [])
    listed_after-IsSettled (done (r ∷ rs)) events =
        runtime_started-IsSettled (r ∷ rs)
          (started_runtime decimal bind_source project parse (r ∷ rs) a.inspection.0 a.inspection.1)
          _

    composed-IsSettled :
        (o : Attempt (Unit {0}))
        → IsSettledBody (composed decimal parse bind_source project validate a o)
    unfolding resource_ids
    composed-IsSettled (fault e) = spawn_failed-IsSettled e (listed [] ∷ composed_up ∷ [])
    composed-IsSettled (done _) = listed_after-IsSettled (resource_ids a.after) _

    listed_before-IsSettled :
        (o : Attempt (List Resource))
        → IsSettledBody (listed_before decimal parse bind_source project validate a o)
    listed_before-IsSettled (fault e) = rejected-IsSettled e []
    listed_before-IsSettled (done []) = composed-IsSettled (checked a.up)
    listed_before-IsSettled (done (r ∷ rs)) = rejected-IsSettled _ (listed (r ∷ rs) ∷ [])

    preflighted-IsSettled :
        (o : Attempt (Unit {0}))
        → IsSettledBody (preflighted decimal parse bind_source project validate a o)
    unfolding resource_ids
    preflighted-IsSettled (fault e) = rejected-IsSettled e []
    preflighted-IsSettled (done _) = listed_before-IsSettled (resource_ids a.before)

    -- A run that returns, returns what the validation made of the child's document, and the control
    -- directory then holds the receipt of its success: complete, nothing remaining, the child's exit a
    -- success.
    pub owned_compose_runtime-IsSettled :
        (lock : Lock)
        → IsSettledRun dumps loads size nonce validate (
            owned_compose_runtime dumps loads size nonce decimal parse bind_source project validate
              lock a d)
    unfolding owned_compose_runtime
    owned_compose_runtime-IsSettled lock =
        if-cases (IsSettledRun dumps loads size nonce validate) (not lock.opens) _ _ tt (
          if-cases (IsSettledRun dumps loads size nonce validate) (not lock.is_free) _ _ tt
            (preflighted-IsSettled (verify_local_runtime a.host)))
