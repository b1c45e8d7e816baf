-- ===== src/Adapter/Completes.antt =====
-- A run in which the container runtime answers every call.
use postgres_migration_rehea.Adapter.Child.{run_child}
use postgres_migration_rehea.Adapter.Cleanup.{owned_compose_runtime}
use postgres_migration_rehea.Adapter.Directory.{Opened}
use postgres_migration_rehea.Adapter.Faults.{◌>>◌, Attempt, done}
use postgres_migration_rehea.Adapter.Inspect.{started_runtime}
use postgres_migration_rehea.Adapter.Local.{
  checked, Resource, resource_ids, same_set, verify_local_runtime,
}
use postgres_migration_rehea.Adapter.Receipts.{
  Receipt, Loaded, File, io_fine, private_file, success_receipt, is_safe_target, cleanup_receipt,
}
use postgres_migration_rehea.Adapter.Runtime.{
  Event, listed, composed_up, composed_down, inspected, relay_started, relay_closed, ran_child,
  receipted, Answers, attempt_body,
}
use postgres_migration_rehea.Base.{ℤ, ℕ, ◌≡◌, refl, true, Option, none, some, List, [], ◌∷◌, String}
use postgres_migration_rehea.Final.{fullmatch_hex}
use postgres_migration_rehea.Fixtures.Runtime.{Address}
use postgres_migration_rehea.Http.{Json}

module _ {Raw : Type 0} (dumps : Receipt → Raw) (loads : Raw → Loaded) (size : Raw → ℕ)
    (nonce : String) (decimal : ℤ → String) (parse : String → Option Address)
    (bind_source project : String) (validate : Json → Attempt Json) where
  -- The answers of such a run: the runtime is the frozen one, the project is new, `up` starts
  -- resources that pass the inspection and are still there after the child, and `down` removes
  -- them.
  pub record IsServing (a : Answers) : Type 0 where
    pub verified : verify_local_runtime a.host ≡ done tt
    pub is_new : resource_ids a.before ≡ done []
    pub is_up : checked a.up ≡ done tt
    pub first : Resource
    pub others : List Resource
    pub starts : resource_ids a.after ≡ done (first ∷ others)
    pub seen : Json
    pub passes :
        started_runtime decimal bind_source project parse
          (first ∷ others)
          a.inspection.0
          a.inspection.1
        ≡ done seen
    pub relays : a.relay ≡ done tt
    pub is_healthy : (a.healthy >> a.observed) ≡ done tt
    pub still : List Resource
    pub lists : resource_ids a.current ≡ done still
    pub is_same : same_set still (first ∷ others) ≡ true
    pub is_down : checked a.down ≡ done tt
    pub leaves_none : resource_ids a.remaining ≡ done []
    pub writes : a.io ≡ io_fine

  -- The calls of such a run.
  abbrev pub calls_of : Resource → List Resource → List Resource → List Event
  calls_of first others still =
      listed []
      ∷ composed_up
      ∷ listed (first ∷ others)
      ∷ inspected
      ∷ relay_started
      ∷ ran_child
      ∷ relay_closed
      ∷ listed still
      ∷ composed_down
      ∷ listed []
      ∷ receipted (success_receipt nonce)
      ∷ []

  pub owned_compose_runtime-completes :
      (a : Answers) (v : Json) (before : Option (File Raw)) (lock : Opened)
      → fullmatch_hex 16 nonce ≡ true
      → is_safe_target before ≡ true
      → run_child validate a.process ≡ record { exit = "success"; outcome = done v }
      → (h : IsServing a)
      → owned_compose_runtime dumps loads size nonce decimal parse bind_source project validate
          (record { opens = true; is_free = true })
          a
          (record { receipt = before; temp = none; lock = lock })
        ≡ record {
          result = done v;
          events = calls_of h.first h.others h.still;
          directory = record {
            receipt = some (private_file (dumps (success_receipt nonce)));
            temp = none;
            lock = lock;
          };
        }
  unfolding owned_compose_runtime cleanup_receipt attempt_body
  owned_compose_runtime-completes a v before lock hex safe returns h =
      rw
        (
          h.verified, h.is_new, h.is_up, h.starts, h.passes, h.relays, returns, h.is_healthy,
          h.lists, h.is_same, h.is_down, h.leaves_none, h.writes, hex, safe,
        )
        refl
