-- ===== src/Scenarios/Served.antt =====
-- A rehearsal of a served scenario, from the database engine to the response.
use postgres_migration_rehea.Adapter.{
  Command, exited, Receipt, Loaded, File, private_file, success_receipt, is_safe_target, Metadata,
  Opened, open_control_directory, Attempt, done, is_one_of, Process, run_child,
}
use postgres_migration_rehea.Adapter.Completes.{
  IsServing, calls_of, owned_compose_runtime-completes,
}
use postgres_migration_rehea.Base.{
  length, ℤ, pos, ℕ, ◌≤◌, ◌<◌, ◌≡◌, refl, ◌⊎◌, inl, inr, true, Option, none, some, [], arith,
  String, ◌<>◌,
}
use postgres_migration_rehea.Database.{Version, Digest}
use postgres_migration_rehea.Engine.{idle, run}
use postgres_migration_rehea.Engine.Rehearsal.{report, run_lem}
use postgres_migration_rehea.Engine.Stages.{IsOrdered}
use postgres_migration_rehea.Final.{fullmatch_hex}
use postgres_migration_rehea.Fixtures.{max_rows, validate_rows}
use postgres_migration_rehea.Fixtures.Bounds.{IsSound, validate_rows-IsSound}
use postgres_migration_rehea.Fixtures.Runtime.{Address}
use postgres_migration_rehea.Http.{Json}
use postgres_migration_rehea.Response.{validate_engine_response, rows_json, response, main}
use postgres_migration_rehea.Response.Accepted.{validate_engine_response-printed}
use postgres_migration_rehea.Scenarios.Load.{
  scenario_ids, small_shop_rows, pinned_rows, fixture_rows,
}
use postgres_migration_rehea.Scenarios.Rehearse.{Surroundings, run_rehearsal}

IsSound-small_shop : IsSound [] small_shop_rows
unfolding validate_rows
IsSound-small_shop = validate_rows-IsSound (rows_json small_shop_rows) small_shop_rows refl

abbrev pub IsServed : String → Type 0
IsServed id = (id ≡ "small-shop") ⊎ (id ≡ "empty-ledger")

pinned-IsSound : (id : String) → IsServed id → IsSound [] (pinned_rows id)
pinned-IsSound id (inl e) = rw (e) IsSound-small_shop
pinned-IsSound id (inr e) = rw (e) tt

pinned-few : (id : String) → IsServed id → length (pinned_rows id) ≤ max_rows
pinned-few id (inl e) = rw (e) (omega arith)
pinned-few id (inr e) = rw (e) (omega arith)

pinned-IsOrdered : (id : String) → IsServed id → IsOrdered (pinned_rows id)
pinned-IsOrdered id (inl e) = rw (e) (ground arith)
pinned-IsOrdered id (inr e) = rw (e) (ground arith)

known_scenario : (id : String) → IsServed id → is_one_of id scenario_ids ≡ true
known_scenario id (inl e) = rw (e) refl
known_scenario id (inr e) = rw (e) refl

module _ {Raw : Type 0} (dumps_receipt : Receipt → Raw) (loads_receipt : Raw → Loaded)
    (size : Raw → ℕ) (decimal : ℤ → String) (parse : String → Option Address) (bind_source : String)
    (hashes : Version → String) (dumps : Json → String) (sha256 : String → String)
    (hexadecimal : (t : String) → fullmatch_hex 64 (sha256 t) ≡ true) (checksum : Version → Digest)
    (fuel oid : ℕ) (id : String) (served : IsServed id)
    (enough : length (pinned_rows id) < fuel) where
  -- What the child prints for the scenario's rows, on an idle server.
  abbrev pub child_output : Command (Option Json)
  child_output =
      main hashes dumps sha256 id (pinned_rows id) (run checksum fuel (pinned_rows id) oid idle).0

  abbrev pub printed_response : Json
  printed_response =
      response hashes dumps sha256 id (pinned_rows id) (report checksum fuel (pinned_rows id)) true

  child_output_lem : child_output ≡ exited (pos 0) (some printed_response)
  unfolding main
  child_output_lem =
      rw (run_lem checksum fuel (pinned_rows id) (pinned-IsOrdered id served) enough oid) refl

  abbrev validate : Json → Attempt Json
  validate = validate_engine_response hashes dumps sha256 (some id) (some (pinned_rows id))

  run_child-served :
      (p : Process)
      → p.spawns ≡ true
      → p.has_pidfd ≡ true
      → p.communicated ≡ child_output
      → run_child validate p ≡ record { exit = "success"; outcome = done printed_response }
  unfolding run_child response
  run_child-served p spawns pidfd output =
      rw
        (
          spawns,
          pidfd,
          output,
          child_output_lem,
          validate_engine_response-printed hashes dumps sha256 hexadecimal checksum fuel
              (pinned_rows id) (pinned-IsSound id served) (pinned-few id served) id served,
        )
        refl

  -- Where the fixture file is accepted, the control directory is private and nothing is in the way of
  -- its receipt, the lock is free, the container runtime answers every call, and the child prints what
  -- the engine's run gives on an idle server, the rehearsal of a served scenario returns that very
  -- response, and the success receipt is in place.
  pub run_rehearsal-served :
      (s : Surroundings) (m : Metadata) (before : Option (File Raw)) (lock_file : Opened)
      → s.has_pidfd ≡ true
      → fullmatch_hex 16 s.nonce ≡ true
      → fixture_rows s.fixtures id ≡ done (pinned_rows id)
      → open_control_directory s.root_opens true s.makes s.control ≡ done m
      → s.lock ≡ record { opens = true; is_free = true }
      → is_safe_target before ≡ true
      → s.answers.process.spawns ≡ true
      → s.answers.process.has_pidfd ≡ true
      → s.answers.process.communicated ≡ child_output
      → (h : IsServing dumps_receipt loads_receipt size s.nonce decimal parse bind_source
          ("pmr-control-room-" <> s.nonce)
          validate
          s.answers)
      → run_rehearsal dumps_receipt loads_receipt size decimal parse bind_source hashes dumps sha256
          s id
          (record { receipt = before; temp = none; lock = lock_file })
        ≡ record {
          result = done printed_response;
          events =
              calls_of dumps_receipt loads_receipt size s.nonce decimal parse bind_source
                ("pmr-control-room-" <> s.nonce)
                validate
                h.first
                h.others
                h.still;
          directory = record {
            receipt = some (private_file (dumps_receipt (success_receipt s.nonce)));
            temp = none;
            lock = lock_file;
          };
        }
  unfolding run_rehearsal
  run_rehearsal-served s m before lock_file pidfd hex rows opens lock safe spawns has_pidfd output
        h =
      rw (known_scenario id served, pidfd, hex, rows, opens, lock)
        (owned_compose_runtime-completes dumps_receipt loads_receipt size s.nonce decimal parse
          bind_source ("pmr-control-room-" <> s.nonce) validate s.answers printed_response before
          lock_file hex safe (run_child-served s.answers.process spawns has_pidfd output) h)
