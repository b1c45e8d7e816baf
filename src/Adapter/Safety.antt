-- ===== src/Adapter/Safety.antt =====
-- The order of the calls of a whole run, and what its receipt says of the resources that are left.
use postgres_migration_rehea.Adapter.Cleanup.{clean_up}
use postgres_migration_rehea.Adapter.Receipts.{Receipt, Loaded, ControlDir}
use postgres_migration_rehea.Adapter.Runtime.{Event, Answers, Body}
use postgres_migration_rehea.Base.{ℤ, ℕ, Option, List, String}
use postgres_migration_rehea.Fixtures.Runtime.{Address}

module _ {Raw : Type 0} (dumps : Receipt → Raw) (loads : Raw → Loaded) (size : Raw → ℕ)
    (nonce : String) where
  module _ (decimal : ℤ → String) (parse : String → Option Address) (bind_source project : String)
      (a : Answers) (d : ControlDir Raw) where
    abbrev cleaned : Body → List Event
    cleaned b = (clean_up dumps loads size nonce decimal parse bind_source project a b d).events
