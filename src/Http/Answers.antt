-- ===== src/Http/Answers.antt =====
-- The answers of the methods that start nothing.
use postgres_migration_rehea.Base.{
  if-cases, ◌≡◌, refl, Bool, true, false, Option, none, some, List, String,
}
use postgres_migration_rehea.Http.Handler.{Event}
use postgres_migration_rehea.Http.Pages.{
  static_asset_of, get_asset, get_historical, do_get, not_allowed,
}
use postgres_migration_rehea.Http.Requests.{Request}
use postgres_migration_rehea.Http.Safety.{answers}

module _ (A : Type 0) where
  abbrev One : List (Event A) → Type 0
  One es = answers es ≡ 1

  -- A GET, whatever its path and headers, is answered exactly once, and so is a request by a method
  -- that is not allowed.
  pub do_get-answers :
      (host : String) (has_historical : Bool) (request : Request)
      → (answers (do_get {A = A} host has_historical request) ≡ 1)
        × (answers (not_allowed {A = A} host request) ≡ 1)
  unfolding do_get not_allowed
  do_get-answers host has_historical request = (
    search
        (
          if-cases One,
          historical_answers has_historical,
          asset_answers (static_asset_of request.path),
        )
        depth 12,
    search (if-cases One),
  )
    where
      historical_answers : (b : Bool) → answers (get_historical {A = A} b) ≡ 1
      historical_answers true = refl
      historical_answers false = refl

      asset_answers : (o : Option String) → answers (get_asset {A = A} o) ≡ 1
      asset_answers none = refl
      asset_answers (some asset) = refl
