-- ===== src/Http/Pages.antt =====
-- `do_GET`, and the methods that are answered by METHOD_NOT_ALLOWED. Their one write succeeds.
-- `_STATIC`
use postgres_migration_rehea.Base.{
  if◌then◌else◌, same_text, Bool, true, false, not, ◌||◌, Option, none, some, List, [], ◌∷◌, String,
}
use postgres_migration_rehea.Http.Handler.{Event, delivered, replied, reject, request_safe}
use postgres_migration_rehea.Http.Messages.{
  status_ok, bad_request, not_found, method_not_allowed, internal_server_error, health, scenarios,
  historical, static_asset,
}
use postgres_migration_rehea.Http.Requests.{Request, is_absent}

abbrev pub static_asset_of : String → Option String
static_asset_of path =
    if same_text path "/" || same_text path "/index.html"
    then some "index.html"
    else if same_text path "/app.css"
    then some "app.css"
    else if same_text path "/app.js"
    then some "app.js"
    else if same_text path "/favicon.svg"
    then some "favicon.svg"
    else if same_text path "/site.webmanifest"
    then some "site.webmanifest"
    else none

module _ {A : Type 0} where
  abbrev pub get_asset : Option String → List (Event A)
  get_asset none =
      reject delivered not_found "INVALID_REQUEST" "Route not found"
        "Return to the control room home page."
  get_asset (some asset) = replied status_ok (static_asset asset) ∷ []

  abbrev pub get_historical : Bool → List (Event A)
  get_historical false =
      reject delivered internal_server_error "HISTORICAL_EVIDENCE_UNAVAILABLE"
        "Historical evidence unavailable" "Use the local rehearsal instead."
  get_historical true = replied status_ok historical ∷ []

  -- `has_historical`: was the tracked manifest valid when the server started?
  unfoldable pub do_get : String → Bool → Request → List (Event A)
  do_get expected_host has_historical request = request_safe delivered expected_host request (
      if not (is_absent (request.get_all "Content-Type"))
      then reject delivered bad_request "INVALID_REQUEST" "Unexpected content type"
          "Reload the control room."
      else if same_text request.path "/healthz"
      then replied status_ok health ∷ []
      else if same_text request.path "/api/v1/scenarios"
      then replied status_ok scenarios ∷ []
      else if same_text request.path "/api/v1/evidence/phase-b"
      then get_historical has_historical
      else get_asset (static_asset_of request.path))

  -- `do_HEAD`, `do_PUT`, `do_DELETE`, `do_PATCH`, `do_OPTIONS` and `_unknown_method`
  unfoldable pub not_allowed : String → Request → List (Event A)
  not_allowed expected_host request = request_safe delivered expected_host request (
      reject delivered method_not_allowed "METHOD_NOT_ALLOWED" "Method not allowed"
        "Use the available local controls.")
