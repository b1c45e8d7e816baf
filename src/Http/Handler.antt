-- ===== src/Http/Handler.antt =====
-- `do_POST`, `do_GET` and the other methods of `Handler`.
-- How `rehearsal_runner(scenario_id)` ends: a result, with its cleanup nonce if it is a
-- `RehearsalResponse`, or one of the exceptions.
use postgres_migration_rehea.Base.{
  ltb, if◌then◌else◌, same_text, ℕ, Bool, true, false, not, ◌||◌, Option, none, some, List, [], ◌∷◌,
  ◌++◌, String, ◌<>◌,
}
use postgres_migration_rehea.Http.Messages.{
  Status, status_ok, bad_request, forbidden, not_found, method_not_allowed,
  request_entity_too_large, unsupported_media_type, misdirected_request, unprocessable_entity,
  internal_server_error, service_unavailable, Payload, error_document, input_rejected, rehearsal,
  Json, has_unique_keys,
}
use postgres_migration_rehea.Http.Requests.{
  Request, is_exactly, is_absent, same_site, int, length_codes, scenario_of,
}

pub data Runner (A : Type 0) : Type 0 where
  completed : A → Option String → Runner A
  engine_busy : Runner A
  fixture_invalid : String → String → Runner A
  failed : Runner A
  interrupted : Runner A  -- an exception that is no `Exception`

-- What `json.loads` gives: a value, a ValueError, or an exception of another class.
pub data Loaded : Type 0 where
  loaded : Json → Loaded
  value_error other_error : Loaded

-- How writing a reply ends: BrokenPipeError and ConnectionResetError, or another OSError.
pub data Delivery : Type 0 where
  delivered client_disconnected response_write_failed : Delivery

-- How the one write of a handler ends, and whether `record_delivery_failure` returns.
pub record Transport : Type 0 where
  pub write : Delivery
  pub records : Bool

-- What a handler does, in order. `escaped` is an exception, after which only what a `finally` does
-- is left, and which then leaves the handler.
pub data Event (A : Type 0) : Type 0 where
  replied : Status → Payload A → Event A
  acquired released escaped : Event A
  ran : String → Event A
  recorded : String → Delivery → Event A

module _ {A : Type 0} where
  -- `_send_json`, where no handler of the exceptions stands around it
  abbrev pub send_json : Delivery → Status → Payload A → List (Event A)
  send_json delivered st payload = replied st payload ∷ []
  send_json client_disconnected st payload = escaped ∷ []
  send_json response_write_failed st payload = escaped ∷ []

  -- `_reject`
  abbrev pub reject : Delivery → Status → String → String → String → List (Event A)
  reject w status code title detail =
      send_json w status (error_document code title detail "Reset the control room and try again.")

  abbrev reject_invalid : Delivery → List (Event A)
  reject_invalid w =
      reject w bad_request "INVALID_REQUEST" "Invalid request" "Choose one synthetic scenario."

  abbrev reject_busy : Delivery → List (Event A)
  reject_busy w =
      reject w service_unavailable "BUSY" "Local rehearsal busy"
        "Wait for the current local rehearsal to finish."

  -- `_request_safe`, with what follows it.
  abbrev pub request_safe : Delivery → String → Request → List (Event A) → List (Event A)
  request_safe w expected_host request rest =
      if not (is_exactly (request.get_all "Host") expected_host)
      then reject w misdirected_request "REQUEST_HOST_REJECTED" "Local host required"
          "This control room accepts only its exact loopback host."
      else if not (is_absent (request.get_all "Transfer-Encoding"))
      then reject w bad_request "INVALID_REQUEST" "Unsupported request framing"
          "Use a normal local browser request."
      else rest

  -- The response to a completed run, and the record of a failed delivery, which may raise.
  abbrev deliver : A → Option String → Delivery → Bool → List (Event A)
  deliver result _ delivered records = replied status_ok (rehearsal result) ∷ []
  deliver result (some cleanup) w true = recorded cleanup w ∷ []
  deliver result (some cleanup) w false = escaped ∷ []
  deliver result none w records = []

  abbrev pub after_run : Delivery → Bool → Runner A → List (Event A)
  after_run w records (completed result cleanup) = deliver result cleanup w records
  after_run w records engine_busy = reject_busy w
  after_run w records (fixture_invalid field detail) =
      send_json w unprocessable_entity (input_rejected field detail)
  after_run w records failed =
      reject w internal_server_error "INTERNAL_ERROR" "Local rehearsal unavailable"
        "Reset the control room and try again."
  after_run w records interrupted = escaped ∷ []

  -- `try: body finally: last`: the last events follow, whether an exception leaves the body or not.
  abbrev pub try_finally : List (Event A) → List (Event A) → List (Event A)
  try_finally body last = body ++ last

module _ {A : Type 0} (run_rehearsal : String → Runner A) (loads : List ℕ → Loaded) where
  -- From `run_slot.acquire` on. `free` says whether the slot is free.
  abbrev pub run_in_slot : Bool → Transport → String → List (Event A)
  run_in_slot false d scenario_id = reject_busy d.write
  run_in_slot true d scenario_id =
      acquired
      ∷ ran scenario_id
      ∷ try_finally (after_run d.write d.records (run_rehearsal scenario_id)) (released ∷ [])

  abbrev is_listed : String → Bool
  is_listed s =
      same_text s "small-shop"
      || (same_text s "empty-ledger" || same_text s "invalid-negative-amount")

  abbrev pub post_scenario : Bool → Transport → String → List (Event A)
  post_scenario free d scenario_id =
      if not (is_listed scenario_id)
      then reject d.write not_found "SCENARIO_NOT_FOUND" "Scenario not found"
          "Choose a listed synthetic scenario."
      else if same_text scenario_id "invalid-negative-amount"
      then send_json d.write unprocessable_entity
          (input_rejected "amount_cents" "Amount must be a positive whole number of cents.")
      else run_in_slot free d scenario_id

  abbrev pub post_named : Bool → Transport → Option String → List (Event A)
  post_named free d none = reject_invalid d.write
  post_named free d (some scenario_id) = post_scenario free d scenario_id

  -- `json.loads` with `_unique_object`, and the shape of the document.
  abbrev pub post_document : Bool → Transport → Option Json → List (Event A)
  post_document free d none = reject_invalid d.write
  post_document free d (some v) =
      if has_unique_keys v then post_named free d (scenario_of v) else reject_invalid d.write

  abbrev pub post_loaded : Bool → Transport → Loaded → List (Event A)
  post_loaded free d (loaded v) = post_document free d (some v)
  post_loaded free d value_error = post_document free d none
  post_loaded free d other_error = escaped ∷ []

  -- `self.rfile.read(length)`: after five seconds without enough bytes, or where the connection is
  -- reset, it raises.
  abbrev pub post_read : Bool → Transport → Option (List ℕ) → List (Event A)
  post_read free d none = escaped ∷ []
  post_read free d (some raw) = post_loaded free d (loads raw)

  -- `length = int(lengths[0])` and the read of the body.
  abbrev pub post_length : Bool → Transport → (ℕ → Option (List ℕ)) → Option ℕ → List (Event A)
  post_length free d read none = escaped ∷ []
  post_length free d read (some n) =
      if ltb 4096 n
      then reject d.write request_entity_too_large "BODY_TOO_LARGE" "Request is too large"
          "Choose one synthetic scenario."
      else post_read free d (read n)

  abbrev pub post_body : Bool → Transport → (ℕ → Option (List ℕ)) → Option (List ℕ) → List (Event A)
  post_body free d read none =
      reject d.write bad_request "INVALID_REQUEST" "Invalid request length"
        "Use the control room form."
  post_body free d read (some digits) = post_length free d read (int digits)

  unfoldable pub do_post : String → Bool → Transport → Request → List (Event A)
  unfolding has_unique_keys
  do_post expected_host free d request = request_safe d.write expected_host request (
      if not (same_text request.path "/api/v1/rehearsals")
      then reject d.write method_not_allowed "METHOD_NOT_ALLOWED" "Method not allowed"
          "Use the available local controls."
      else if not (is_exactly (request.get_all "Content-Type") "application/json")
      then reject d.write unsupported_media_type "UNSUPPORTED_MEDIA_TYPE" "JSON required"
          "Use the control room form."
      else if not (is_exactly (request.get_all "Origin") ("http://" <> expected_host))
      then reject d.write forbidden "REQUEST_ORIGIN_REJECTED" "Local origin required"
          "Open this control room directly."
      else if not (same_site (request.get_all "Sec-Fetch-Site"))
      then reject d.write forbidden "REQUEST_ORIGIN_REJECTED" "Local origin required"
          "Open this control room directly."
      else post_body free d request.read (length_codes (request.get_all "Content-Length")))
