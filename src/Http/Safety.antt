-- ===== src/Http/Safety.antt =====
-- What the handlers guarantee, for any request: when the rehearsal runs, that the slot is given back,
-- and that one answer is sent.
use postgres_migration_rehea.Base.{
  if◌then◌else◌, if-cases, same_text, ℕ, suc, ◌≡◌, refl, Bool, true, false, not, ◌&&◌, ◌||◌, Option,
  none, some, List, [], ◌∷◌, ◌++◌, arith, String, ◌<>◌,
}
use postgres_migration_rehea.Http.Handler.{
  recorded, Event, Loaded, engine_busy, Runner, completed, fixture_invalid, failed, interrupted,
  loaded, value_error, other_error, Delivery, delivered, client_disconnected, response_write_failed,
  Transport, replied, acquired, released, escaped, ran, send_json, after_run, run_in_slot,
  post_scenario, post_named, post_document, post_loaded, post_read, post_length, post_body, do_post,
}
use postgres_migration_rehea.Http.Messages.{Status, service_unavailable, Payload, Json}
use postgres_migration_rehea.Http.Requests.{
  Request, is_exactly, is_absent, same_site, int, length_codes, scenario_of,
}

module _ {A : Type 0} where
  -- The runs that a handler starts.
  abbrev pub runs : List (Event A) → List String
  runs [] = []
  runs (ran s ∷ es) = s ∷ runs es
  runs (_ ∷ es) = runs es

  abbrev pub answers : List (Event A) → ℕ
  answers [] = 0
  answers (replied st payload ∷ es) = suc (answers es)
  answers (_ ∷ es) = answers es

  abbrev pub escapes : List (Event A) → ℕ
  escapes [] = 0
  escapes (escaped ∷ es) = suc (escapes es)
  escapes (_ ∷ es) = escapes es

  -- The lock after the events: taken only when it is free, released only when it is taken.
  abbrev pub slot_after : Bool → List (Event A) → Option Bool
  slot_after free [] = some free
  slot_after true (acquired ∷ es) = slot_after false es
  slot_after false (acquired ∷ es) = none
  slot_after false (released ∷ es) = slot_after true es
  slot_after true (released ∷ es) = none
  slot_after free (replied st payload ∷ es) = slot_after free es
  slot_after free (escaped ∷ es) = slot_after free es
  slot_after free (ran s ∷ es) = slot_after free es
  slot_after free (recorded cleanup d ∷ es) = slot_after free es

-- The headers of a page that this very server served, with a JSON body.
abbrev is_local : String → Request → Bool
is_local expected_host request =
    is_exactly (request.get_all "Host") expected_host
    && (is_absent (request.get_all "Transfer-Encoding")
        && (same_text request.path "/api/v1/rehearsals"
            && (is_exactly (request.get_all "Content-Type") "application/json"
                && (is_exactly (request.get_all "Origin") ("http://" <> expected_host)
                    && same_site (request.get_all "Sec-Fetch-Site")))))

abbrev is_runnable : String → Bool
is_runnable s = same_text s "small-shop" || same_text s "empty-ledger"

-- Is every run of these one that the service may start?
abbrev pub all_runnable : Bool → List String → Bool
all_runnable free [] = true
all_runnable free (s ∷ []) = free && is_runnable s
all_runnable free (_ ∷ _ ∷ _) = false

pick {ℓ κ} :
    {X : Type ℓ} {x y z : X} (P : X → Type κ) (a b c : Bool)
    → P x
    → P y
    → ((a || b) ≡ true → P z)
    → P (if not (a || (b || c)) then x else if c then y else z)
pick P true b true p q r = q
pick P true b false p q r = r refl
pick P false true true p q r = q
pick P false true false p q r = r refl
pick P false false true p q r = q
pick P false false false p q r = p

module _ {A : Type 0} (run_rehearsal : String → Runner A) (loads : List ℕ → Loaded) where
  -- A property of all answers, of an escaping exception and of a run holds of any request.
  module _ (P : List (Event A) → Type 0) (free : Bool) (d : Transport)
      (answer : (st : Status) (payload : Payload A) → P (send_json d.write st payload))
      (escape : P (escaped ∷ []))
      (run : (s : String)
        → is_runnable s ≡ true
        → P (run_in_slot run_rehearsal loads free d s)) where
    post_scenario-cases : (s : String) → P (post_scenario run_rehearsal loads free d s)
    post_scenario-cases s =
        pick P (same_text s "small-shop") (same_text s "empty-ledger")
          (same_text s "invalid-negative-amount") (answer _ _) (answer _ _) (run s)

    post_document-cases : (v : Option Json) → P (post_document run_rehearsal loads free d v)
    post_document-cases none = search answer
    post_document-cases (some v) = search (if-cases P, answer, named (scenario_of v))
      where
        named : (s : Option String) → P (post_named run_rehearsal loads free d s)
        named none = search answer
        named (some s) = post_scenario-cases s

    post_loaded-cases : (l : Loaded) → P (post_loaded run_rehearsal loads free d l)
    post_loaded-cases (loaded v) = post_document-cases (some v)
    post_loaded-cases value_error = post_document-cases none
    post_loaded-cases other_error = escape

    post_read-cases : (raw : Option (List ℕ)) → P (post_read run_rehearsal loads free d raw)
    post_read-cases none = escape
    post_read-cases (some raw) = post_loaded-cases (loads raw)

    post_body-cases :
        (read : ℕ → Option (List ℕ)) (digits : Option (List ℕ))
        → P (post_body run_rehearsal loads free d read digits)
    post_body-cases read none = search answer
    post_body-cases read (some digits) = go (int digits)
      where
        go : (n : Option ℕ) → P (post_length run_rehearsal loads free d read n)
        go none = escape
        go (some n) = search (if-cases P, answer, post_read-cases (read n))

    do_post-cases :
        (host : String) (request : Request) → P (do_post run_rehearsal loads host free d request)
    unfolding do_post
    do_post-cases host request =
        search
          (
            if-cases P,
            answer,
            post_body-cases request.read (length_codes (request.get_all "Content-Length")),
          )
          depth 14 fits 2000

  -- One reply or one escaping exception does not touch the lock and starts no run, and neither does
  -- a record.
  abbrev IsQuiet : List (Event A) → Type 0
  IsQuiet es =
      (slot_after false (es ++ released ∷ []) ≡ some true) × (runs (es ++ released ∷ []) ≡ [])

  send-IsQuiet :
      (w : Delivery) (st : Status) (payload : Payload A) → IsQuiet (send_json w st payload)
  send-IsQuiet delivered st payload = (refl, refl)
  send-IsQuiet client_disconnected st payload = (refl, refl)
  send-IsQuiet response_write_failed st payload = (refl, refl)

  after_run-IsQuiet :
      (w : Delivery) (records : Bool) (r : Runner A) → IsQuiet (after_run w records r)
  after_run-IsQuiet delivered b (completed result cleanup) = (refl, refl)
  after_run-IsQuiet client_disconnected b (completed result none) = (refl, refl)
  after_run-IsQuiet client_disconnected true (completed result (some _)) = (refl, refl)
  after_run-IsQuiet client_disconnected false (completed result (some _)) = (refl, refl)
  after_run-IsQuiet response_write_failed b (completed result none) = (refl, refl)
  after_run-IsQuiet response_write_failed true (completed result (some _)) = (refl, refl)
  after_run-IsQuiet response_write_failed false (completed result (some _)) = (refl, refl)
  after_run-IsQuiet w b engine_busy = send-IsQuiet w _ _
  after_run-IsQuiet w b (fixture_invalid field detail) = send-IsQuiet w _ _
  after_run-IsQuiet w b failed = send-IsQuiet w _ _
  after_run-IsQuiet w b interrupted = (refl, refl)

  slot-send_json :
      (free : Bool) (w : Delivery) (st : Status) (payload : Payload A)
      → slot_after free (send_json w st payload) ≡ some free
  slot-send_json free delivered st payload = refl
  slot-send_json free client_disconnected st payload = refl
  slot-send_json free response_write_failed st payload = refl

  runs-send_json :
      (w : Delivery) (st : Status) (payload : Payload A) → runs (send_json w st payload) ≡ []
  runs-send_json delivered st payload = refl
  runs-send_json client_disconnected st payload = refl
  runs-send_json response_write_failed st payload = refl

  slot-run_in_slot :
      (free : Bool) (d : Transport) (s : String)
      → slot_after free (run_in_slot run_rehearsal loads free d s) ≡ some free
  slot-run_in_slot false d s = slot-send_json false d.write _ _
  slot-run_in_slot true d s = (after_run-IsQuiet d.write d.records (run_rehearsal s)).0

  -- Whatever the request, the runner, the write of the reply and the record of a failed delivery do,
  -- exceptions that leave the handler included, it gives the run slot back: the lock is free after it
  -- just where it was free before, and is never released without being held.
  pub do_post-slot :
      (host : String) (free : Bool) (d : Transport) (request : Request)
      → slot_after free (do_post run_rehearsal loads host free d request) ≡ some free
  do_post-slot host free d request =
      do_post-cases (λ es. slot_after free es ≡ some free) free d (slot-send_json free d.write) refl
        (λ s _. slot-run_in_slot free d s) host request

  -- A connection that takes the reply.
  abbrev pub taking : Bool → Transport
  taking records = record { write = delivered; records = records }

  -- A request starts at most one run, of one of the two runnable scenarios, and only while the run
  -- slot is free.
  pub do_post-runs :
      (host : String) (free : Bool) (d : Transport) (request : Request)
      → all_runnable free (runs (do_post run_rehearsal loads host free d request)) ≡ true
  do_post-runs host free d request =
      do_post-cases (λ es. all_runnable free (runs es) ≡ true) free d
        (λ st payload. rw (runs-send_json d.write st payload) refl) refl (run free) host request
    where
      run :
          (free : Bool) (s : String)
          → is_runnable s ≡ true
          → all_runnable free (runs (run_in_slot run_rehearsal loads free d s)) ≡ true
      run false s h = rw (runs-send_json d.write service_unavailable _) refl
      run true s h = rw ((after_run-IsQuiet d.write d.records (run_rehearsal s)).1) h

  foreign :
      (host : String) (free : Bool) (w : Delivery) (records : Bool) (request : Request)
      → is_local host request ≡ false
      → runs
          (do_post run_rehearsal loads host free (record { write = w; records = records }) request)
        ≡ []
  unfolding do_post
  foreign host free delivered records request h = ground arith
  foreign host free client_disconnected records request h = ground arith
  foreign host free response_write_failed records request h = ground arith

  -- A request whose Host, framing, path, Content-Type, Origin or Sec-Fetch-Site is not that of the
  -- page of this server starts no run.
  pub do_post-foreign :
      (host : String) (free : Bool) (d : Transport) (request : Request)
      → is_local host request ≡ false
      → runs (do_post run_rehearsal loads host free d request) ≡ []
  do_post-foreign host free d request h = foreign host free d.write d.records request h
