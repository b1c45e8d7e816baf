-- ===== src/Response/Accepted.antt =====
-- The adapter accepts what its own engine prints.
use postgres_migration_rehea.Adapter.{get, keys_are, done}
use postgres_migration_rehea.Base.{
  if◌then◌else◌, ==_refl, le→leb, length, same_text_refl, ℕ, ◌≤◌, ◌≡◌, refl, ◌⊎◌, inl, inr, Bool,
  true, false, some, List, [], ◌∷◌, map, arith, String,
}
use postgres_migration_rehea.Database.{Version, v0001, v0002, v0003, v0004, v0005, Digest}
use postgres_migration_rehea.Engine.{expected_row, expected_rows, FixtureRow}
use postgres_migration_rehea.Engine.Rehearsal.{report}
use postgres_migration_rehea.Final.{fullmatch_hex}
use postgres_migration_rehea.Fixtures.{max_rows, max_invoice_id, max_amount}
use postgres_migration_rehea.Fixtures.Bounds.{IsSoundRow, IsSound}
use postgres_migration_rehea.Http.{Json, json_text}
use postgres_migration_rehea.Response.Checks.{
  bounded_text, is_copy, are_copies, destination_ok, stages_ok, backfill_ok, integrity_ok,
  hashes_ok,
}
use postgres_migration_rehea.Response.Document.{
  items_of, list_of, rows_json, destination_json, is_empty, stages_json, backfill_json,
  integrity_json, hashes_json, run_id_of, evidence_json, response,
}
use postgres_migration_rehea.Response.Rendered.{count_items-rendered, validate_rows-rendered}
use postgres_migration_rehea.Response.Validate.{
  required, check_header, same_rows, evidence_ok, check_body, validate_engine_response,
}

same_rows_refl : (rows : List FixtureRow) → same_rows rows rows ≡ true
same_rows_refl [] = refl
same_rows_refl (r ∷ rows) =
    rw (==_refl r.invoice_id, ==_refl r.amount_cents, same_rows_refl rows) refl

copy-is_copy :
    (ids : List ℕ) (r : FixtureRow)
    → IsSoundRow ids r
    → is_copy r (destination_json (expected_row r)) ≡ true
copy-is_copy ids r (low, (high, (least, (most, new)))) =
    rw
      (
        le→leb 1 r.invoice_id low,
        le→leb r.invoice_id max_invoice_id high,
        le→leb 1 r.amount_cents least,
        le→leb r.amount_cents max_amount most,
        ==_refl r.invoice_id,
        ==_refl r.amount_cents,
      )
      refl

copies-are_copies :
    (ids : List ℕ) (rows : List FixtureRow)
    → IsSound ids rows
    → are_copies rows (items_of (map destination_json (expected_rows rows))) ≡ true
copies-are_copies ids [] h = refl
copies-are_copies ids (r ∷ rows) h =
    rw (copy-is_copy ids r h.0, copies-are_copies (r.invoice_id ∷ ids) rows h.1) refl

length-expected_rows : (rows : List FixtureRow) → length (expected_rows rows) ≡ length rows
length-expected_rows [] = refl
length-expected_rows (r ∷ rows) = rw (length-expected_rows rows) refl

destination_ok-copies :
    (rows : List FixtureRow)
    → IsSound [] rows
    → length rows ≤ max_rows
    → destination_ok rows (list_of (map destination_json (expected_rows rows))) ≡ true
destination_ok-copies rows h few =
    rw
      (
        count_items-rendered destination_json (expected_rows rows),
        length-expected_rows rows,
        le→leb (length rows) max_rows few,
        copies-are_copies [] rows h,
      )
      refl

stages_ok-stages : (empty : Bool) → stages_ok empty (stages_json empty) ≡ true
stages_ok-stages true = refl
stages_ok-stages false = refl

backfill_ok-report : (n : ℕ) → n ≤ max_rows → backfill_ok n (backfill_json (n, 0) (n, 0)) ≡ true
backfill_ok-report n few = rw (le→leb 0 n (omega arith), le→leb n max_rows few, ==_refl n) refl

integrity_ok-report :
    (n : ℕ)
    → integrity_ok n (
        integrity_json n (record {
          final_phase = true;
          ledger_complete = true;
          no_target_nulls = true;
          legacy_column_absent = true;
          final_constraints = true;
        }))
      ≡ true
integrity_ok-report n = rw (==_refl n) refl

label-bounded_text :
    (empty : Bool)
    → bounded_text 120
        (json_text (if empty then "No rows to migrate" else "Local rehearsal passed"))
      ≡ true
label-bounded_text true = refl
label-bounded_text false = refl

module _ (hashes : Version → String) (dumps : Json → String) (sha256 : String → String)
    (hexadecimal : (s : String) → fullmatch_hex 64 (sha256 s) ≡ true) where
  abbrev IsServed : String → Type 0
  IsServed scenario_id = (scenario_id ≡ "small-shop") ⊎ (scenario_id ≡ "empty-ledger")

  module _ (checksum : Version → Digest) (fuel : ℕ) (rows : List FixtureRow)
      (sound : IsSound [] rows) (few : length rows ≤ max_rows) where
    hashes_ok-hashes : hashes_ok hashes (hashes_json hashes dumps sha256) ≡ true
    hashes_ok-hashes =
        rw
          (
            same_text_refl (hashes v0001),
            same_text_refl (hashes v0002),
            same_text_refl (hashes v0003),
            same_text_refl (hashes v0004),
            same_text_refl (hashes v0005),
          )
          refl

    evidence_ok-report :
        evidence_ok hashes dumps sha256 rows
          (json_text (run_id_of hashes dumps sha256 rows))
          (evidence_json hashes dumps sha256 rows (report checksum fuel rows) true)
        ≡ true
    evidence_ok-report =
        rw
          (
            hashes_ok-hashes,
            same_text_refl (sha256 (dumps (rows_json rows))),
            same_text_refl (run_id_of hashes dumps sha256 rows),
            length-expected_rows rows,
            backfill_ok-report (length rows) few,
            integrity_ok-report (length rows),
          )
          refl

    abbrev printed : String → Json
    printed scenario_id =
        response hashes dumps sha256 scenario_id rows (report checksum fuel rows) true

    run_id-hexadecimal : fullmatch_hex 64 (run_id_of hashes dumps sha256 rows) ≡ true
    run_id-hexadecimal = hexadecimal _

    check_header-printed :
        (scenario_id : String)
        → IsServed scenario_id
        → check_header (some scenario_id) (printed scenario_id) ≡ done tt
    unfolding response
    check_header-printed scenario_id (inl e) =
        rw (e, run_id-hexadecimal, label-bounded_text (is_empty rows)) refl
    check_header-printed scenario_id (inr e) =
        rw (e, run_id-hexadecimal, label-bounded_text (is_empty rows)) refl

    check_body-printed :
        (scenario_id : String) → check_body hashes dumps sha256 rows (printed scenario_id) ≡ done tt
    unfolding response
    check_body-printed scenario_id =
        rw
          (
            destination_ok-copies rows sound few,
            same_text_refl
                (if is_empty rows then "NO_ROWS_TO_MIGRATE" else "LOCAL_REHEARSAL_PASSED"),
            stages_ok-stages (is_empty rows),
            evidence_ok-report,
          )
          refl

    keys-printed : (scenario_id : String) → keys_are required (printed scenario_id) ≡ true
    unfolding response
    keys-printed scenario_id = refl

    source_rows-printed :
        (scenario_id : String) → get (printed scenario_id) "source_rows" ≡ rows_json rows
    unfolding response
    source_rows-printed scenario_id = refl

    -- The response that the engine prints after a successful run on a sound fixture of at most six rows,
    -- for one of the two served scenarios, passes the adapter's validation against the same fixture.
    pub validate_engine_response-printed :
        (scenario_id : String)
        → IsServed scenario_id
        → validate_engine_response hashes dumps sha256
            (some scenario_id)
            (some rows)
            (printed scenario_id)
          ≡ done (printed scenario_id)
    unfolding validate_engine_response
    validate_engine_response-printed scenario_id served =
        rw
          (
            keys-printed scenario_id,
            check_header-printed scenario_id served,
            source_rows-printed scenario_id,
            validate_rows-rendered rows sound few,
            same_rows_refl rows,
            check_body-printed scenario_id,
          )
          refl
