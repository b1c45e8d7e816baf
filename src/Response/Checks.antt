-- ===== src/Response/Checks.antt =====
-- The parts of `_validate_engine_response`, one test per part of the document.
-- `_bounded_text`
use postgres_migration_rehea.Adapter.{
  get, is_text, is_true, is_exactly_number, keys_are, is_list_of,
}
use postgres_migration_rehea.Base.{
  ltb, leb, ◌==◌, if◌then◌else◌, length, pos, eq_ℤ, same_text, codes_of, ℕ, Bool, true, false, ◌&&◌,
  List, [], ◌∷◌, String,
}
use postgres_migration_rehea.Database.{Version, v0001, v0002, v0003, v0004, v0005}
use postgres_migration_rehea.Engine.{FixtureRow}
use postgres_migration_rehea.Fixtures.{count_items}
use postgres_migration_rehea.Http.{
  Json, json_bool, json_number, json_text, json_array, Items, no_items, item,
}

abbrev pub bounded_text : ℕ → Json → Bool
bounded_text maximum (json_text s) =
    ltb 0 (length (codes_of s)) && leb (length (codes_of s)) maximum
bounded_text maximum _ = false

-- `_whole_number`
abbrev pub whole_number : ℕ → ℕ → Json → Bool
whole_number minimum maximum (json_number (pos n)) = leb minimum n && leb n maximum
whole_number minimum maximum _ = false

-- `value == n`, which a Boolean may also satisfy
abbrev equals_number : ℕ → Json → Bool
equals_number n (json_number m) = eq_ℤ m (pos n)
equals_number n (json_bool b) = if b then n == 1 else n == 0
equals_number n _ = false

-- `value == True`
abbrev equals_true : Json → Bool
equals_true (json_bool b) = b
equals_true (json_number m) = eq_ℤ m (pos 1)
equals_true _ = false

abbrev same_texts : List String → Items → Bool
same_texts [] no_items = true
same_texts [] (item v vs) = false
same_texts (s ∷ ss) no_items = false
same_texts (s ∷ ss) (item v vs) = is_text s v && same_texts ss vs

abbrev pub is_text_list : List String → Json → Bool
is_text_list ss (json_array l) = same_texts ss l
is_text_list ss _ = false

abbrev is_destination_row : Json → Bool
is_destination_row v =
    keys_are ("invoice_id" ∷ "amount_minor" ∷ "currency_code" ∷ []) v
    && (whole_number 1 2147483647 (get v "invoice_id")
        && (whole_number 1 100000000 (get v "amount_minor")
            && is_text "EUR" (get v "currency_code")))

-- The row is one of the closed shape and equals the one expected from the source row.
abbrev pub is_copy : FixtureRow → Json → Bool
is_copy r v =
    is_destination_row v
    && (is_exactly_number r.invoice_id (get v "invoice_id")
        && is_exactly_number r.amount_cents (get v "amount_minor"))

abbrev pub are_copies : List FixtureRow → Items → Bool
are_copies [] no_items = true
are_copies [] (item v vs) = false
are_copies (r ∷ rs) no_items = false
are_copies (r ∷ rs) (item v vs) = is_copy r v && are_copies rs vs

abbrev pub destination_ok : List FixtureRow → Json → Bool
destination_ok rows (json_array l) = leb (count_items l) 6 && are_copies rows l
destination_ok rows _ = false

abbrev is_stage : Bool → String → Json → Bool
is_stage empty stage v =
    keys_are ("id" ∷ "label" ∷ "status" ∷ "explanation" ∷ "evidence_ids" ∷ []) v
    && (is_text stage (get v "id")
        && (bounded_text 80 (get v "label")
            && (is_text (if empty && same_text stage "backfill" then "not_needed" else "complete")
                  (get v "status")
                && (bounded_text 240 (get v "explanation")
                    && is_text_list (stage ∷ []) (get v "evidence_ids")))))

abbrev are_stages : Bool → List String → Items → Bool
are_stages empty [] no_items = true
are_stages empty [] (item v vs) = false
are_stages empty (s ∷ ss) no_items = false
are_stages empty (s ∷ ss) (item v vs) = is_stage empty s v && are_stages empty ss vs

abbrev pub stages_ok : Bool → Json → Bool
stages_ok empty (json_array l) =
    are_stages empty ("baseline" ∷ "expand" ∷ "backfill" ∷ "switch" ∷ "contract" ∷ []) l
stages_ok empty _ = false

abbrev is_check : Json → Bool
is_check v =
    keys_are ("id" ∷ "label" ∷ "status" ∷ "detail" ∷ "evidence_id" ∷ []) v
    && (is_text "destination_matches_source" (get v "id")
        && (bounded_text 120 (get v "label")
            && (is_text "pass" (get v "status")
                && (bounded_text 240 (get v "detail")
                    && is_text "integrity" (get v "evidence_id")))))

abbrev pub checks_ok : Json → Bool
checks_ok v = is_list_of is_check v

abbrev is_warning : Json → Bool
is_warning v =
    keys_are ("id" ∷ "label" ∷ "detail" ∷ []) v
    && (is_text "bounded_scope" (get v "id")
        && (bounded_text 120 (get v "label") && bounded_text 320 (get v "detail")))

abbrev pub warnings_ok : Json → Bool
warnings_ok v = is_list_of is_warning v

abbrev is_step : ℕ → Json → Bool
is_step order v =
    keys_are ("order" ∷ "label" ∷ "observed" ∷ "evidence_id" ∷ []) v
    && (is_exactly_number order (get v "order")
        && (bounded_text 160 (get v "label")
            && (is_true (get v "observed") && is_text "rollback" (get v "evidence_id"))))

abbrev pub plan_ok : Json → Bool
plan_ok (json_array (item v (item w no_items))) = is_step 1 v && is_step 2 w
plan_ok _ = false

abbrev pub backfill_ok : ℕ → Json → Bool
backfill_ok expected_count v =
    keys_are
      ("initial_first_pass_rows" ∷ "initial_idempotent_pass_rows" ∷ "cycles"
        ∷ "roll_forward_first_pass_rows" ∷ "roll_forward_idempotent_pass_rows" ∷ [])
      v
    && ((whole_number 0 6 (get v "initial_first_pass_rows")
          && is_exactly_number expected_count (get v "initial_first_pass_rows"))
        && (is_exactly_number 0 (get v "initial_idempotent_pass_rows")
            && (is_exactly_number 2 (get v "cycles")
                && ((whole_number 0 6 (get v "roll_forward_first_pass_rows")
                      && is_exactly_number expected_count (get v "roll_forward_first_pass_rows"))
                    && is_exactly_number 0 (get v "roll_forward_idempotent_pass_rows")))))

abbrev pub rollback_ok : Json → Bool
rollback_ok v =
    keys_are ("down_phase" ∷ "legacy_rows_restored" ∷ "roll_forward_complete" ∷ []) v
    && (is_text "initial" (get v "down_phase")
        && (equals_true (get v "legacy_rows_restored")
            && equals_true (get v "roll_forward_complete")))

abbrev pub integrity_ok : ℕ → Json → Bool
integrity_ok expected_count v =
    keys_are
      ("final_phase" ∷ "ledger_complete" ∷ "row_count" ∷ "destination_matches_source"
        ∷ "no_target_nulls" ∷ "legacy_column_absent" ∷ [])
      v
    && (is_text "contract" (get v "final_phase")
        && (equals_true (get v "ledger_complete")
            && (equals_number expected_count (get v "row_count")
                && (equals_true (get v "destination_matches_source")
                    && (equals_true (get v "no_target_nulls")
                        && equals_true (get v "legacy_column_absent"))))))

-- `migration_sha256 != expected_migration_sha256`
abbrev pub hashes_ok : (Version → String) → Json → Bool
hashes_ok hashes v =
    keys_are ("0001" ∷ "0002" ∷ "0003" ∷ "0004" ∷ "0005" ∷ []) v
    && (is_text (hashes v0001) (get v "0001")
        && (is_text (hashes v0002) (get v "0002")
            && (is_text (hashes v0003) (get v "0003")
                && (is_text (hashes v0004) (get v "0004")
                    && is_text (hashes v0005) (get v "0005")))))
