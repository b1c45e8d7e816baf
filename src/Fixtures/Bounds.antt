-- ===== src/Fixtures/Bounds.antt =====
-- What the rows that pass have in common.
-- An id and an amount in their ranges, and the id not among the ones before.
use mathlib.Core.Path.{subst}
use postgres_migration_rehea.Base.{
  ltb, if◌then◌else◌, pos, negsuc, ℕ, ◌≤◌, ◌≡◌, refl, ap, Bool, true, false, Option, none, some,
  List, [], ◌∷◌, arith,
}
use postgres_migration_rehea.Engine.{FixtureRow}
use postgres_migration_rehea.Fixtures.Rows.{
  Validated, rejected, validated, max_rows, max_invoice_id, max_amount, fields_of, whole_between,
  is_among, cons_row, row_with, row_step, with_fields, validate_each, count_items, validate_rows,
}
use postgres_migration_rehea.Http.{
  Json, json_null, json_bool, json_number, json_text, json_array, json_object, Items, no_items,
  item,
}

abbrev pub IsSoundRow : List ℕ → FixtureRow → Type 0
IsSoundRow ids r =
    (1 ≤ r.invoice_id)
    × ((r.invoice_id ≤ max_invoice_id)
        × ((1 ≤ r.amount_cents)
            × ((r.amount_cents ≤ max_amount) × (is_among r.invoice_id ids ≡ false))))

-- So for each row, and no id comes twice.
abbrev pub IsSound : List ℕ → List FixtureRow → Type 0
IsSound ids [] = Unit
IsSound ids (r ∷ rows) = IsSoundRow ids r × IsSound (r.invoice_id ∷ ids) rows

whole_between-bounds :
    (bound : ℕ) (v : Json) (n : ℕ) → whole_between bound v ≡ some n → (1 ≤ n) × (n ≤ bound)
whole_between-bounds bound (json_number (pos m)) n h = ground arith
whole_between-bounds bound (json_number (negsuc m)) n h = cc
whole_between-bounds bound json_null n h = cc
whole_between-bounds bound (json_bool b) n h = cc
whole_between-bounds bound (json_text s) n h = cc
whole_between-bounds bound (json_array l) n h = cc
whole_between-bounds bound (json_object m) n h = cc

abbrev rows_in : Validated → List FixtureRow
rows_in (rejected field detail) = []
rows_in (validated rows) = rows

cons_row-IsSound :
    (ids : List ℕ) (r : FixtureRow) (w : Validated) (rows : List FixtureRow)
    → IsSoundRow ids r
    → ((t : List FixtureRow) → w ≡ validated t → IsSound (r.invoice_id ∷ ids) t)
    → cons_row r w ≡ validated rows
    → IsSound ids rows
cons_row-IsSound ids r (rejected field detail) rows good k h = cc
cons_row-IsSound ids r (validated t) rows good k h =
    subst (IsSound ids) (ap rows_in h) (good, k t refl)

module _ (ids : List ℕ) (rest : ℕ → Validated) (rows : List FixtureRow)
    (k : (i : ℕ) (t : List FixtureRow) → rest i ≡ validated t → IsSound (i ∷ ids) t) where
  row_with-IsSound :
      (i : ℕ) (w : Json) (o : Option ℕ)
      → (1 ≤ i) × (i ≤ max_invoice_id)
      → is_among i ids ≡ false
      → whole_between max_amount w ≡ o
      → row_with i o (rest i) ≡ validated rows
      → IsSound ids rows
  row_with-IsSound i w none in_range new e h = cc
  row_with-IsSound i w (some a) in_range new e h =
      let bounds : (1 ≤ a) × (a ≤ max_amount) = whole_between-bounds max_amount w a e in
      cons_row-IsSound ids (record { invoice_id = i; amount_cents = a }) (rest i) rows
        (in_range.0, (in_range.1, (bounds.0, (bounds.1, new)))) (k i) h

  unique-IsSound :
      (i : ℕ) (w : Json) (b : Bool)
      → (1 ≤ i) × (i ≤ max_invoice_id)
      → is_among i ids ≡ b
      → (if b
          then rejected "invoice_id" "Invoice IDs must be unique."
          else row_with i (whole_between max_amount w) (rest i))
        ≡ validated rows
      → IsSound ids rows
  unique-IsSound i w true in_range e h = cc
  unique-IsSound i w false in_range e h =
      row_with-IsSound i w (whole_between max_amount w) in_range e refl h

  row_step-IsSound :
      (v w : Json) (o : Option ℕ)
      → whole_between max_invoice_id v ≡ o
      → row_step ids o w rest ≡ validated rows
      → IsSound ids rows
  row_step-IsSound v w none e h = cc
  row_step-IsSound v w (some i) e h =
      unique-IsSound i w (is_among i ids) (whole_between-bounds max_invoice_id v i e) refl h

  with_fields-IsSound :
      (o : Option (Json × Json)) → with_fields ids o rest ≡ validated rows → IsSound ids rows
  with_fields-IsSound none h = cc
  with_fields-IsSound (some (v, w)) h = row_step-IsSound v w (whole_between max_invoice_id v) refl h

validate_each-IsSound :
    (l : Items) (ids : List ℕ) (rows : List FixtureRow)
    → validate_each ids l ≡ validated rows
    → IsSound ids rows
unfolding validate_each
validate_each-IsSound no_items ids rows h = subst (IsSound ids) (ap rows_in h) tt
validate_each-IsSound (item row l) ids rows h =
    with_fields-IsSound ids (λ i. validate_each (i ∷ ids) l) rows
      (λ i t. validate_each-IsSound l (i ∷ ids) t) (fields_of row) h

-- A document that passes is a list of rows whose ids are positive 32-bit numbers, none of them twice,
-- and whose amounts are whole numbers of cents from 1 to 100000000.
pub validate_rows-IsSound :
    (v : Json) (rows : List FixtureRow) → validate_rows v ≡ validated rows → IsSound [] rows
unfolding validate_rows
validate_rows-IsSound (json_array l) rows h = few (ltb max_rows (count_items l)) h
  where
    few :
        (b : Bool)
        → (if b
            then rejected "invoice_id" "The synthetic fixture has an invalid row count."
            else validate_each [] l)
          ≡ validated rows
        → IsSound [] rows
    few true h = cc
    few false h = validate_each-IsSound l [] rows h
validate_rows-IsSound json_null rows h = cc
validate_rows-IsSound (json_bool b) rows h = cc
validate_rows-IsSound (json_number n) rows h = cc
validate_rows-IsSound (json_text s) rows h = cc
validate_rows-IsSound (json_object m) rows h = cc
