-- ===== src/Response/Rendered.antt =====
-- The rows that the engine prints are read back by `_validate_rows`.
use mathlib.Core.Path.{subst}
use postgres_migration_rehea.Base.{
  ltb, if◌then◌else◌, le→leb, le→not_ltb, not_ltb→le, Bool-cases, length, ℕ, ◌≤◌, ◌≡◌, refl, inl,
  inr, false, List, [], ◌∷◌, map,
}
use postgres_migration_rehea.Engine.{FixtureRow}
use postgres_migration_rehea.Fixtures.{
  Validated, rejected, validated, max_rows, max_invoice_id, max_amount, fields_of, with_fields,
  validate_each, count_items, validate_rows,
}
use postgres_migration_rehea.Fixtures.Bounds.{IsSoundRow, IsSound, validate_rows-IsSound}
use postgres_migration_rehea.Http.{Json}
use postgres_migration_rehea.Response.Document.{items_of, row_json, rows_json}

sound_row-fields :
    (ids : List ℕ) (r : FixtureRow) (rest : ℕ → Validated) (rows : List FixtureRow)
    → IsSoundRow ids r
    → rest r.invoice_id ≡ validated rows
    → with_fields ids (fields_of (row_json r)) rest ≡ validated (r ∷ rows)
sound_row-fields ids r rest rows (low, (high, (least, (most, new)))) h =
    rw
      (
        le→leb 1 r.invoice_id low,
        le→leb r.invoice_id max_invoice_id high,
        new,
        le→leb 1 r.amount_cents least,
        le→leb r.amount_cents max_amount most,
        h,
      )
      refl

validate_each-rendered :
    (ids : List ℕ) (rows : List FixtureRow)
    → IsSound ids rows
    → validate_each ids (items_of (map row_json rows)) ≡ validated rows
unfolding validate_each
validate_each-rendered ids [] h = refl
validate_each-rendered ids (r ∷ rows) h =
    sound_row-fields ids r (λ i. validate_each (i ∷ ids) (items_of (map row_json rows))) rows h.0
      (validate_each-rendered (r.invoice_id ∷ ids) rows h.1)

pub count_items-rendered :
    {A : Type 0} (f : A → Json) (xs : List A) → count_items (items_of (map f xs)) ≡ length xs
count_items-rendered f [] = refl
count_items-rendered f (x ∷ xs) = rw (count_items-rendered f xs) refl

-- Up to six sound rows, printed as the engine prints them, validate to themselves.
pub validate_rows-rendered :
    (rows : List FixtureRow)
    → IsSound [] rows
    → length rows ≤ max_rows
    → validate_rows (rows_json rows) ≡ validated rows
unfolding validate_rows
validate_rows-rendered rows h few =
    rw (count_items-rendered row_json rows, le→not_ltb max_rows (length rows) few)
      (validate_each-rendered [] rows h)

few_rows :
    (rows : List FixtureRow)
    → validate_rows (rows_json rows) ≡ validated rows
    → length rows ≤ max_rows
unfolding validate_rows
few_rows rows h = elim (Bool-cases (ltb max_rows (count_items (items_of (map row_json rows))))) [
  | inl many ↦ cc (
      subst
        (λ b.
          (if b
            then rejected "invoice_id" "The synthetic fixture has an invalid row count."
            else validate_each [] (items_of (map row_json rows)))
          ≡ validated rows)
        many h)
  | inr few ↦
      not_ltb→le max_rows (length rows)
        (subst (λ n. ltb max_rows n ≡ false) (count_items-rendered row_json rows) few)
]

-- Printed rows are read back as they were by `_validate_rows` if and only if they are at most six and
-- sound: every id from 1 to 2147483647 and none twice, every amount from 1 to 100000000.
pub validate_rows-exactly :
    (rows : List FixtureRow)
    → (validate_rows (rows_json rows) ≡ validated rows → IsSound [] rows × (length rows ≤ max_rows))
      × (IsSound [] rows × (length rows ≤ max_rows)
          → validate_rows (rows_json rows) ≡ validated rows)
validate_rows-exactly rows = (
  λ h. (validate_rows-IsSound (rows_json rows) rows h, few_rows rows h),
  λ h. validate_rows-rendered rows h.0 h.1,
)
