-- ===== src/Contract/Rows.antt =====
-- How the statements act on the rows of a list of entries.
-- An UPDATE that turns each selected entry's row into the row of `g e`.
use postgres_migration_rehea.Base.{
  if◌then◌else◌, ==_refl, Bool-cases, All, All-of, ◌≡◌, refl, inl, inr, Bool, true, false, List, [],
  ◌∷◌, map, arith,
}
use postgres_migration_rehea.Contract.Apply.{is_incomplete}
use postgres_migration_rehea.Contract.Backfill.{copy_amount}
use postgres_migration_rehea.Contract.Down.{is_unrepresentable, drop_target}
use postgres_migration_rehea.Contract.Migrations.{
  no_row, breaks_eur_checks, misses_target, breaks_final_checks, drop_legacy,
}
use postgres_migration_rehea.Contract.Spec.{
  Entry, row_of, final_row, schema_of, IsFilled, fill, unfill,
}
use postgres_migration_rehea.Database.{
  backfill, Invoice, Schema, Result, ok, count, update_row, update_rows,
}

pub update_rows-row_of :
    (t : Schema) (p : Invoice → Bool) (f : Invoice → Result Invoice) (g : Entry → Entry)
    → (es : List Entry)
    → All (λ e. p (row_of e) ≡ true → update_row t f (row_of e) ≡ ok (row_of (g e))) es
    → update_rows t p f (map row_of es)
      ≡ ok (map row_of (map (λ e. if p (row_of e) then g e else e) es))
unfolding update_rows
update_rows-row_of t p f g [] h = refl
update_rows-row_of t p f g (e ∷ es) h = elim (Bool-cases (p (row_of e))) [
  | inl yes_row ↦ rw (yes_row, h.0 yes_row, update_rows-row_of t p f g es h.1) refl
  | inr no_row ↦ rw (no_row, update_rows-row_of t p f g es h.1) refl
]

-- With the compatibility trigger, copying the amount fills an entry, filled before or not.
pub copy_amount-fill :
    (v2 : Bool) (e : Entry)
    → update_row (schema_of backfill v2) copy_amount (row_of e) ≡ ok (row_of (fill e))
unfolding update_row
copy_amount-fill v2 e = ground (arith, ==_refl e.amount)

-- A WHERE clause that no entry's row meets counts nothing.
count-row_of :
    (p : Invoice → Bool) (es : List Entry)
    → All (λ e. p (row_of e) ≡ false) es
    → count p (map row_of es) ≡ 0
count-row_of p [] h = refl
count-row_of p (e ∷ es) h = rw h.0 (count-row_of p es h.1)

abbrev Rejects : (Invoice → Bool) → Entry → Type 0
Rejects p e = p (row_of e) ≡ false

module _ (e : Entry) where
  is_incomplete-filled : e.filled ≡ true → Rejects is_incomplete e
  is_incomplete-filled h = ground (arith, ==_refl e.amount)

  breaks_eur_checks-row_of : Rejects breaks_eur_checks e
  breaks_eur_checks-row_of = ground arith

  misses_target-filled : e.filled ≡ true → Rejects misses_target e
  misses_target-filled h = ground arith

  breaks_final_checks-row_of : Rejects breaks_final_checks e
  breaks_final_checks-row_of = ground arith

  is_unrepresentable-row_of : Rejects is_unrepresentable e
  is_unrepresentable-row_of = ground (arith, ==_refl e.amount)

pub All-map_lem {ℓ κ} :
    {A : Type ℓ} {P Q : A → Type κ} → ((x : A) → P x → Q x) → (xs : List A) → All P xs → All Q xs
All-map_lem f [] h = tt
All-map_lem f (x ∷ xs) h = (f x h.0, All-map_lem f xs h.1)

module _ (es : List Entry) where
  pub count-is_incomplete : IsFilled es → count is_incomplete (map row_of es) ≡ 0
  count-is_incomplete h = count-row_of is_incomplete es (All-map_lem is_incomplete-filled es h)

  pub count-misses_target : IsFilled es → count misses_target (map row_of es) ≡ 0
  count-misses_target h = count-row_of misses_target es (All-map_lem misses_target-filled es h)

  pub count-breaks_eur_checks : count breaks_eur_checks (map row_of es) ≡ 0
  count-breaks_eur_checks = count-row_of breaks_eur_checks es (All-of _ breaks_eur_checks-row_of es)

  pub count-breaks_final_checks : count breaks_final_checks (map row_of es) ≡ 0
  count-breaks_final_checks =
      count-row_of breaks_final_checks es (All-of _ breaks_final_checks-row_of es)

  pub count-is_unrepresentable : count is_unrepresentable (map row_of es) ≡ 0
  count-is_unrepresentable =
      count-row_of is_unrepresentable es (All-of _ is_unrepresentable-row_of es)

pub IsFilled-fill : (es : List Entry) → IsFilled (map fill es)
IsFilled-fill [] = tt
IsFilled-fill (e ∷ es) = (refl, IsFilled-fill es)

-- Dropping the legacy column leaves the final rows; dropping the target columns, the legacy rows.
pub map-drop_legacy :
    (es : List Entry) → IsFilled es → map drop_legacy (map row_of es) ≡ map final_row es
map-drop_legacy [] h = refl
map-drop_legacy (e ∷ es) h = rw (h.0, map-drop_legacy es h.1) refl

pub map-drop_target :
    (es : List Entry) → map drop_target (map row_of es) ≡ map row_of (map unfill es)
map-drop_target [] = refl
map-drop_target (e ∷ es) = rw (map-drop_target es) refl
