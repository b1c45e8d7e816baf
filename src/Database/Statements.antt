-- ===== src/Database/Statements.antt =====
-- The statements that the program sends: reads and updates of the tables, and the privileges that
-- the column grants of the migrations give.
use postgres_migration_rehea.Base.{
  ltb, ◌==◌, if◌then◌else◌, ℕ, suc, Bool, true, false, ◌&&◌, Option, none, some, List, [], ◌∷◌, map,
}
use postgres_migration_rehea.Database.Tables.{
  Phase, Version, v0001, v0002, v0003, v0004, v0005, Invoice, Control, Schema, Digest,
}
use postgres_migration_rehea.Database.Transactions.{
  undefined_table, unique_violation, psycopg_error, Result, ok, err, Role, rehearsal_app, owner,
  migrator, app_v1, app_v2, observer, Tx, modify,
}
use postgres_migration_rehea.Database.Trigger.{
  phase_transition, compatibility_insert, fire_update, check_row,
}

-- SELECT ... FROM migration_control WHERE singleton
abbrev pub select_control : Tx Control
select_control s = elim s.database.control [
  | none ↦ err (psycopg_error undefined_table)
  | some c ↦ ok (c, s)
]

abbrev pub store_control : Control → Tx (Unit {0})
store_control c = modify (λ d. record d { control = some c })

-- UPDATE migration_control SET phase = ..., under its BEFORE UPDATE OF phase trigger
unfoldable pub update_phase : Phase → Tx (Unit {0})
unfolding phase_transition
update_phase p s = elim s.database.control [
  | none ↦ err (psycopg_error undefined_table)
  | some c ↦ elim (phase_transition s.advisory c.phase p) [
    | ok q ↦ store_control (record c { phase = q }) s
    | err e ↦ err e
  ]
]

-- the rows that a WHERE clause selects
abbrev pub select {ℓ} : {A : Type ℓ} → (A → Bool) → List A → List A
select p [] = []
select p (r ∷ rs) = if p r then r ∷ select p rs else select p rs

-- SELECT count(*) ... WHERE
abbrev pub count {ℓ} : {A : Type ℓ} → (A → Bool) → List A → ℕ
count p [] = 0
count p (r ∷ rs) = if p r then suc (count p rs) else count p rs

abbrev then_check : Schema → Result Invoice → Result Invoice
then_check t (ok r) = check_row t r
then_check t (err e) = err e

abbrev fire_if : Bool → Invoice → Invoice → Result Invoice
fire_if true old new = fire_update old new
fire_if false old new = ok new

abbrev then_fire : Bool → Invoice → Result Invoice → Result Invoice
then_fire b old (ok new) = fire_if b old new
then_fire b old (err e) = err e

-- One row of an UPDATE: the SET clause, the BEFORE trigger, the constraints.
unfoldable pub update_row : Schema → (Invoice → Result Invoice) → Invoice → Result Invoice
unfolding fire_update check_row
update_row t set_clause old = then_check t (then_fire t.compatibility_trigger old (set_clause old))

abbrev cons_row : Result Invoice → Result (List Invoice) → Result (List Invoice)
cons_row (ok r) (ok rs) = ok (r ∷ rs)
cons_row (ok r) (err e) = err e
cons_row (err e) _ = err e

-- The rows after an UPDATE ... WHERE; the first failing row aborts the statement.
unfoldable pub update_rows :
    Schema → (Invoice → Bool) → (Invoice → Result Invoice) → List Invoice → Result (List Invoice)
update_rows t p set_clause [] = ok []
update_rows t p set_clause (r ∷ rs) =
    cons_row (if p r then update_row t set_clause r else ok r) (update_rows t p set_clause rs)

-- UPDATE invoices SET ... WHERE ...; the value is `cursor.rowcount`.
unfoldable pub update_invoices : (Invoice → Bool) → (Invoice → Result Invoice) → Tx ℕ
update_invoices p set_clause s =
    elim (update_rows s.database.schema p set_clause s.database.invoices) [
      | ok rows ↦ ok (
        count p s.database.invoices,
        record s { database = record s.database { invoices = rows } },
      )
      | err e ↦ err e
    ]

-- The place of a new row in the order of the primary key.
abbrev pub place_row : Invoice → List Invoice → Result (List Invoice)
place_row r [] = ok (r ∷ [])
place_row r (q ∷ rs) =
    let rest = cons_row (ok q) (place_row r rs) in
    if r.id == q.id
    then err (psycopg_error unique_violation)
    else if ltb r.id q.id
    then ok (r ∷ q ∷ rs)
    else rest

abbrev insert_fire : Bool → Invoice → Result Invoice
insert_fire true r = compatibility_insert r
insert_fire false r = ok r

abbrev then_place : List Invoice → Result Invoice → Result (List Invoice)
then_place rs (ok r) = place_row r rs
then_place rs (err e) = err e

-- INSERT INTO invoices: the BEFORE trigger, the constraints, the primary key.
unfoldable pub insert_row : Schema → Invoice → List Invoice → Result (List Invoice)
unfolding compatibility_insert check_row
insert_row t r rs = then_place rs (then_check t (insert_fire t.compatibility_trigger r))

unfoldable pub insert_invoice : Invoice → Tx (Unit {0})
insert_invoice r s = elim (insert_row s.database.schema r s.database.invoices) [
  | ok rows ↦ ok (tt, record s { database = record s.database { invoices = rows } })
  | err e ↦ err e
]

-- UPDATE (amount_cents): the owner's roles, and V1 while it holds its grant.
abbrev pub may_write_legacy : Role → Schema → Bool
may_write_legacy rehearsal_app t = true
may_write_legacy owner t = true
may_write_legacy migrator t = true
may_write_legacy app_v1 t = t.v1_grant
may_write_legacy app_v2 t = false
may_write_legacy observer t = false

-- UPDATE and INSERT (amount_minor, currency_code)
abbrev pub may_write_target : Role → Schema → Bool
may_write_target rehearsal_app t = true
may_write_target owner t = true
may_write_target migrator t = true
may_write_target app_v1 t = false
may_write_target app_v2 t = t.v2_grant
may_write_target observer t = false

abbrev pub version_index : Version → ℕ
version_index v0001 = 1
version_index v0002 = 2
version_index v0003 = 3
version_index v0004 = 4
version_index v0005 = 5

-- SELECT sha256 FROM schema_migrations WHERE version = ...
abbrev pub lookup_version : Version → List (Version × Digest) → Option Digest
lookup_version v [] = none
lookup_version v ((w, d) ∷ rest) =
    if version_index v == version_index w then some d else lookup_version v rest

abbrev cons_entry :
    Version × Digest → Result (List (Version × Digest)) → Result (List (Version × Digest))
cons_entry e (ok l) = ok (e ∷ l)
cons_entry e (err x) = err x

-- INSERT INTO schema_migrations, in the order of its primary key
abbrev insert_version :
    Version → Digest → List (Version × Digest) → Result (List (Version × Digest))
insert_version v d [] = ok ((v, d) ∷ [])
insert_version v d ((w, e) ∷ l) =
    let rest = cons_entry (w, e) (insert_version v d l) in
    if version_index v == version_index w
    then err (psycopg_error unique_violation)
    else if ltb (version_index v) (version_index w)
    then ok ((v, d) ∷ (w, e) ∷ l)
    else rest

abbrev pub eq_versions : List (Version × Digest) → List (Version × Digest) → Bool
eq_versions [] [] = true
eq_versions [] (_ ∷ _) = false
eq_versions (_ ∷ _) [] = false
eq_versions ((v, d) ∷ l) ((w, e) ∷ m) =
    version_index v == version_index w && (d == e && eq_versions l m)

abbrev pub store_migration : Version → Digest → Tx (Unit {0})
store_migration v d s = elim (insert_version v d s.database.schema_migrations) [
  | ok l ↦ ok (tt, record s { database = record s.database { schema_migrations = l } })
  | err e ↦ err e
]

abbrev pub alter : (Schema → Schema) → Tx (Unit {0})
alter f = modify (λ d. record d { schema = f d.schema })

abbrev pub rewrite_rows : (Invoice → Invoice) → Tx (Unit {0})
rewrite_rows f = modify (λ d. record d { invoices = map f d.invoices })
