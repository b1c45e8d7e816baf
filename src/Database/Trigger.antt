-- ===== src/Database/Trigger.antt =====
-- The two trigger functions of the migrations and the constraints on a row of `invoices`.
use postgres_migration_rehea.Base.{Bool, true, false, not, ◌&&◌, ◌||◌, some, if◌then◌else◌}
use postgres_migration_rehea.Database.Tables.{
  Phase, initial, expand, compatibility, backfill, switch, contract, eur, Invoice, Schema, is_null,
  below_zero, at_least_zero, sql_eq, sql_ne, is_distinct, is_distinct_currency, is_eur, is_usd,
}
use postgres_migration_rehea.Database.Transactions.{
  SqlState, not_null_violation, check_violation, Result, ok, err, psycopg_error, Advisory,
  exclusive,
}

-- The pairs that `enforce_migration_phase_transition` lists.
abbrev pub is_forward : Phase → Phase → Bool
is_forward initial expand = true
is_forward expand compatibility = true
is_forward compatibility backfill = true
is_forward backfill switch = true
is_forward switch contract = true
is_forward _ _ = false

abbrev pub same_phase : Phase → Phase → Bool
same_phase initial initial = true
same_phase expand expand = true
same_phase compatibility compatibility = true
same_phase backfill backfill = true
same_phase switch switch = true
same_phase contract contract = true
same_phase _ _ = false

abbrev is_rollback : Phase → Phase → Bool
is_rollback expand initial = true
is_rollback compatibility initial = true
is_rollback backfill initial = true
is_rollback switch initial = true
is_rollback _ _ = false

abbrev pub holds_exclusive : Advisory → Bool
holds_exclusive exclusive = true
holds_exclusive _ = false

-- `enforce_migration_phase_transition`: may the row go from the old phase to the new one?
unfoldable pub phase_transition : Advisory → Phase → Phase → Result Phase
phase_transition held old new =
    if same_phase old new
    then ok new
    else if is_forward old new
    then ok new
    else if is_rollback old new && holds_exclusive held
    then ok new
    else err (psycopg_error check_violation)

abbrev invalid_pair : Result Invoice
invalid_pair = err (psycopg_error check_violation)

-- The INSERT half of `invoices_compatibility_write`.
unfoldable pub compatibility_insert : Invoice → Result Invoice
compatibility_insert new =
    if not (is_null new.amount_cents) && (is_null new.amount_minor && is_null new.currency_code)
    then (if below_zero new.amount_cents
        then invalid_pair
        else ok (record new { amount_minor = new.amount_cents; currency_code = some eur }))
    else if is_null new.amount_cents
        && (not (is_null new.amount_minor)
            && (is_eur new.currency_code && at_least_zero new.amount_minor))
    then ok (record new { amount_cents = new.amount_minor })
    else if not (is_null new.amount_cents)
        && (not (is_null new.amount_minor)
            && (sql_eq new.amount_cents new.amount_minor
                && (is_eur new.currency_code && at_least_zero new.amount_cents)))
    then ok new
    else invalid_pair

-- The UPDATE half, once the two `changed` flags are computed.
unfoldable compatibility_update : Bool → Bool → Invoice → Result Invoice
compatibility_update true false new =
    if is_null new.amount_cents || below_zero new.amount_cents
    then invalid_pair
    else ok (record new { amount_minor = new.amount_cents; currency_code = some eur })
compatibility_update false true new =
    if is_null new.amount_minor || (below_zero new.amount_minor || not (is_eur new.currency_code))
    then invalid_pair
    else ok (record new { amount_cents = new.amount_minor })
compatibility_update true true new =
    if is_null new.amount_cents
      || (is_null new.amount_minor
          || (below_zero new.amount_cents
              || (below_zero new.amount_minor
                  || (sql_ne new.amount_cents new.amount_minor || not (is_eur new.currency_code)))))
    then invalid_pair
    else ok new
compatibility_update false false new =
    if is_null new.amount_cents
      || (is_null new.amount_minor
          || (below_zero new.amount_cents
              || (below_zero new.amount_minor || not (is_eur new.currency_code))))
    then invalid_pair
    else ok new

-- `invoices_compatibility_write` for an UPDATE from `old` to `new`.
unfoldable pub fire_update : Invoice → Invoice → Result Invoice
unfolding compatibility_update
fire_update old new =
    compatibility_update (is_distinct new.amount_cents old.amount_cents)
      (is_distinct new.amount_minor old.amount_minor
        || is_distinct_currency new.currency_code old.currency_code)
      new

abbrev refuse : SqlState → Result Invoice
refuse e = err (psycopg_error e)

-- The constraints on a row: the NOT NULL columns first, then the CHECKs.
unfoldable pub check_row : Schema → Invoice → Result Invoice
check_row t r =
    if t.legacy_column && is_null r.amount_cents
    then refuse not_null_violation
    else if t.target_not_null && (is_null r.amount_minor || is_null r.currency_code)
    then refuse not_null_violation
    else if t.legacy_column && below_zero r.amount_cents
    then refuse check_violation
    else if (t.eur_checks || t.final_checks) && below_zero r.amount_minor
    then refuse check_violation
    else if t.eur_checks && not (is_null r.currency_code || is_eur r.currency_code)
    then refuse check_violation
    else if t.final_checks
        && not (is_null r.currency_code || (is_eur r.currency_code || is_usd r.currency_code))
    then refuse check_violation
    else ok r
