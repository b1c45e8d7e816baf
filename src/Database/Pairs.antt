-- ===== src/Database/Pairs.antt =====
-- What the compatibility trigger and the phase trigger let through.
-- Both representations agree: the same non-negative amount, in EUR.
use postgres_migration_rehea.Base.{
  ℤ, eq_ℤ-refl, eq_ℤ→eq, ℕ, ◌≡◌, Bool, true, ◌&&◌, ◌||◌, Option, none, some, arith,
}
use postgres_migration_rehea.Database.Tables.{
  Currency, Invoice, is_null, at_least_zero, sql_eq, is_eur,
}
use postgres_migration_rehea.Database.Transactions.{ok}
use postgres_migration_rehea.Database.Trigger.{compatibility_insert, fire_update}

abbrev pub is_paired : Invoice → Bool
is_paired r =
    sql_eq r.amount_cents r.amount_minor && (at_least_zero r.amount_cents && is_eur r.currency_code)

-- A row that an UPDATE may find: paired, or not yet filled.
abbrev is_settled : Invoice → Bool
is_settled r = is_paired r || (is_null r.amount_minor && is_null r.currency_code)

abbrev invoice : ℕ → Option ℤ → Option ℤ → Option Currency → Invoice
invoice i c m k = record { id = i; amount_cents = c; amount_minor = m; currency_code = k }

insert_pair :
    (i : ℕ) (c m : Option ℤ) (k : Option Currency) (r : Invoice)
    → compatibility_insert (invoice i c m k) ≡ ok r
    → is_paired r ≡ true
unfolding compatibility_insert
insert_pair i none none k r h = ground arith
insert_pair i none (some b) k r h = ground (arith, eq_ℤ-refl b)
insert_pair i (some a) none k r h = ground (arith, eq_ℤ-refl a)
insert_pair i (some a) (some b) k r h = ground arith

-- The compatibility trigger on INSERT: a row that it lets through has the same non-negative
-- amount in both columns, in EUR.
pub compatibility_insert-is_paired :
    (new r : Invoice) → compatibility_insert new ≡ ok r → is_paired r ≡ true
compatibility_insert-is_paired new r h =
    insert_pair new.id new.amount_cents new.amount_minor new.currency_code r h

update_pair :
    (i j : ℕ) (c c' m m' : Option ℤ) (k k' : Option Currency) (r : Invoice)
    → is_settled (invoice i c m k) ≡ true
    → fire_update (invoice i c m k) (invoice j c' m' k') ≡ ok r
    → is_paired r ≡ true
unfolding fire_update
update_pair i j none none none none k k' r s h = ground arith
update_pair i j none none none (some b') k k' r s h = ground (arith, eq_ℤ-refl b')
update_pair i j none none (some b) none k k' r s h = ground arith
update_pair i j none none (some b) (some b') k k' r s h = ground (arith, eq_ℤ-refl b')
update_pair i j none (some a') none none k k' r s h = ground (arith, eq_ℤ-refl a')
update_pair i j none (some a') none (some b') k k' r s h = ground arith
update_pair i j none (some a') (some b) none k k' r s h = ground arith
update_pair i j none (some a') (some b) (some b') k k' r s h = ground arith
update_pair i j (some a) none none none k k' r s h = ground arith
update_pair i j (some a) none none (some b') k k' r s h = ground arith
update_pair i j (some a) none (some b) none k k' r s h = ground arith
update_pair i j (some a) none (some b) (some b') k k' r s h = ground arith
update_pair i j (some a) (some a') none none k k' r s h = ground (arith, eq_ℤ-refl a')
update_pair i j (some a) (some a') none (some b') k k' r s h =
    ground (arith, eq_ℤ-refl a', eq_ℤ-refl b')
update_pair i j (some a) (some a') (some b) none k k' r s h = ground (arith, eq_ℤ-refl a')
update_pair i j (some a) (some a') (some b) (some b') k k' r s h =
    ground (arith, eq_ℤ-refl a', eq_ℤ-refl b', eq_ℤ→eq a b, eq_ℤ→eq a' a, eq_ℤ→eq b' b)

-- The compatibility trigger on UPDATE: of an old row that is paired or not yet filled, a row
-- that the trigger lets through has the same non-negative amount in both columns, in EUR,
-- whichever columns the statement wrote.
pub fire_update-is_paired :
    (old new r : Invoice) → is_settled old ≡ true → fire_update old new ≡ ok r → is_paired r ≡ true
fire_update-is_paired old new r s h =
    update_pair old.id new.id old.amount_cents new.amount_cents old.amount_minor new.amount_minor
      old.currency_code new.currency_code r s h
