-- ===== src/Database/Tables.antt =====
-- The tables of migrations/0001_initial.sql and what the later migrations add to them or drop.
-- A table is the list of its rows in the order of its primary key, so `ORDER BY id` reads it as it
-- stands. A column that the schema lacks is `none` in every row.
use postgres_migration_rehea.Base.{
  ℕ, Bool, true, false, Option, none, some, List, ℤ, is_negative, eq_ℤ, not, ◌==◌,
}

-- `migration_phase`
pub data Phase : Type 0 where
  initial expand compatibility backfill switch contract : Phase

-- The migrations, named by the prefixes of their files.
pub data Version : Type 0 where
  v0001 v0002 v0003 v0004 v0005 : Version

-- `currency_code TEXT`: the two codes that the program names, and any other text.
pub data Currency : Type 0 where
  eur usd : Currency
  other : ℕ → Currency

pub record Invoice : Type 0 where
  pub id : ℕ
  pub amount_cents : Option ℤ
  pub amount_minor : Option ℤ
  pub currency_code : Option Currency

-- The one row of `migration_control`.
pub record Control : Type 0 where
  pub phase : Phase
  pub backfill_last_id : ℕ
  pub backfill_scanned_rows : ℕ
  pub v2_enabled : Bool

-- What the catalog says of `invoices`: its columns, constraints, trigger and column grants.
pub record Schema : Type 0 where
  pub legacy_column : Bool  -- amount_cents
  pub target_columns : Bool  -- amount_minor, currency_code
  pub target_not_null : Bool
  pub eur_checks : Bool  -- invoices_amount_minor_nonnegative, invoices_currency_code_eur
  pub final_checks : Bool  -- invoices_amount_minor_final, invoices_currency_code_final
  pub compatibility_trigger : Bool
  pub v1_grant : Bool
  pub v2_grant : Bool

-- A SHA-256 digest is the number that its 64 hexadecimal digits write.
abbrev pub Digest : Type 0
Digest = ℕ

-- `control` is `none` before the tables are created.
pub record Database : Type 0 where
  pub control : Option Control
  pub schema : Schema
  pub schema_migrations : List (Version × Digest)
  pub invoices : List Invoice

-- SQL's tests on nullable values. NULL counts as false: every use stands in a condition or in a
-- disjunction, where NULL does not select.
abbrev pub is_null {ℓ} : {A : Type ℓ} → Option A → Bool
is_null none = true
is_null (some _) = false

-- x < 0
abbrev pub below_zero : Option ℤ → Bool
below_zero none = false
below_zero (some a) = is_negative a

-- x >= 0
abbrev pub at_least_zero : Option ℤ → Bool
at_least_zero none = false
at_least_zero (some a) = not (is_negative a)

-- x = y
abbrev pub sql_eq : Option ℤ → Option ℤ → Bool
sql_eq none _ = false
sql_eq (some _) none = false
sql_eq (some a) (some b) = eq_ℤ a b

-- x <> y
abbrev pub sql_ne : Option ℤ → Option ℤ → Bool
sql_ne none _ = false
sql_ne (some _) none = false
sql_ne (some a) (some b) = not (eq_ℤ a b)

-- x IS DISTINCT FROM y
abbrev pub is_distinct : Option ℤ → Option ℤ → Bool
is_distinct none none = false
is_distinct none (some _) = true
is_distinct (some _) none = true
is_distinct (some a) (some b) = not (eq_ℤ a b)

-- currency_code = 'EUR'
abbrev pub is_eur : Option Currency → Bool
is_eur (some eur) = true
is_eur _ = false

abbrev eq_currency : Currency → Currency → Bool
eq_currency eur eur = true
eq_currency usd usd = true
eq_currency (other a) (other b) = a == b
eq_currency _ _ = false

-- IS DISTINCT FROM on currency codes
abbrev pub is_distinct_currency : Option Currency → Option Currency → Bool
is_distinct_currency none none = false
is_distinct_currency none (some _) = true
is_distinct_currency (some _) none = true
is_distinct_currency (some a) (some b) = not (eq_currency a b)

abbrev pub is_usd : Option Currency → Bool
is_usd (some usd) = true
is_usd _ = false
