-- ===== src/Contract/Rejections.antt =====
-- After the contract: `exercise_post_contract_rejections`, and what V2 may still insert.
-- amount_minor and currency_code of an INSERT that the final constraints let in
use postgres_migration_rehea.Base.{
  if◌then◌else◌, ℤ, pos, negsuc, ℕ, ◌≡◌, refl, Bool, true, false, ◌&&◌, ◌||◌, Option, none, some,
  List, arith,
}
use postgres_migration_rehea.Contract.Clients.{v2_insert}
use postgres_migration_rehea.Contract.Spec.{Entry, deployed}
use postgres_migration_rehea.Database.{
  contract, Version, Currency, eur, usd, other, Digest, Database, is_null, at_least_zero, is_eur,
  is_usd, check_row, SqlState, not_null_violation, check_violation, psycopg_error, err, transaction,
  insert_row,
}

abbrev is_final : Option ℤ → Option Currency → Bool
is_final m k = at_least_zero m && (is_eur k || is_usd k)

abbrev refusal : Option ℤ → Option Currency → SqlState
refusal m k = if is_null m || is_null k then not_null_violation else check_violation

module _ (checksum : Version → Digest) (last scanned : ℕ) (es : List Entry) where
  abbrev pub contracted : Database
  contracted = deployed checksum contract last scanned true es

  -- In the contract phase an INSERT of V2 that does not carry a non-negative amount in EUR or
  -- USD is refused and changes nothing: by NOT NULL where a value is missing, by a CHECK
  -- otherwise.
  pub v2_insert-refused :
      (i : ℕ) (m : Option ℤ) (k : Option Currency)
      → is_final m k ≡ false
      → transaction (v2_insert i m k) contracted ≡ (err (psycopg_error (refusal m k)), contracted)
  unfolding v2_insert insert_row check_row
  v2_insert-refused i none none h = refl
  v2_insert-refused i none (some k) h = refl
  v2_insert-refused i (some (pos m)) none h = refl
  v2_insert-refused i (some (negsuc m)) none h = refl
  v2_insert-refused i (some (pos m)) (some eur) h = ground arith
  v2_insert-refused i (some (pos m)) (some usd) h = ground arith
  v2_insert-refused i (some (pos m)) (some (other c)) h = refl
  v2_insert-refused i (some (negsuc m)) (some k) h = refl
