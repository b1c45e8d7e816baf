-- ===== src/Database/Transactions.antt =====
-- One session of psycopg: a transaction reads and writes the database, the effective role and the
-- advisory lock that the session holds; an exception rolls all of it back.
use postgres_migration_rehea.Base.{◌≡◌, ap, ◌∙◌, Bool, true, false}
use postgres_migration_rehea.Database.Tables.{Version, Database}

-- The SQLSTATE classes that the statements of the program can raise.
pub data SqlState : Type 0 where
  undefined_column undefined_table undefined_object duplicate_object duplicate_column : SqlState
  not_null_violation check_violation unique_violation : SqlState
  insufficient_privilege numeric_value_out_of_range : SqlState

-- The messages of the RuntimeErrors of contract.py and of the child engine.
pub data Reason : Type 0 where
  role_assertion_failed switch_requires_v2 switch_requires_complete_backfill : Reason
  checksum_mismatch unexpected_phase injected_failure : Version → Reason
  missing_control backfill_phase_rejected enable_outside_backfill : Reason
  enable_before_complete_backfill client_phase_rejected : Reason
  down_forbidden_usd down_phase_rejected down_ledger_rejected : Reason
  down_representability_rejected : Reason
  database_already_exists database_identity_drift not_idempotent : Reason
  switch_rows_differ legacy_rows_not_restored integrity_check_failed : Reason
  constraint_check_failed destination_differs : Reason
  legacy_column_exists v1_write_passed invalid_insert_succeeded : Reason
  post_contract_mismatch : Reason
  out_of_fuel : Reason  -- of the model: a loop's bound was too small

pub data Failure : Type 0 where
  psycopg_error : SqlState → Failure
  runtime_error : Reason → Failure

pub data Result {ℓ} (A : Type ℓ) : Type ℓ where
  ok : A → Result A
  err : Failure → Result A

-- docker/init/001_roles.sql; `rehearsal_app` is the session's own user.
pub data Role : Type 0 where
  rehearsal_app owner migrator app_v1 app_v2 observer : Role

-- What the transaction holds of the advisory lock `ADVISORY_KEY`.
pub data Advisory : Type 0 where
  unlocked shared exclusive : Advisory

pub record Session : Type 0 where
  pub database : Database
  pub role : Role
  pub advisory : Advisory

abbrev pub Tx : Type 0 → Type 0
Tx A = Session → Result (A × Session)

abbrev proceed : {A B : Type 0} → (A → Tx B) → Result (A × Session) → Result (B × Session)
proceed f (ok (a, s)) = f a s
proceed f (err e) = err e

infixl 5 ◌>>=◌ ◌>>◌
abbrev pub ◌>>=◌ : {A B : Type 0} → Tx A → (A → Tx B) → Tx B
◌>>=◌ m f s = proceed f (m s)

abbrev pub ◌>>◌ : {B : Type 0} → Tx (Unit {0}) → Tx B → Tx B
m >> k = m >>= λ _. k

module _ {A : Type 0} where
  abbrev pub pure : A → Tx A
  pure a s = ok (a, s)

  abbrev pub raise : Reason → Tx A
  raise e s = err (runtime_error e)

  abbrev sql_error : SqlState → Tx A
  sql_error e s = err (psycopg_error e)

  abbrev pub gets : (Session → A) → Tx A
  gets f s = ok (f s, s)

  abbrev lift : Result A → Tx A
  lift (ok a) s = ok (a, s)
  lift (err e) s = err e

abbrev pub raise_unless : Bool → Reason → Tx (Unit {0})
raise_unless true e s = ok (tt, s)
raise_unless false e s = err (runtime_error e)

abbrev pub require : Bool → SqlState → Tx (Unit {0})
require true e s = ok (tt, s)
require false e s = err (psycopg_error e)

abbrev pub modify : (Database → Database) → Tx (Unit {0})
modify f s = ok (tt, record s { database = f s.database })

-- SET LOCAL ROLE: the login role is a member of every role of the program.
abbrev pub set_role : Role → Tx (Unit {0})
set_role r s = ok (tt, record s { role = r })

-- pg_advisory_xact_lock and its shared form; the lock is free when the call returns.
abbrev pub advisory_lock : Advisory → Tx (Unit {0})
advisory_lock l s = ok (tt, record s { advisory = l })

abbrev begin : Database → Session
begin d = record { database = d; role = rehearsal_app; advisory = unlocked }

-- `with psycopg.connect(dsn) as connection`: commit at the end, roll back on an exception.
abbrev close_transaction : {A : Type 0} → Database → Result (A × Session) → Result A × Database
close_transaction d (ok (a, s)) = (ok a, s.database)
close_transaction d (err e) = (err e, d)

abbrev pub transaction : {A : Type 0} → Tx A → Database → Result A × Database
transaction t d = close_transaction d (t (begin d))

-- A program that runs one transaction after another: what was committed stays.
abbrev pub Program : Type 0 → Type 0
Program A = Database → Result A × Database

abbrev continue : {A B : Type 0} → (A → Program B) → Result A × Database → Result B × Database
continue f (ok a, d) = f a d
continue f (err e, d) = (err e, d)

abbrev pub next : {A B : Type 0} → Program A → (A → Program B) → Program B
next m f d = continue f (m d)

-- A block whose first statement succeeds goes on from where that one ended.
pub bind-ok :
    {A B : Type 0} (m : Tx A) (f : A → Tx B) {a : A} {s s' : Session}
    → m s ≡ ok (a, s')
    → (m >>= f) s ≡ f a s'
bind-ok m f h = ap (proceed f) h

-- A sequence whose first program succeeds goes on from where that one ended.
pub next-ok :
    {A B : Type 0} (m : Program A) (f : A → Program B) (d : Database) {a : A} {d' : Database}
    → m d ≡ (ok a, d')
    → next m f d ≡ f a d'
next-ok m f d h = ap (continue f) h

abbrev pub succeed : {A : Type 0} → A → Program A
succeed a d = (ok a, d)

abbrev pub fail : {A : Type 0} → Reason → Program A
fail e d = (err (runtime_error e), d)

-- The same as a step of a chain, for a sequence of many programs.
pub next-step :
    {A B : Type 0} (m : Program A) (f : A → Program B) (d : Database) {a : A} {d' : Database}
    {r : Result B × Database}
    → m d ≡ (ok a, d')
    → f a d' ≡ r
    → next m f d ≡ r
next-step m f d h k = next-ok m f d h ∙ k
