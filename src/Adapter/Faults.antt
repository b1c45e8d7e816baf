-- ===== src/Adapter/Faults.antt =====
-- The exceptions that the adapter raises or lets through, and a result or one of them.
use postgres_migration_rehea.Base.{
  if◌then◌else◌, same_text, Bool, true, false, List, [], ◌∷◌, String,
}

pub data Fault : Type 0 where
  runtime_error runtime_identity_error relay_error engine_busy key_error : String → Fault
  fixture_error : String → String → Fault
  command_timeout os_error file_not_found type_error : Fault

pub data Attempt (A : Type 0) : Type 0 where
  done : A → Attempt A
  fault : Fault → Attempt A

abbrev pub is_one_of : String → List String → Bool
is_one_of s [] = false
is_one_of s (t ∷ ts) = if same_text s t then true else is_one_of s ts

infixl 5 ◌>>=◌ ◌>>◌
abbrev pub ◌>>=◌ : {A B : Type 0} → Attempt A → (A → Attempt B) → Attempt B
done a >>= f = f a
fault e >>= f = fault e

abbrev pub ◌>>◌ : {A B : Type 0} → Attempt A → Attempt B → Attempt B
m >> k = m >>= (λ _. k)

-- `if not ...: raise ...`
abbrev pub require : Bool → Fault → Attempt (Unit {0})
require true e = done tt
require false e = fault e
