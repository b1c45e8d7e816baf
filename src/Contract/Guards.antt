-- ===== src/Contract/Guards.antt =====
-- What stops `_apply_migration`, and what it does with a version that was applied before. The
-- database may hold anything; it is left as it was.
use mathlib.Core.Option.{some-injective}
use postgres_migration_rehea.Base.{
  ◌==◌, if◌then◌else◌, ==_refl, ne_test, Bool-cases, ℕ, suc, ◌≡◌, refl, ap, ◌∙◌, ◌≢◌, inl, inr,
  Bool, false, ◌||◌, Option, none, some, List, arith,
}
use postgres_migration_rehea.Contract.Apply.{
  expected_phase, guard_phase, run_migration, apply_unless, apply_migration,
}
use postgres_migration_rehea.Database.{
  Phase, initial, expand, backfill, switch, Version, v0001, v0002, v0003, v0004, v0005, Invoice,
  Control, Schema, Digest, Database, same_phase, checksum_mismatch, unexpected_phase, runtime_error,
  Result, ok, err, transaction, lookup_version,
}
use postgres_migration_rehea.Database.Phases.{rank}

-- The place of the phase that a version leads to; 0001 makes the first.
abbrev pub leads_to : Version → ℕ
leads_to v0001 = 0
leads_to v0002 = 1
leads_to v0003 = 2
leads_to v0004 = 4
leads_to v0005 = 5

module _ (checksum : Version → Digest) (c : Control) (t : Schema) (ledger : List (Version × Digest))
    (rows : List Invoice) where
  abbrev holding : Database
  holding = record { control = some c; schema = t; schema_migrations = ledger; invoices = rows }

  -- Whatever the tables hold, applying a version that the ledger holds with its own checksum
  -- returns false and changes nothing, with the failpoint set or not.
  pub apply-applied :
      (v : Version) (fail_before_commit : Bool)
      → lookup_version v ledger ≡ some (checksum v)
      → transaction (apply_migration checksum v fail_before_commit) holding ≡ (ok false, holding)
  unfolding apply_migration
  apply-applied v fail_before_commit h = rw (h, apply_unless, ==_refl (checksum v)) refl

  -- Whatever else the tables hold, applying a version that the ledger holds with another
  -- checksum is a checksum mismatch and changes nothing.
  pub apply-mismatch :
      (v : Version) (fail_before_commit : Bool) (d : Digest)
      → lookup_version v ledger ≡ some d
      → d ≢ checksum v
      → transaction (apply_migration checksum v fail_before_commit) holding
        ≡ (err (runtime_error (checksum_mismatch v)), holding)
  unfolding apply_migration
  apply-mismatch v fail_before_commit d h ne = rw (h, apply_unless, ne_test d (checksum v) ne) refl

  phase-refused :
      (v : Version) (p : Phase) (fail_before_commit : Bool)
      → lookup_version v ledger ≡ none
      → expected_phase v ≡ some p
      → same_phase c.phase p ≡ false
      → transaction (apply_migration checksum v fail_before_commit) holding
        ≡ (err (runtime_error (unexpected_phase v)), holding)
  unfolding apply_migration
  phase-refused v p fail_before_commit h e wrong =
      rw (h, apply_unless, run_migration, e, guard_phase, wrong) refl

  -- What a version does that is not run: one that the ledger holds with a given digest is already
  -- applied or a mismatch, and one above 0001 wants the phase just below the one it leads to.
  abbrev pub outcome_unrun : Option Digest → Version → Phase → Option (Result Bool)
  outcome_unrun (some d) v p =
      some (if d == checksum v then ok false else err (runtime_error (checksum_mismatch v)))
  outcome_unrun none v p =
      if leads_to v == 0 || suc (rank p) == leads_to v
      then none
      else some (err (runtime_error (unexpected_phase v)))

  held-unrun :
      (v : Version) (fail_before_commit : Bool) (d : Digest)
      → lookup_version v ledger ≡ some d
      → transaction (apply_migration checksum v fail_before_commit) holding
        ≡ (if d == checksum v then ok false else err (runtime_error (checksum_mismatch v)), holding)
  unfolding apply_migration
  held-unrun v fail_before_commit d h = elim (Bool-cases (d == checksum v)) [
    | inl holds ↦ rw (h, apply_unless, holds) refl
    | inr fails ↦ rw (h, apply_unless, fails) refl
  ]

  absent-unrun :
      (v : Version) (p : Phase) (out : Result Bool)
      → outcome_unrun none v p ≡ some out
      → (q : Phase) × ((expected_phase v ≡ some q)
          × ((same_phase p q ≡ false) × (err (runtime_error (unexpected_phase v)) ≡ out)))
  absent-unrun v0001 p out e = ground arith
  absent-unrun v0002 p out e = (initial, (refl, (ground arith, ground arith)))
  absent-unrun v0003 p out e = (expand, (refl, (ground arith, ground arith)))
  absent-unrun v0004 p out e = (backfill, (refl, (ground arith, ground arith)))
  absent-unrun v0005 p out e = (switch, (refl, (ground arith, ground arith)))

  -- Whatever else the tables hold: applying a version that the ledger holds with its own checksum
  -- returns false, one that it holds with another checksum is a checksum mismatch, and one that it
  -- does not hold, other than 0001, is refused for its phase unless the phase is the one just below
  -- the phase that the version leads to (expand, compatibility, switch and contract for 0002 to 0005).
  -- Each leaves the database as it was, with the failpoint set or not.
  pub apply-unrun :
      (v : Version) (fail_before_commit : Bool) (out : Result Bool)
      → outcome_unrun (lookup_version v ledger) v c.phase ≡ some out
      → transaction (apply_migration checksum v fail_before_commit) holding ≡ (out, holding)
  apply-unrun v fail_before_commit out e = by_entry (lookup_version v ledger) refl e
    where
      by_entry :
          (l : Option Digest)
          → lookup_version v ledger ≡ l
          → outcome_unrun l v c.phase ≡ some out
          → transaction (apply_migration checksum v fail_before_commit) holding ≡ (out, holding)
      by_entry (some d) h e =
          held-unrun v fail_before_commit d h ∙ ap (λ o. (o, holding)) (some-injective _ _ e)
      by_entry none h e =
          let found = absent-unrun v c.phase out e in
          phase-refused v found.0 fail_before_commit h found.1.0 found.1.1.0
          ∙ ap (λ o. (o, holding)) found.1.1.1
