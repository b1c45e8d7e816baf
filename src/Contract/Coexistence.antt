-- ===== src/Contract/Coexistence.antt =====
-- The old and the new client during the backfill: their writes on entries.
-- What a write adds to the entries that it selects; the trigger fills them.
use postgres_migration_rehea.Base.{
  leb, if◌then◌else◌, ==_refl, All, ℕ, ◌+◌, ◌≤◌, ◌<◌, ◌≡◌, refl, Bool, true, false, ◌&&◌, List, [],
  ◌∷◌, map, arith,
}
use postgres_migration_rehea.Contract.Clients.{
  bigint_max, add_cents, add_minor, between, update_legacy, write_v1, write_v2, client_actor,
}
use postgres_migration_rehea.Contract.Refinement.{session_of}
use postgres_migration_rehea.Contract.Rows.{update_rows-row_of, All-map_lem}
use postgres_migration_rehea.Contract.Spec.{Entry, row_of, schema_of, deployed, IsFilled}
use postgres_migration_rehea.Database.{
  backfill, Version, Digest, Database, client_phase_rejected, runtime_error, ok, err, Role, app_v1,
  app_v2, Advisory, shared, ◌>>=◌, ◌>>◌, raise_unless, require, transaction, count, update_row,
  update_rows, update_invoices,
}

abbrev raise : ℕ → Entry → Entry
raise k e = record { id = e.id; amount = e.amount + k; filled = true }

abbrev pub bump : (ℕ → Bool) → ℕ → Entry → Entry
bump p k e = if p e.id then raise k e else e

abbrev pub in_range : ℕ → ℕ → ℕ → Bool
in_range lo hi i = leb lo i && leb i hi

-- Amounts that stay within BIGINT.
abbrev Fits : ℕ → Entry → Type 0
Fits k e = e.amount + k ≤ bigint_max

All-both :
    (k : ℕ) (es : List Entry)
    → All (Fits k) es
    → IsFilled es
    → All (λ e. Fits k e × (e.filled ≡ true)) es
All-both k [] h f = tt
All-both k (e ∷ es) h f = ((h.0, f.0), All-both k es h.1 f.1)

add_cents-row_of :
    (v2 : Bool) (k : ℕ) (e : Entry)
    → Fits k e
    → 0 < k
    → update_row (schema_of backfill v2) (add_cents k) (row_of e)
      ≡ ok (row_of (record { id = e.id; amount = e.amount + k; filled = true }))
unfolding update_row
add_cents-row_of v2 k e fits p = ground (arith, ==_refl e.amount)

add_minor-row_of :
    (v2 : Bool) (k : ℕ) (e : Entry)
    → Fits k e
    → 0 < k
    → e.filled ≡ true
    → update_row (schema_of backfill v2) (add_minor k) (row_of e)
      ≡ ok (row_of (record { id = e.id; amount = e.amount + k; filled = true }))
unfolding update_row
add_minor-row_of v2 k e fits p h = ground (arith, ==_refl e.amount)

module _ (v2 : Bool) (k : ℕ) (positive : 0 < k) (lo hi : ℕ) (es : List Entry) where
  update-add_cents :
      All (Fits k) es
      → update_rows (schema_of backfill v2) (between lo hi) (add_cents k) (map row_of es)
        ≡ ok (map row_of (map (bump (in_range lo hi) k) es))
  update-add_cents h =
      update_rows-row_of (schema_of backfill v2) (between lo hi) (add_cents k) (raise k) es
        (All-map_lem (λ e fits _. add_cents-row_of v2 k e fits positive) es h)

  update-add_minor :
      All (Fits k) es
      → IsFilled es
      → update_rows (schema_of backfill v2) (between lo hi) (add_minor k) (map row_of es)
        ≡ ok (map row_of (map (bump (in_range lo hi) k) es))
  update-add_minor h f =
      update_rows-row_of (schema_of backfill v2) (between lo hi) (add_minor k) (raise k) es (
        All-map_lem (λ e both _. add_minor-row_of v2 k e both.0 positive both.1) es
          (All-both k es h f))

module _ (checksum : Version → Digest) (last scanned : ℕ) (v2 : Bool) (es : List Entry) where
  abbrev coexisting : List Entry → Database
  coexisting = deployed checksum backfill last scanned v2

  update_invoices-cents :
      (lo hi k : ℕ) (r : Role) (a : Advisory)
      → 0 < k
      → All (Fits k) es
      → update_invoices (between lo hi) (add_cents k) (session_of (coexisting es) r a)
        ≡ ok (
          count (between lo hi) (map row_of es),
          session_of (coexisting (map (bump (in_range lo hi) k) es)) r a,
        )
  unfolding update_invoices
  update_invoices-cents lo hi k r a positive h =
      rw (update-add_cents v2 k positive lo hi es h, update_invoices) refl

  update_invoices-minor :
      (lo hi k : ℕ) (r : Role) (a : Advisory)
      → 0 < k
      → All (Fits k) es
      → IsFilled es
      → update_invoices (between lo hi) (add_minor k) (session_of (coexisting es) r a)
        ≡ ok (
          count (between lo hi) (map row_of es),
          session_of (coexisting (map (bump (in_range lo hi) k) es)) r a,
        )
  unfolding update_invoices
  update_invoices-minor lo hi k r a positive h f =
      rw (update-add_minor v2 k positive lo hi es h f, update_invoices) refl

  -- The V1 client in the backfill phase, V2 enabled or not, where no amount overflows BIGINT: it
  -- commits, reports the rows of its range, raises each of their amounts by 101 and fills them
  -- through the trigger, and leaves the other rows alone.
  pub client_actor-v1 :
      All (Fits 101) es
      → transaction (client_actor false) (coexisting es) ≡ (
        ok (count (between 4001 4008) (map row_of es)),
        coexisting (map (bump (in_range 4001 4008) 101) es),
      )
  unfolding client_actor
  client_actor-v1 h =
      rw
        (
          update_invoices-cents 4001 4008 101 app_v1 shared (omega arith) h,
          client_actor,
          write_v1,
          update_legacy,
          ◌>>=◌,
          ◌>>◌,
          raise_unless,
          require,
        )
        refl

module _ (checksum : Version → Digest) (last scanned : ℕ) (es : List Entry) where
  -- The V2 client in the backfill phase with V2 enabled, every row filled and no amount
  -- overflowing BIGINT: it commits, reports the rows of its range, raises each of their amounts
  -- by 202 in both representations, and leaves the other rows alone.
  pub client_actor-v2 :
      All (Fits 202) es
      → IsFilled es
      → transaction (client_actor true) (coexisting checksum last scanned true es es) ≡ (
        ok (count (between 4017 4024) (map row_of es)),
        coexisting checksum last scanned true es (map (bump (in_range 4017 4024) 202) es),
      )
  unfolding client_actor
  client_actor-v2 h f =
      rw
        (
          update_invoices-minor checksum last scanned true es 4017 4024 202 app_v2 shared
              (omega arith) h f,
          client_actor,
          write_v2,
          ◌>>=◌,
          ◌>>◌,
          raise_unless,
          require,
        )
        refl

  -- Before that it is refused and the database stays as it was.
  client_actor-early :
      transaction (client_actor true) (deployed checksum backfill last scanned false es) ≡ (
        err (runtime_error client_phase_rejected),
        deployed checksum backfill last scanned false es,
      )
  unfolding client_actor
  client_actor-early = refl
