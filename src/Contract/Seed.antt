-- ===== src/Contract/Seed.antt =====
-- The first migration with its seed, and the fixture's rows: inserts at the end of the key order.
use postgres_migration_rehea.Base.{
  le→not_ltb, ne_of_lt, ne_of_lt', All, ℕ, zero, suc, ◌+◌, ◌*◌, ◌%◌, ◌≤◌, ◌<◌, ◌≡◌, refl, false,
  List, [], ◌∷◌, ◌++◌, map, arith,
}
use postgres_migration_rehea.Contract.Apply.{holds_id, seed_invoice, insert_or_skip, seed_from}
use postgres_migration_rehea.Contract.Migrations.{initial_schema}
use postgres_migration_rehea.Contract.Rows.{All-map_lem}
use postgres_migration_rehea.Contract.Spec.{Entry, row_of}
use postgres_migration_rehea.Database.{
  Database, ok, Role, Advisory, Session, ◌>>=◌, ◌>>◌, place_row, insert_row, insert_invoice,
}

abbrev pub IsBelow : ℕ → List Entry → Type 0
IsBelow i = All (λ e. e.id < i)

pub IsBelow-append :
    (i : ℕ) (e : Entry) (es : List Entry) → IsBelow i es → e.id < i → IsBelow i (es ++ e ∷ [])
IsBelow-append i e [] h lt = (lt, tt)
IsBelow-append i e (d ∷ es) h lt = (h.0, IsBelow-append i e es h.1 lt)

pub IsBelow-mono : (i j : ℕ) (es : List Entry) → i ≤ j → IsBelow i es → IsBelow j es
IsBelow-mono i j es le = All-map_lem (λ e lt. omega arith) es

place_row-last :
    (e : Entry) (es : List Entry)
    → IsBelow e.id es
    → place_row (row_of e) (map row_of es) ≡ ok (map row_of (es ++ e ∷ []))
place_row-last e [] h = refl
place_row-last e (d ∷ es) h =
    rw (ne_of_lt d.id e.id h.0, le→not_ltb e.id d.id (omega arith), place_row-last e es h.1) refl

holds_id-below : (i : ℕ) (es : List Entry) → IsBelow i es → holds_id i (map row_of es) ≡ false
holds_id-below i [] h = refl
holds_id-below i (d ∷ es) h = rw (ne_of_lt' d.id i h.0) (holds_id-below i es h.1)

abbrev pub fresh : ℕ → ℕ → Entry
fresh i a = record { id = i; amount = a; filled = false }

-- Without the trigger, a row with a non-negative amount goes in as it is.
insert_row-last :
    (i a : ℕ) (es : List Entry)
    → IsBelow i es
    → insert_row initial_schema (row_of (fresh i a)) (map row_of es)
      ≡ ok (map row_of (es ++ fresh i a ∷ []))
unfolding insert_row
insert_row-last i a es h = place_row-last (fresh i a) es h

module _ (d : Database) (r : Role) (a : Advisory) where
  abbrev pub seeded : List Entry → Session
  seeded es = record {
    database = record d { schema = initial_schema; invoices = map row_of es };
    role = r;
    advisory = a;
  }

  pub insert_invoice-last :
      (i a : ℕ) (es : List Entry)
      → IsBelow i es
      → insert_invoice (row_of (fresh i a)) (seeded es) ≡ ok (tt, seeded (es ++ fresh i a ∷ []))
  unfolding insert_invoice
  insert_invoice-last i a es h = rw (insert_row-last i a es h, insert_invoice) refl

  insert_or_skip-last :
      (i : ℕ) (es : List Entry)
      → IsBelow i es
      → insert_or_skip (seed_invoice i) (seeded es)
        ≡ ok (tt, seeded (es ++ fresh i (i * 7919 % 1000000 + 1) ∷ []))
  unfolding insert_or_skip
  insert_or_skip-last i es h =
      rw (holds_id-below i es h, insert_invoice-last i (i * 7919 % 1000000 + 1) es h) refl

  -- The seed always goes in: every id is new and every amount positive.
  pub record Seeded (n i : ℕ) (es : List Entry) : Type 0 where
    pub entries : List Entry
    pub outcome : seed_from n i (seeded es) ≡ ok (tt, seeded entries)

  pub seed_from_lem : (n i : ℕ) (es : List Entry) → IsBelow i es → Seeded n i es
  unfolding seed_from
  seed_from_lem zero i es h = record { entries = es; outcome = refl }
  seed_from_lem (suc n) i es h =
      let rest : Seeded n (suc i) (es ++ fresh i (i * 7919 % 1000000 + 1) ∷ []) =
        seed_from_lem n (suc i) (es ++ fresh i (i * 7919 % 1000000 + 1) ∷ []) (
          IsBelow-append (suc i) (fresh i (i * 7919 % 1000000 + 1)) es
            (IsBelow-mono i (suc i) es (omega arith) h) (omega arith)) in
      record {
        entries = rest.entries;
        outcome = rw (insert_or_skip-last i es h, ◌>>◌, ◌>>=◌) rest.outcome;
      }
