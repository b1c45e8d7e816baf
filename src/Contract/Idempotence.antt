-- ===== src/Contract/Idempotence.antt =====
-- A batch on a table with nothing left to fill.
use native.Mathlib.Nat.{add-zero}
use postgres_migration_rehea.Base.{
  take, ℕ, ◌≡◌, refl, sym, ap, ◌∙◌, Bool, false, List, [], ◌∷◌, map, arith,
}
use postgres_migration_rehea.Contract.Backfill.{run_backfill_batch}
use postgres_migration_rehea.Contract.Drain.{result_of}
use postgres_migration_rehea.Contract.Marks.{open_ids, map-mark_nil, map-mark}
use postgres_migration_rehea.Contract.Refinement.{batch_lem}
use postgres_migration_rehea.Contract.Spec.{
  Entry, deployed, IsAscending, IsFilled, fill, unfill, fill_first,
}
use postgres_migration_rehea.Database.{backfill, Version, Digest, ok}

open_ids-filled : (last : ℕ) (es : List Entry) → IsFilled es → open_ids last es ≡ []
unfolding open_ids
open_ids-filled last [] h = refl
open_ids-filled last (e ∷ es) h = ground (arith, open_ids-filled last es h.1)

pub IsAscending-fill : (b : ℕ) (es : List Entry) → IsAscending b es → IsAscending b (map fill es)
IsAscending-fill b [] h = tt
IsAscending-fill b (e ∷ es) h = (h.0, IsAscending-fill e.id es h.1)

pub IsAscending-unfill :
    (b : ℕ) (es : List Entry) → IsAscending b es → IsAscending b (map unfill es)
IsAscending-unfill b [] h = tt
IsAscending-unfill b (e ∷ es) h = (h.0, IsAscending-unfill e.id es h.1)

-- Once every row is filled, a batch on a backfill database in key order commits, returns 0 and
-- changes nothing.
pub batch_again :
    (checksum : Version → Digest) (last scanned : ℕ) (v2 : Bool) (es : List Entry)
    → IsAscending 0 es
    → IsFilled es
    → run_backfill_batch false (deployed checksum backfill last scanned v2 es)
      ≡ (ok 0, deployed checksum backfill last scanned v2 es)
batch_again checksum last scanned v2 es asc h =
    batch_lem checksum last scanned v2 es 0 asc
    ∙ ap (λ ids. result_of checksum v2 last scanned (take 256 ids) (fill_first 256 last es))
        (open_ids-filled last es h)
    ∙ (rw
        (
          sym (map-mark 256 last 0 es asc),
          open_ids-filled last es h,
          map-mark_nil es,
          add-zero scanned,
        )
        refl)
