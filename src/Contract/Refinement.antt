-- ===== src/Contract/Refinement.antt =====
-- `_run_backfill_batch` and the loop over it against the batch on entries.
use native.Mathlib.Nat.{add-zero}
use postgres_migration_rehea.Base.{
  length, take, All-of, ℕ, ◌+◌, ◌≡◌, refl, Bool, false, List, [], ◌∷◌, map,
}
use postgres_migration_rehea.Contract.Backfill.{
  any_of, last_of, copy_amount, fill_batch, run_backfill_batch,
}
use postgres_migration_rehea.Contract.Marks.{open_ids, open_ids-rows, mark, map-mark_nil, map-mark}
use postgres_migration_rehea.Contract.Rows.{update_rows-row_of, copy_amount-fill}
use postgres_migration_rehea.Contract.Spec.{
  Entry, row_of, schema_of, control_of, deployed, IsAscending, fill, fill_first,
}
use postgres_migration_rehea.Database.{
  backfill, Version, Digest, Database, ok, Role, Advisory, Session, ◌>>=◌, count, update_rows,
  update_invoices,
}

abbrev pub session_of : Database → Role → Advisory → Session
session_of d r a = record { database = d; role = r; advisory = a }

module _ (checksum : Version → Digest) (last scanned : ℕ) (v2 : Bool) (es : List Entry) where
  abbrev before : Database
  before = deployed checksum backfill last scanned v2 es

  update-copy_amount :
      (ids : List ℕ)
      → update_rows (schema_of backfill v2) (λ r. any_of ids r.id) copy_amount (map row_of es)
        ≡ ok (map row_of (map (mark ids) es))
  update-copy_amount ids =
      update_rows-row_of (schema_of backfill v2) (λ r. any_of ids r.id) copy_amount fill es
        (All-of _ (λ e _. copy_amount-fill v2 e) es)

  update_invoices-copy :
      (ids : List ℕ) (r : Role) (a : Advisory)
      → update_invoices (λ r. any_of ids r.id) copy_amount (session_of before r a)
        ≡ ok (
          count (λ r. any_of ids r.id) (map row_of es),
          session_of (record before { invoices = map row_of (map (mark ids) es) }) r a,
        )
  unfolding update_invoices
  update_invoices-copy ids r a = rw (update-copy_amount ids, update_invoices) refl

  fill_batch-mark :
      (ids : List ℕ) (r : Role) (a : Advisory)
      → fill_batch ids (control_of backfill last scanned v2) (session_of before r a)
        ≡ ok (
          length ids,
          session_of
              (deployed checksum backfill
                (last_of last ids)
                (scanned + length ids)
                v2
                (map (mark ids) es))
              r
              a,
        )
  unfolding fill_batch
  fill_batch-mark [] r a = rw (map-mark_nil es, add-zero) refl
  fill_batch-mark (i ∷ is) r a = rw (update_invoices-copy (i ∷ is) r a, fill_batch, ◌>>=◌) refl

  -- `_run_backfill_batch` on a backfill database whose rows are in key order commits: it fills
  -- the first 256 entries that are above the checkpoint and not filled, moves the checkpoint to
  -- the last of them (or leaves it), raises the count of scanned rows by their number and
  -- returns it.
  pub batch_lem :
      (b : ℕ)
      → IsAscending b es
      → run_backfill_batch false before ≡ (
        ok (length (take 256 (open_ids last es))),
        deployed checksum backfill
            (last_of last (take 256 (open_ids last es)))
            (scanned + length (take 256 (open_ids last es)))
            v2
            (fill_first 256 last es),
      )
  unfolding run_backfill_batch
  batch_lem b h = rw (open_ids-rows last es, fill_batch-mark) (rw (map-mark 256 last b es h) refl)
