-- ===== src/Contract/Drain.antt =====
-- The loops of `_enter_backfill` and of the child's `_backfill_cycle`: they end, and fill all.
use mathlib.Core.Path.{subst}
use native.Mathlib.Nat.{add-zero, zero-add}
use postgres_migration_rehea.Base.{
  ◌==◌, length, take, ℕ, zero, suc, ◌+◌, ◌<◌, ◌≡◌, refl, sym, ap, ◌∙◌, Bool, true, false, List, [],
  ◌∷◌, map, arith,
}
use postgres_migration_rehea.Contract.Backfill.{last_of, run_backfill_batch, drain}
use postgres_migration_rehea.Contract.Batch.{
  unfilled-fill_first, fill_first-IsAscending, fill_first-IsCovered, fill-covered, fill-fill_first,
}
use postgres_migration_rehea.Contract.Marks.{open_ids, mark, map-mark_nil, map-mark}
use postgres_migration_rehea.Contract.Refinement.{batch_lem}
use postgres_migration_rehea.Contract.Spec.{
  Entry, deployed, IsAscending, IsCovered, fill, unfilled, fill_first,
}
use postgres_migration_rehea.Database.{
  backfill, Version, Digest, Database, Result, ok, Program, next-ok, succeed,
}

unfilled-fill : (es : List Entry) → unfilled (map fill es) ≡ 0
unfilled-fill [] = refl
unfilled-fill (e ∷ es) = unfilled-fill es

abbrev round : ℕ → ℕ → ℕ → Program ℕ
round fuel total n = elim (n == 0) [ true ↦ succeed total | false ↦ drain fuel (total + n) ]

drain-round :
    (fuel total n : ℕ) (d d' : Database)
    → run_backfill_batch false d ≡ (ok n, d')
    → drain (suc fuel) total d ≡ round fuel total n d'
unfolding drain
drain-round fuel total n d d' h = next-ok (run_backfill_batch false) (round fuel total) d h

suc-not_zero : (n : ℕ) → (suc n == 0) ≡ false
suc-not_zero n = ground arith

round-more :
    (fuel total n : ℕ) (d : Database) → round fuel total (suc n) d ≡ drain fuel (total + suc n) d
round-more fuel total n d = rw (suc-not_zero n, round) refl

-- Where a batch finds no id, nothing is unfilled.
module _ (last : ℕ) (es : List Entry) (asc : IsAscending 0 es) (cov : IsCovered last es)
    (found : take 256 (open_ids last es) ≡ []) where
  fill_first-none : fill_first 256 last es ≡ es
  fill_first-none =
      sym (map-mark 256 last 0 es asc) ∙ ap (λ ids. map (mark ids) es) found ∙ map-mark_nil es

  unfilled-none : unfilled es ≡ 0
  unfilled-none = ap unfilled (sym (fill-covered 255 last es cov found)) ∙ unfilled-fill es

module _ (checksum : Version → Digest) (v2 : Bool) where
  -- What the loop has done when it ends.
  pub record Drained (fuel total last scanned : ℕ) (es : List Entry) : Type 0 where
    pub checkpoint : ℕ
    pub outcome : drain fuel total (deployed checksum backfill last scanned v2 es) ≡ (
      ok (total + unfilled es),
      deployed checksum backfill checkpoint (scanned + unfilled es) v2 (map fill es),
    )

  abbrev pub result_of : ℕ → ℕ → List ℕ → List Entry → Result ℕ × Database
  result_of last scanned ids es =
      (ok (length ids), deployed checksum backfill (last_of last ids) (scanned + length ids) v2 es)

  Drained-none :
      (fuel total last scanned : ℕ) (es : List Entry)
      → IsAscending 0 es
      → IsCovered last es
      → take 256 (open_ids last es) ≡ []
      → Drained (suc fuel) total last scanned es
  Drained-none fuel total last scanned es asc cov found = record {
    checkpoint = last;
    outcome =
        drain-round fuel total 0 (deployed checksum backfill last scanned v2 es)
          (deployed checksum backfill last (scanned + 0) v2 (fill_first 256 last es))
          (batch_lem checksum last scanned v2 es 0 asc
            ∙ ap (λ ids. result_of last scanned ids (fill_first 256 last es)) found)
        ∙ (rw
            (
              fill_first-none last es asc cov found,
              unfilled-none last es asc cov found,
              fill-covered 255 last es cov found,
              add-zero scanned,
              add-zero total,
            )
            refl);
  }

  regroup :
      (last : ℕ) (es : List Entry) (a n : ℕ)
      → length (take 256 (open_ids last es)) ≡ suc n
      → a + suc n + unfilled (fill_first 256 last es) ≡ a + unfilled es
  regroup last es a n h = omega (arith, unfilled-fill_first 256 last es)

  -- One more round, by the rounds that follow it.
  Drained-more :
      (fuel total last scanned i : ℕ) (is : List ℕ) (es : List Entry)
      → IsAscending 0 es
      → take 256 (open_ids last es) ≡ i ∷ is
      → Drained fuel
          (total + suc (length is))
          (last_of i is)
          (scanned + suc (length is))
          (fill_first 256 last es)
      → Drained (suc fuel) total last scanned es
  Drained-more fuel total last scanned i is es asc found rest = record {
    checkpoint = rest.checkpoint;
    outcome =
        drain-round fuel total (suc (length is)) (deployed checksum backfill last scanned v2 es)
          (deployed checksum backfill (last_of i is) (scanned + suc (length is)) v2
            (fill_first 256 last es))
          (batch_lem checksum last scanned v2 es 0 asc
            ∙ ap (λ ids. result_of last scanned ids (fill_first 256 last es)) found)
        ∙ round-more fuel total (length is) _
        ∙ rest.outcome
        ∙ (rw
            (
              regroup last es total (length is) (ap length found),
              regroup last es scanned (length is) (ap length found),
              fill-fill_first 256 last es,
            )
            refl);
  }

  -- From an ascending, covered table the loop ends within one round more than there are unfilled
  -- entries, and fills them all.
  pub drain_lem :
      (fuel total last scanned : ℕ) (es : List Entry)
      → IsAscending 0 es
      → IsCovered last es
      → unfilled es < fuel
      → Drained fuel total last scanned es
  drain_lem zero total last scanned es asc cov lt = elim lt [ ]
  drain_lem (suc fuel) total last scanned es asc cov lt =
      go (take 256 (open_ids last es)) refl (drain_lem fuel)
    where
      go :
          (ids : List ℕ)
          → take 256 (open_ids last es) ≡ ids
          → ((total last scanned : ℕ) (es : List Entry)
              → IsAscending 0 es
              → IsCovered last es
              → unfilled es < fuel
              → Drained fuel total last scanned es)
          → Drained (suc fuel) total last scanned es
      go [] e ih = Drained-none fuel total last scanned es asc cov e
      go (i ∷ is) e ih = Drained-more fuel total last scanned i is es asc e (
          ih (total + suc (length is)) (last_of i is) (scanned + suc (length is))
            (fill_first 256 last es) (fill_first-IsAscending 256 last 0 es asc)
            (subst (λ ids. IsCovered (last_of 0 ids) (fill_first 256 last es)) e
              (fill_first-IsCovered 256 last 0 0 es asc cov (omega arith)))
            (omega (arith, unfilled-fill_first 256 last es, ap length e)))

-- The loop over `_run_backfill_batch`, on a table in key order whose rows up to the checkpoint are
-- filled: with more rounds than there are unfilled rows it ends, returns as many rows as there were
-- to fill, and leaves every row filled with the amounts unchanged and `backfill_scanned_rows` raised
-- by that number.
pub drain-fills :
    (checksum : Version → Digest) (v2 : Bool) (fuel last scanned : ℕ) (es : List Entry)
    → IsAscending 0 es
    → IsCovered last es
    → unfilled es < fuel
    → (checkpoint : ℕ) × (drain fuel 0 (deployed checksum backfill last scanned v2 es) ≡ (
      ok (unfilled es),
      deployed checksum backfill checkpoint (scanned + unfilled es) v2 (map fill es),
    ))
drain-fills checksum v2 fuel last scanned es asc cov lt =
    let drained : Drained checksum v2 fuel 0 last scanned es =
      drain_lem checksum v2 fuel 0 last scanned es asc cov lt in
    (drained.checkpoint, drained.outcome ∙ (rw (zero-add (unfilled es)) refl))
