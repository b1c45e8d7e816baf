-- ===== src/Contract/Batch.antt =====
-- What one batch does to the entries: it keeps their ids and amounts, fills as many as it counts,
-- and leaves everything up to the new checkpoint filled.
-- A batch lowers the number of unfilled entries by the number of ids that it took.
use postgres_migration_rehea.Base.{
  Bool-cases, length, take, ℕ, zero, suc, ◌+◌, ◌≤◌, ◌≡◌, refl, inl, inr, true, false, List, [], ◌∷◌,
  map, arith,
}
use postgres_migration_rehea.Contract.Backfill.{last_of}
use postgres_migration_rehea.Contract.Marks.{
  open_ids, open_ids-open, open_ids-shut, fill_first-open, fill_first-shut, fill_first-zero,
  fill_first-nil,
}
use postgres_migration_rehea.Contract.Spec.{
  Entry, IsAscending, IsCovered, fill, unfilled, is_open, fill_first,
}

pub unfilled-fill_first :
    (k last : ℕ) (es : List Entry)
    → unfilled (fill_first k last es) + length (take k (open_ids last es)) ≡ unfilled es
unfolding fill_first open_ids
unfilled-fill_first zero last es = omega arith
unfilled-fill_first (suc k) last [] = omega arith
unfilled-fill_first (suc k) last (e ∷ es) =
    ground (arith, unfilled-fill_first k last es, unfilled-fill_first (suc k) last es)

pub fill_first-IsAscending :
    (k last b : ℕ) (es : List Entry) → IsAscending b es → IsAscending b (fill_first k last es)
unfolding fill_first
fill_first-IsAscending zero last b es h = h
fill_first-IsAscending (suc k) last b [] h = tt
fill_first-IsAscending (suc k) last b (e ∷ es) h = ground (
  arith,
  fill_first-IsAscending k last e.id es h.1,
  fill_first-IsAscending (suc k) last e.id es h.1,
)

pub IsCovered-below : (j b : ℕ) (es : List Entry) → IsAscending b es → j ≤ b → IsCovered j es
IsCovered-below j b [] h le = tt
IsCovered-below j b (e ∷ es) h le =
    (λ le'. absurd (omega arith), IsCovered-below j e.id es h.1 (omega arith))

shut_filled :
    (last : ℕ) (e : Entry)
    → (e.id ≤ last → e.filled ≡ true)
    → is_open last e ≡ false
    → e.filled ≡ true
shut_filled last e c h = ground arith

-- Everything up to the last id that was taken is filled.
pub fill_first-IsCovered :
    (k last b j : ℕ) (es : List Entry)
    → IsAscending b es
    → IsCovered last es
    → j ≤ b
    → IsCovered (last_of j (take k (open_ids last es))) (fill_first k last es)
fill_first-IsCovered zero last b j es h c le = rw fill_first-zero (IsCovered-below j b es h le)
fill_first-IsCovered (suc k) last b j [] h c le = rw fill_first-nil tt
fill_first-IsCovered (suc k) last b j (e ∷ es) h c le = elim (Bool-cases (is_open last e)) [
  | inl opened ↦
      rw (open_ids-open last e es opened, fill_first-open last e es k opened)
        (λ _. refl, fill_first-IsCovered k last e.id e.id es h.1 c.1 (omega arith))
  | inr shut ↦
      rw (open_ids-shut last e es shut, fill_first-shut last e es k shut)
        (
          λ _. shut_filled last e c.0 shut,
          fill_first-IsCovered (suc k) last e.id j es h.1 c.1 (omega arith),
        )
]

-- With no open entry above the checkpoint, all are filled.
pub fill-covered :
    (k last : ℕ) (es : List Entry)
    → IsCovered last es
    → take (suc k) (open_ids last es) ≡ []
    → map fill es ≡ es
unfolding open_ids
fill-covered k last [] c h = refl
fill-covered k last (e ∷ es) c h =
    ground (arith, shut_filled last e c.0, fill-covered k last es c.1)

pub fill-fill_first : (k last : ℕ) (es : List Entry) → map fill (fill_first k last es) ≡ map fill es
unfolding fill_first
fill-fill_first zero last es = refl
fill-fill_first (suc k) last [] = refl
fill-fill_first (suc k) last (e ∷ es) =
    ground (arith, fill-fill_first k last es, fill-fill_first (suc k) last es)
