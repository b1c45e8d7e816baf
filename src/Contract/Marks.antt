-- ===== src/Contract/Marks.antt =====
-- The batch by its list of ids against the batch by position: an UPDATE ... WHERE id = ANY(ids)
-- over rows in key order fills exactly the first open entries.
use mathlib.Core.Path.{ap₂}
use postgres_migration_rehea.Base.{
  ltb, if◌then◌else◌, Bool-cases, take, ℕ, zero, suc, ◌≤◌, ◌≡◌, refl, sym, ap, ◌∙◌, inl, inr, true,
  false, List, [], ◌∷◌, map, arith,
}
use postgres_migration_rehea.Contract.Backfill.{is_pending, ids_of, any_of}
use postgres_migration_rehea.Contract.Spec.{Entry, row_of, IsAscending, fill, is_open, fill_first}
use postgres_migration_rehea.Database.{select}

unfoldable pub open_ids : ℕ → List Entry → List ℕ
open_ids last [] = []
open_ids last (e ∷ es) = if is_open last e then e.id ∷ open_ids last es else open_ids last es

module _ (last : ℕ) (e : Entry) (es : List Entry) where
  pub open_ids-open : is_open last e ≡ true → open_ids last (e ∷ es) ≡ e.id ∷ open_ids last es
  unfolding open_ids
  open_ids-open h = rw h

  pub open_ids-shut : is_open last e ≡ false → open_ids last (e ∷ es) ≡ open_ids last es
  unfolding open_ids
  open_ids-shut h = rw h

  pub fill_first-open :
      (k : ℕ)
      → is_open last e ≡ true
      → fill_first (suc k) last (e ∷ es) ≡ fill e ∷ fill_first k last es
  unfolding fill_first
  fill_first-open k h = rw (h, fill_first) refl

  pub fill_first-shut :
      (k : ℕ)
      → is_open last e ≡ false
      → fill_first (suc k) last (e ∷ es) ≡ e ∷ fill_first (suc k) last es
  unfolding fill_first
  fill_first-shut k h = rw (h, fill_first) refl

pub fill_first-zero : (last : ℕ) (es : List Entry) → fill_first zero last es ≡ es
unfolding fill_first
fill_first-zero last es = refl

pub fill_first-nil : (k last : ℕ) → fill_first k last [] ≡ []
unfolding fill_first
fill_first-nil zero last = refl
fill_first-nil (suc k) last = refl

-- The ids that the SELECT of the batch reads.
pub open_ids-rows :
    (last : ℕ) (es : List Entry)
    → ids_of (select (is_pending last) (map row_of es)) ≡ open_ids last es
unfolding open_ids
open_ids-rows last [] = refl
open_ids-rows last (e ∷ es) = elim (Bool-cases (ltb last e.id)) [
  | inl above ↦ elim (Bool-cases e.filled) [
    | inl done ↦ rw (above, done, open_ids-rows last es) refl
    | inr waits ↦ rw (above, waits, open_ids-rows last es) refl
  ]
  | inr below ↦ rw (below, open_ids-rows last es) refl
]

abbrev pub mark : List ℕ → Entry → Entry
mark ids e = if any_of ids e.id then fill e else e

-- No id of an ascending list is at or below its lower bound.
any_of-below :
    (k last b i : ℕ) (es : List Entry)
    → IsAscending b es
    → i ≤ b
    → any_of (take k (open_ids last es)) i ≡ false
unfolding open_ids
any_of-below zero last b i es h le = refl
any_of-below (suc k) last b i [] h le = refl
any_of-below (suc k) last b i (e ∷ es) h le =
    ground (arith, any_of-below (suc k) last e.id i es h.1, any_of-below k last e.id i es h.1)

pub map-mark_nil : (es : List Entry) → map (mark []) es ≡ es
map-mark_nil [] = refl
map-mark_nil (e ∷ es) = rw (map-mark_nil es) refl

-- An id at or below every entry marks nothing.
map-mark_below :
    (i b : ℕ) (ids : List ℕ) (es : List Entry)
    → IsAscending b es
    → i ≤ b
    → map (mark (i ∷ ids)) es ≡ map (mark ids) es
map-mark_below i b ids [] h le = refl
map-mark_below i b ids (e ∷ es) h le = ground (arith, map-mark_below i e.id ids es h.1)

mark_head : (i : ℕ) (ids : List ℕ) (e : Entry) → e.id ≡ i → mark (i ∷ ids) e ≡ fill e
mark_head i ids e h = ground arith

mark_miss : (ids : List ℕ) (e : Entry) → any_of ids e.id ≡ false → mark ids e ≡ e
mark_miss ids e h = rw h

-- The UPDATE by ids fills the first open entries, and no other.
pub map-mark :
    (k last b : ℕ) (es : List Entry)
    → IsAscending b es
    → map (mark (take k (open_ids last es))) es ≡ fill_first k last es
map-mark zero last b es h = map-mark_nil es ∙ sym (fill_first-zero last es)
map-mark (suc k) last b [] h = sym (fill_first-nil (suc k) last)
map-mark (suc k) last b (e ∷ es) h = elim (Bool-cases (is_open last e)) [
  | inl opened ↦
      ap (λ ids. map (mark (take (suc k) ids)) (e ∷ es)) (open_ids-open last e es opened)
      ∙ ap₂ (λ x xs. x ∷ xs) (mark_head e.id (take k (open_ids last es)) e refl)
          (map-mark_below e.id e.id (take k (open_ids last es)) es h.1 (omega arith)
            ∙ map-mark k last e.id es h.1)
      ∙ sym (fill_first-open last e es k opened)
  | inr shut ↦
      ap (λ ids. map (mark (take (suc k) ids)) (e ∷ es)) (open_ids-shut last e es shut)
      ∙ ap₂ (λ x xs. x ∷ xs)
          (mark_miss (take (suc k) (open_ids last es)) e
            (any_of-below (suc k) last e.id e.id es h.1 (omega arith)))
          (map-mark (suc k) last e.id es h.1)
      ∙ sym (fill_first-shut last e es k shut)
]
