-- ===== src/Tests/Sizes.antt =====
-- The size of the JSON text of a receipt, and its bound for the receipts that `_cleanup_receipt` accepts.
use mathlib.Core.Path.{subst}
use postgres_migration_rehea.Adapter.{
  Receipt, cleanup_states, reasons, child_exits, is_valid_receipt, is_one_of,
}
use postgres_migration_rehea.Base.{
  ltb, leb, if◌then◌else◌, Bool-cases, both, if-cases, length, same_text, same_text→eq, codes_of, ℕ,
  zero, suc, ◌+◌, ◌/◌, ◌≤◌, ◌≡◌, refl, sym, inl, inr, Bool, true, ◌&&◌, List, [], ◌∷◌, arith,
  String,
}
use postgres_migration_rehea.Final.{hex_codes, fullmatch_hex}

abbrev text_size : String → ℕ
text_size s = length (codes_of s)

-- The digits of a number below 10^n.
abbrev digits : ℕ → ℕ → ℕ
digits zero m = 0
digits (suc n) m = let rest = digits n (m / 10) in suc (if ltb m 10 then 0 else rest)

-- The keys with their quotes and commas, and the values.
abbrev pub receipt_size : Receipt → ℕ
receipt_size r =
    114
    + (text_size r.run_nonce
        + (text_size r.cleanup_state
            + (text_size r.reason + (digits 10 r.remaining + text_size r.child_exit))))

digits-bound : (n m : ℕ) → digits n m ≤ n
digits-bound zero m = omega arith
digits-bound (suc n) m =
    let rest = digits-bound n (m / 10) in
    if-cases (λ k. suc k ≤ suc n) (ltb m 10) _ _ (omega arith) (omega (arith, rest))

hex_codes-size : (n : ℕ) (cs : List ℕ) → hex_codes n cs ≡ true → length cs ≤ n
hex_codes-size n [] h = omega arith
hex_codes-size zero (c ∷ cs) h = ground arith
hex_codes-size (suc n) (c ∷ cs) h =
    let rest = hex_codes-size n cs (both _ (hex_codes n cs) h).1 in omega (arith, rest)

-- Are all of these texts at most so long?
abbrev all_within : ℕ → List String → Bool
all_within n [] = true
all_within n (t ∷ ts) = leb (text_size t) n && all_within n ts

is_one_of-size :
    (n : ℕ) (s : String) (ts : List String)
    → all_within n ts ≡ true
    → is_one_of s ts ≡ true
    → text_size s ≤ n
is_one_of-size n s [] a h = ground arith
is_one_of-size n s (t ∷ ts) a h =
    let parts = both (leb (text_size t) n) (all_within n ts) a in
    elim (Bool-cases (same_text s t)) [
      | inl same ↦
          subst (λ u. text_size u ≤ n) (sym (same_text→eq s t same)) (ground (arith, parts.0))
      | inr others ↦
          is_one_of-size n s ts parts.1
            (subst (λ b. (if b then true else is_one_of s ts) ≡ true) others h)
    ]

pub receipt_size-small : (r : Receipt) → is_valid_receipt r ≡ true → receipt_size r ≤ 4096
unfolding fullmatch_hex
receipt_size-small r h =
    let nonce = both (fullmatch_hex 16 r.run_nonce) _ h in
    let state = both (is_one_of r.cleanup_state cleanup_states) _ nonce.1 in
    let why = both (is_one_of r.reason reasons) _ state.1 in
    let left = both (leb r.remaining 2147483647) _ why.1 in
    let a = hex_codes-size 16 (codes_of r.run_nonce) nonce.0 in
    let b = is_one_of-size 22 r.cleanup_state cleanup_states refl state.0 in
    let c = is_one_of-size 21 r.reason reasons refl why.0 in
    let d = is_one_of-size 11 r.child_exit child_exits refl left.1 in
    let e = digits-bound 10 r.remaining in omega (arith, a, b, c, d, e)
