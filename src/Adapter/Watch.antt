-- ===== src/Adapter/Watch.antt =====
-- An observer of the calls of a run: the order in which they may come, and what a receipt may say.
-- It knows whether `up` was called, whether the relay is open, whether the listed set is one that
-- passed the inspection, whether `down` was called, and that set.
use mathlib.Core.Option.{some-injective}
use mathlib.Core.Path.{subst}
use postgres_migration_rehea.Adapter.Local.{Resource, same_set}
use postgres_migration_rehea.Adapter.Receipts.{Receipt}
use postgres_migration_rehea.Adapter.Runtime.{
  Event, listed, composed_up, composed_down, inspected, relay_started, relay_closed, ran_child,
  receipted,
}
use postgres_migration_rehea.Base.{
  ◌==◌, if◌then◌else◌, Bool-cases, length, same_text, ℕ, ◌≡◌, refl, sym, inl, inr, Bool, true,
  false, not, ◌&&◌, ◌||◌, Option, none, some, List, [], ◌∷◌, ◌++◌,
}

pub record Seen : Type 0 where
  pub up : Bool
  pub relay : Bool
  pub approved : Bool
  pub downed : Bool
  pub last : Option (List Resource)

abbrev pub at_start : Seen
at_start = record { up = false; relay = false; approved = false; downed = false; last = none }

abbrev is_listed_empty : Option (List Resource) → Bool
is_listed_empty (some []) = true
is_listed_empty _ = false

abbrev same_as_last : List Resource → Option (List Resource) → Bool
same_as_last ids none = false
same_as_last ids (some l) = same_set ids l

abbrev counts_last : ℕ → Option (List Resource) → Bool
counts_last n none = false
counts_last n (some l) = n == length l

-- "complete" after `down` with nothing listed, "not_needed" without `up` or with nothing listed, else
-- the number of the resources that are listed.
abbrev pub receipt_fits : Seen → Receipt → Bool
receipt_fits s r =
    if same_text r.cleanup_state "complete"
    then s.downed && (is_listed_empty s.last && r.remaining == 0)
    else if same_text r.cleanup_state "not_needed"
    then (not s.up || is_listed_empty s.last) && r.remaining == 0
    else s.up && counts_last r.remaining s.last

-- `up` only on an empty listing, `down` only on the set that was inspected and with the relay closed.
abbrev is_allowed : Seen → Event → Bool
is_allowed s (listed ids) = true
is_allowed s composed_up = not s.up && is_listed_empty s.last
is_allowed s composed_down = s.up && (not s.relay && s.approved)
is_allowed s inspected = s.up
is_allowed s relay_started = s.up && (not s.relay && s.approved)
is_allowed s relay_closed = s.relay
is_allowed s ran_child = s.relay
is_allowed s (receipted r) = receipt_fits s r

abbrev pub see : Seen → Event → Seen
see s (listed ids) = record s { last = some ids; approved = s.approved && same_as_last ids s.last }
see s composed_up = record s { up = true }
see s composed_down = record s { downed = true }
see s inspected = record s { approved = true }
see s relay_started = record s { relay = true }
see s relay_closed = record s { relay = false }
see s ran_child = s
see s (receipted r) = s

-- The calls up to the first that is not allowed.
unfoldable pub watch : Seen → List Event → Option Seen
watch s [] = some s
watch s (e ∷ es) = if is_allowed s e then watch (see s e) es else none

abbrev pub IsWatched : List Event → Type 0
IsWatched es = (t : Seen) × (watch at_start es ≡ some t)

pub watch-snoc :
    (s t : Seen) (es : List Event) (e : Event)
    → watch s es ≡ some t
    → is_allowed t e ≡ true
    → watch s (es ++ e ∷ []) ≡ some (see t e)
unfolding watch
watch-snoc s t [] e h a =
    let same : s ≡ t = some-injective s t h in
    subst (λ u. watch u (e ∷ []) ≡ some (see t e)) (sym same) (rw (a) refl)
watch-snoc s t (x ∷ es) e h a = elim (Bool-cases (is_allowed s x)) [
  | inl ok ↦ rw (ok) (
      watch-snoc (see s x) t es e
        (subst (λ b. (if b then watch (see s x) es else none) ≡ some t) ok h) a)
  | inr bad ↦ cc (subst (λ b. (if b then watch (see s x) es else none) ≡ some t) bad h)
]
