-- ===== src/Database/Phases.antt =====
-- What `enforce_migration_phase_transition` lets through, against the order of the phases.
use postgres_migration_rehea.Base.{
  ltb, ◌==◌, if◌then◌else◌, both, length, ℕ, suc, ◌+◌, ◌≤◌, ◌≡◌, Bool, true, false, not, ◌&&◌, ◌||◌,
  List, [], ◌∷◌, arith,
}
use postgres_migration_rehea.Database.Tables.{
  Phase, initial, expand, compatibility, backfill, switch, contract,
}
use postgres_migration_rehea.Database.Transactions.{
  check_violation, psycopg_error, Result, ok, err, Advisory, exclusive,
}
use postgres_migration_rehea.Database.Trigger.{phase_transition}

-- The place of a phase in the order of the migration.
abbrev pub rank : Phase → ℕ
rank initial = 0
rank expand = 1
rank compatibility = 2
rank backfill = 3
rank switch = 4
rank contract = 5

abbrev is_exclusive : Advisory → Bool
is_exclusive exclusive = true
is_exclusive _ = false

-- Stay, take one step up, or go back to the start below `contract` under the exclusive lock.
abbrev pub is_allowed : Advisory → Phase → Phase → Bool
is_allowed held old new =
    rank new == rank old
    || (rank new == suc (rank old) || (is_exclusive held && (rank new == 0 && ltb (rank old) 5)))

-- An update of the phase is let through exactly where the new phase has the old one's place in the
-- order of the six phases or the next place, or where it is the first phase, the old one is not the
-- last, and the exclusive advisory lock is held; it then stores the new phase, and is a check violation
-- otherwise.
pub phase_transition-exactly :
    (held : Advisory) (old new : Phase)
    → phase_transition held old new
      ≡ (if is_allowed held old new then ok new else err (psycopg_error check_violation))
unfolding phase_transition
phase_transition-exactly held old new = ground arith

-- The phase after an update, which stays where the update is refused.
abbrev stored : Phase → Result Phase → Phase
stored old (ok new) = new
stored old (err e) = old

abbrev pub update_phases : List (Advisory × Phase) → Phase → Phase
update_phases [] p = p
update_phases ((held, new) ∷ us) p = update_phases us (stored p (phase_transition held p new))

abbrev pub none_exclusive : List (Advisory × Phase) → Bool
none_exclusive [] = true
none_exclusive ((held, _) ∷ us) = not (is_exclusive held) && none_exclusive us

step-forward :
    (held : Advisory) (old new : Phase)
    → is_exclusive held ≡ false
    → (rank old ≤ rank (stored old (phase_transition held old new)))
      × (rank (stored old (phase_transition held old new)) ≤ rank old + 1)
unfolding phase_transition
step-forward held old new h = ground arith

-- Whatever updates of the phase are tried, as long as none holds the exclusive advisory lock, the
-- phase never goes back, and it advances at most one place with each update.
pub update_phases-forward :
    (us : List (Advisory × Phase)) (p : Phase)
    → none_exclusive us ≡ true
    → (rank p ≤ rank (update_phases us p)) × (rank (update_phases us p) ≤ rank p + length us)
update_phases-forward [] p h = (omega arith, omega arith)
update_phases-forward ((held, new) ∷ us) p h =
    let parts = both (not (is_exclusive held)) (none_exclusive us) h in
    let now = step-forward held p new (ground arith) in
    let rest = update_phases-forward us (stored p (phase_transition held p new)) parts.1 in
    (omega (arith, now.0, rest.0), omega (arith, now.1, rest.1))
