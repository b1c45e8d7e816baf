-- ===== src/Relay/Draining.antt =====
-- A stopped relay runs empty.
-- The turns that a worker has left at most.
use postgres_migration_rehea.Base.{ℕ, ◌+◌, ◌≡◌, ◌⊎◌, true, Option, none, some, List, [], ◌∷◌}
use postgres_migration_rehea.Relay.Capacity.{total}
use postgres_migration_rehea.Relay.Lifecycle.{
  ended, released, raised, Stage, accepted, asking, revalidated, connecting, counting, connected,
  closing, recording, Relay, max_connections, stage_of, Step, accepts, serves, closes, step,
}

abbrev pub turns_left : Stage → ℕ
turns_left released = 1
turns_left closing = 2
turns_left (recording message) = 3
turns_left (raised message) = 4
turns_left connected = 5
turns_left counting = 6
turns_left connecting = 7
turns_left revalidated = 8
turns_left asking = 9
turns_left accepted = 10

abbrev pub work : Relay → ℕ
work r = total turns_left r.workers

-- How many of the steps are a turn of a worker that is there?
abbrev is_turn : Option Stage → ℕ
is_turn none = 0
is_turn (some s) = 1

abbrev turn_of : Step → Relay → ℕ
turn_of (serves name a) r = is_turn (stage_of name r.workers)
turn_of (accepts name a) r = 0
turn_of closes r = 0

abbrev pub turns : List Step → Relay → ℕ
turns [] r = 0
turns (s ∷ ss) r = turn_of s r + turns ss (step s r)

-- Stopped, and the accept thread has returned.
abbrev pub IsStopped : Relay → Type 0
IsStopped r = (r.is_stopped ≡ true) × (r.acceptor ≡ ended)

-- All places are free and no worker is left, or one of the workers that are left has a turn.
abbrev pub IsDrained : Relay → Type 0
IsDrained r =
    ((r.workers ≡ []) × (r.capacity ≡ max_connections))
    ⊎ ((name : ℕ) × ((s : Stage) × (stage_of name r.workers ≡ some s)))
