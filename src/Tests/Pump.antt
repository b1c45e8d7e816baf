-- ===== src/Tests/Pump.antt =====
-- The relay on a short exchange: the client sends three bytes and ends, the upstream answers one.
use postgres_migration_rehea.Base.{ℕ, ◌≡◌, refl, none, some, List, [], ◌∷◌, arith}
use postgres_migration_rehea.Relay.{
  completed, new_flow, arrived, accepts, Ready, Connection, Loop, going, aborted, turn,
}
use postgres_migration_rehea.Relay.Completion.{forward_turns, IsDrained, forward_turns-IsDrained}
use postgres_migration_rehea.Relay.Order.{connection_of, IsFaithfulBoth, turn-IsFaithful}

abbrev connected : Connection
connected = record { to_upstream = new_flow; to_client = new_flow }

abbrev quiet : Ready
quiet = record {
  client_reads = none;
  upstream_reads = none;
  client_writes = none;
  upstream_writes = none;
}

abbrev exchange_turns : List Ready
exchange_turns =
    record quiet { client_reads = some (arrived (1 ∷ 2 ∷ 3 ∷ [])) }
    ∷ record quiet { upstream_writes = some (accepts 2); upstream_reads = some (arrived (9 ∷ [])) }
    ∷ record quiet {
      upstream_writes = some (accepts 5);
      client_writes = some (accepts 1);
      client_reads = some (arrived []);
    }
    ∷ record quiet { upstream_reads = some (arrived []) }
    ∷ quiet
    ∷ []

connected-IsFaithfulBoth : IsFaithfulBoth connected
connected-IsFaithfulBoth = ((refl, (omega arith, λ e. cc)), (refl, (omega arith, λ e. cc)))

abbrev client_speaks : Ready
client_speaks = record quiet { client_reads = some (arrived (1 ∷ [])) }

turn_keeps_faith : IsFaithfulBoth (connection_of (turn client_speaks connected))
turn_keeps_faith = turn-IsFaithful client_speaks connected connected-IsFaithfulBoth

forward_turns-IsDrained_example :
    IsFaithfulBoth (connection_of (forward_turns exchange_turns connected))
    × IsDrained (forward_turns exchange_turns connected)
forward_turns-IsDrained_example =
    forward_turns-IsDrained exchange_turns connected connected-IsFaithfulBoth

abbrev bytes_delivered : Loop → List ℕ
bytes_delivered (completed c) = c.to_upstream.delivered
bytes_delivered (going c) = []
bytes_delivered (aborted c) = []

forward_turns-exchange : bytes_delivered (forward_turns exchange_turns connected) ≡ 1 ∷ 2 ∷ 3 ∷ []
unfolding forward_turns
forward_turns-exchange = refl
