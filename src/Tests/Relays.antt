-- ===== src/Tests/Relays.antt =====
-- A relay with two clients, and its end.
use postgres_migration_rehea.Base.{
  ℕ, zero, suc, ◌≡◌, refl, Bool, true, false, Option, none, some, List, [], ◌∷◌,
}
use postgres_migration_rehea.Fixtures.Runtime.{RuntimeTarget}
use postgres_migration_rehea.Relay.{
  ended, raised, Answer, connecting, polling, Relay, new_relay, Round, bound, start_relay,
  accept_timeout, client, Ending, succeeds, Step, accepts, serves, closes, steps, assert_healthy,
  assert_destination_observed,
}
use postgres_migration_rehea.Relay.Capacity.{IsBounded, steps-IsBounded}

abbrev relay_target : RuntimeTarget
relay_target = record {
  container_id = "c";
  network_id = "n";
  endpoint_id = "e";
  ipv4_address = "172.20.0.2";
}

abbrev other_target : RuntimeTarget
other_target = record relay_target { network_id = "m" }

abbrev first_round : Round
first_round = record {
  current = some relay_target;
  has_time = true;
  connects = false;
  has_time_after = true;
}

abbrev started_relay : Relay
started_relay = record (new_relay relay_target) {
  is_started = true;
  acceptor = polling;
  destination_probe = true;
}

starts_on_second_round :
    start_relay bound
      (first_round ∷ record first_round { connects = true } ∷ [])
      (new_relay relay_target)
    ≡ (none, started_relay)
unfolding start_relay
starts_on_second_round = refl

refuses_other_target :
    start_relay bound
      (record first_round { current = some other_target } ∷ [])
      (new_relay relay_target)
    ≡ (some "owned runtime identity changed before relay destination probe", new_relay relay_target)
unfolding start_relay
refuses_other_target = refl

-- What the calls of a worker give, with the endings one after another.
abbrev answer : Option RuntimeTarget → Ending → Answer
answer current ending = record { current = current; ending = ending }

abbrev fine : Answer
fine = answer (some relay_target) succeeds

abbrev serve_times : ℕ → ℕ → Answer → List Step → List Step
serve_times zero name a ss = ss
serve_times (suc n) name a ss = serves name a ∷ serve_times n name a ss

-- The thread accepts: its stop test, then `accept`.
abbrev accept_one : ℕ → Bool → List Step → List Step
accept_one name is_local ss = accepts name accept_timeout ∷ accepts name (client is_local true) ∷ ss

-- One client is served and drains; the other finds the identity changed.
abbrev two_clients : List Step
two_clients = accept_one 1 true (
    accept_one 2 true (
      serve_times 2 1 fine (
        accept_one 3 false (
          serve_times 3 1 fine
            (serve_times 6 2 (answer (some other_target) succeeds) (serve_times 3 1 fine []))))))

served_one : steps two_clients started_relay ≡ record started_relay {
  failure = some "owned runtime identity changed before relay destination connect";
  destination_connections = 1;
}
unfolding steps
served_one = refl

unhealthy_after_one :
    assert_healthy (steps two_clients started_relay)
    ≡ some "owned runtime identity changed before relay destination connect"
unfolding steps
unhealthy_after_one = refl

observed_after_one : assert_destination_observed (steps two_clients started_relay) ≡ none
unfolding steps
observed_after_one = refl

steps-IsBounded_example : IsBounded (steps two_clients started_relay)
steps-IsBounded_example = steps-IsBounded two_clients started_relay refl

-- One worker is about to connect, and one has failed.
abbrev stopping_relay : Relay
stopping_relay = record started_relay {
  is_stopped = true;
  acceptor = ended;
  capacity = 18;
  workers =
      record { name = 1; stage = connecting }
      ∷ record { name = 2; stage = raised "owned relay transport failed" }
      ∷ [];
}

abbrev last_turns : List Step
last_turns = serve_times 3 2 fine (closes ∷ serve_times 5 1 fine [])

-- A worker that was connecting when the relay stopped still counts its destination.
emptied : steps last_turns stopping_relay ≡ record stopping_relay {
  is_closed = true;
  capacity = 20;
  workers = [];
  destination_connections = 1;
}
unfolding steps
emptied = refl
