-- ===== src/Relay/Lifecycle.antt =====
-- The life of one relay: `start`, `_prove_destination_available`, the accept loop, the workers of
-- `_serve_connection` and `close`, as steps on the shared state that the lock guards.
use postgres_migration_rehea.Base.{
  ltb, ◌==◌, if◌then◌else◌, same_text, ℕ, ◌+◌, ◌-◌, Bool, true, false, not, ◌&&◌, ◌||◌, Option,
  none, some, List, [], ◌∷◌, String,
}
use postgres_migration_rehea.Fixtures.Runtime.{RuntimeTarget}

-- Where a worker stands: before its first stop test, in `revalidate`, before its second stop test, in
-- `create_connection`, before it counts the destination, in `_forward`, in an `except` before and after
-- its stop test, in the `finally` before and after the release of its place.
pub data Stage : Type 0 where
  accepted asking revalidated connecting counting connected closing released : Stage
  raised recording : String → Stage

-- Where the accept thread stands: not started, before its stop test, in `accept`, after an error of
-- `accept` before and after the stop test, and returned.
pub data Acceptor : Type 0 where
  idle polling accepting refused accept_recording ended : Acceptor

pub record Worker : Type 0 where
  pub name : ℕ
  pub stage : Stage

-- `capacity` counts what the semaphore still gives, `failure` is what `assert_healthy` raises.
pub record Relay : Type 0 where
  pub target : RuntimeTarget
  pub is_started : Bool
  pub is_closed : Bool
  pub is_stopped : Bool
  pub acceptor : Acceptor
  pub capacity : ℕ
  pub workers : List Worker
  pub failure : Option String
  pub destination_probe : Bool
  pub destination_connections : ℕ

-- `_MAX_CONNECTIONS`
abbrev pub max_connections : ℕ
max_connections = 20

-- `__init__`
abbrev pub new_relay : RuntimeTarget → Relay
new_relay target = record {
  target = target;
  is_started = false;
  is_closed = false;
  is_stopped = false;
  acceptor = idle;
  capacity = max_connections;
  workers = [];
  failure = none;
  destination_probe = false;
  destination_connections = 0;
}

abbrev pub same_target : RuntimeTarget → RuntimeTarget → Bool
same_target a b =
    same_text a.container_id b.container_id
    && (same_text a.network_id b.network_id
        && (same_text a.endpoint_id b.endpoint_id && same_text a.ipv4_address b.ipv4_address))

-- One round of `_prove_destination_available`: what `revalidate` gives (`none` is an exception), whether
-- time is left before and after the connection attempt, and whether the attempt succeeds.
pub record Round : Type 0 where
  pub current : Option RuntimeTarget
  pub has_time : Bool
  pub connects : Bool
  pub has_time_after : Bool

-- How the proof of the destination ends; `pending` is a loop that is still trying.
pub data Proof : Type 0 where
  proved pending : Proof
  not_proved : String → Proof

abbrev prove_round : RuntimeTarget → Option RuntimeTarget → Bool → Bool → Bool → Proof → Proof
prove_round target none has_time connects has_time_after rest =
    not_proved "owned runtime identity could not be revalidated before destination probe"
prove_round target (some current) has_time connects has_time_after rest =
    if not (same_target current target)
    then not_proved "owned runtime identity changed before relay destination probe"
    else if not has_time
    then not_proved "owned relay destination was not reachable before deadline"
    else if connects
    then proved
    else if has_time_after
    then rest
    else not_proved "owned relay destination was not reachable before deadline"

unfoldable pub prove_destination : RuntimeTarget → List Round → Proof
prove_destination target [] = pending
prove_destination target (r ∷ rounds) =
    let rest = prove_destination target rounds in
    prove_round target r.current r.has_time r.connects r.has_time_after rest

-- How binding and listening on the fixed port ends.
pub data Bound : Type 0 where
  bound occupied elsewhere : Bound

-- Nothing but the probe is kept of a `start` that raises.
abbrev start_proved : Relay → Proof → Option String × Relay
start_proved r proved =
    (none, record r { is_started = true; acceptor = polling; destination_probe = true })
start_proved r pending = (some "pending", r)
start_proved r (not_proved message) = (some message, r)

abbrev start_bound : Relay → Bound → Proof → Option String × Relay
start_bound r bound p = start_proved r p
start_bound r occupied p = (some "fixed loopback relay port is occupied or unavailable", r)
start_bound r elsewhere p = (some "loopback relay bound an unexpected socket", r)

unfoldable pub start_relay : Bound → List Round → Relay → Option String × Relay
unfolding prove_destination
start_relay b rounds r =
    if r.is_started || r.is_closed
    then (some "loopback relay lifecycle is invalid", r)
    else start_bound r b (prove_destination r.target rounds)

-- What `listener.accept` gives: nothing yet, an OSError, or a client with whether it is the loopback
-- host and whether its thread starts.
pub data Accepted : Type 0 where
  accept_timeout accept_fails : Accepted
  client : Bool → Bool → Accepted

-- Only the first failure is kept.
abbrev pub first_failure : Option String → String → Option String
first_failure none message = some message
first_failure (some first) message = some first

abbrev pub record_failure : String → Relay → Relay
record_failure message r = record r { failure = first_failure r.failure message }

-- The semaphore gives one; a thread that does not start gives it back and stops the relay.
abbrev pub take_client : ℕ → Bool → Relay → Relay
take_client name true r = record r {
  acceptor = polling;
  capacity = r.capacity - 1;
  workers = record { name = name; stage = accepted } ∷ r.workers;
}
take_client name false r = record r {
  acceptor = ended;
  failure = first_failure r.failure "loopback relay worker could not start";
  is_stopped = true;
}

abbrev pub accept_now : ℕ → Accepted → Relay → Relay
accept_now name accept_timeout r = record r { acceptor = polling }
accept_now name accept_fails r = record r { acceptor = refused }
accept_now name (client is_local starts) r =
    if not is_local || r.capacity == 0
    then record r { acceptor = polling }
    else take_client name starts r

abbrev pub accept_stage : Acceptor → ℕ → Accepted → Relay → Relay
accept_stage idle name a r = r
accept_stage polling name a r = record r { acceptor = if r.is_stopped then ended else accepting }
accept_stage accepting name a r = accept_now name a r
accept_stage refused name a r = record r {
  acceptor = if r.is_stopped then ended else accept_recording;
}
accept_stage accept_recording name a r = record (record_failure "loopback relay accept failed" r) {
  acceptor = ended;
}
accept_stage ended name a r = r

-- One turn of `_accept_connections`; `name` is the new thread.
unfoldable pub accept_turn : ℕ → Accepted → Relay → Relay
accept_turn name a r = accept_stage r.acceptor name a r

-- How a call of a worker ends: with the message of a RelayRuntimeError, with an error of the transport,
-- or with any other exception.
pub data Ending : Type 0 where
  succeeds transport_fails worker_fails : Ending
  relay_fails : String → Ending

-- What the worker's call gives, where its turn is one: `revalidate`, or the connection or `_forward`.
pub record Answer : Type 0 where
  pub current : Option RuntimeTarget
  pub ending : Ending

abbrev pub stage_of : ℕ → List Worker → Option Stage
stage_of name [] = none
stage_of name (w ∷ ws) = if w.name == name then some w.stage else stage_of name ws

abbrev pub without : ℕ → List Worker → List Worker
without name [] = []
without name (w ∷ ws) = if w.name == name then ws else w ∷ without name ws

abbrev pub set_stage : ℕ → Stage → List Worker → List Worker
set_stage name s [] = []
set_stage name s (w ∷ ws) =
    if w.name == name then record w { stage = s } ∷ ws else w ∷ set_stage name s ws

abbrev pub move : ℕ → Stage → Relay → Relay
move name s r = record r { workers = set_stage name s r.workers }

abbrev pub ended_as : Stage → Ending → Stage
ended_as next succeeds = next
ended_as next (relay_fails message) = raised message
ended_as next transport_fails = raised "owned relay transport failed"
ended_as next worker_fails = raised "owned relay worker failed"

abbrev pub revalidated_as : RuntimeTarget → Option RuntimeTarget → Stage
revalidated_as target none =
    raised "owned runtime identity could not be revalidated before destination connect"
revalidated_as target (some current) =
    if same_target current target
    then revalidated
    else raised "owned runtime identity changed before relay destination connect"

abbrev pub serve_stage : ℕ → Option Stage → Answer → Relay → Relay
serve_stage name none a r = r
serve_stage name (some accepted) a r = move name (if r.is_stopped then closing else asking) r
serve_stage name (some asking) a r = move name (revalidated_as r.target a.current) r
serve_stage name (some revalidated) a r = move name (if r.is_stopped then closing else connecting) r
serve_stage name (some connecting) a r = move name (ended_as counting a.ending) r
serve_stage name (some counting) a r =
    move name connected (record r { destination_connections = r.destination_connections + 1 })
serve_stage name (some connected) a r = move name (ended_as closing a.ending) r
serve_stage name (some (raised message)) a r =
    move name (if r.is_stopped then closing else recording message) r
serve_stage name (some (recording message)) a r = move name closing (record_failure message r)
serve_stage name (some closing) a r = move name released (record r { capacity = r.capacity + 1 })
serve_stage name (some released) a r = record r { workers = without name r.workers }

-- One turn of the worker `name` in `_serve_connection`.
unfoldable pub serve_connection : ℕ → Answer → Relay → Relay
serve_connection name a r = serve_stage name (stage_of name r.workers) a r

-- `close` up to its first `join`; it returns when the accept thread has, and no worker is left.
abbrev pub close_relay : Relay → Relay
close_relay r = if r.is_closed then r else record r { is_closed = true; is_stopped = true }

-- The steps of the threads, in the order in which they reach the state that they share.
pub data Step : Type 0 where
  accepts : ℕ → Accepted → Step
  serves : ℕ → Answer → Step
  closes : Step

abbrev pub step : Step → Relay → Relay
step (accepts name a) r = accept_turn name a r
step (serves name a) r = serve_connection name a r
step closes r = close_relay r

unfoldable pub steps : List Step → Relay → Relay
unfolding accept_turn serve_connection
steps [] r = r
steps (s ∷ ss) r = steps ss (step s r)

-- `assert_healthy` and `assert_destination_observed`; `some` is the error.
abbrev pub assert_healthy : Relay → Option String
assert_healthy r = r.failure

abbrev pub assert_destination_observed : Relay → Option String
assert_destination_observed r =
    if not r.destination_probe || ltb r.destination_connections 1
    then some "owned relay did not observe its attested destination"
    else none
