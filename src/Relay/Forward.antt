-- ===== src/Relay/Forward.antt =====
-- `_forward`. A flow is one direction: a source, the buffer and the destination.
-- `reading`: the source is in `readers`; `shut`: the destination is in `write_shutdown`. `received` and
-- `delivered` are ghosts: the bytes taken from the source and handed to the destination so far.
use postgres_migration_rehea.Base.{
  ltb, if◌then◌else◌, length, take, drop, ℕ, zero, suc, Bool, true, false, not, ◌&&◌, Option, none,
  some, List, [], ◌∷◌, ◌++◌,
}

pub record Flow : Type 0 where
  pub reading : Bool
  pub shut : Bool
  pub buffer : List ℕ
  pub received : List ℕ
  pub delivered : List ℕ

abbrev pub max_buffer_bytes : ℕ
max_buffer_bytes = 1048576

abbrev pub chunk_bytes : ℕ
chunk_bytes = 65536

abbrev pub new_flow : Flow
new_flow = record { reading = true; shut = false; buffer = []; received = []; delivered = [] }

-- What `recv` finds: the bytes that have arrived (none at the end of the stream), a transient error or
-- a broken connection. `recv` takes `chunk_bytes` of them at most.
pub data Read : Type 0 where
  arrived : List ℕ → Read
  read_blocked read_broken : Read

-- What `send` answers: how many bytes it could take.
pub data Write : Type 0 where
  accepts : ℕ → Write
  write_blocked write_broken : Write

abbrev pub is_empty : List ℕ → Bool
is_empty [] = true
is_empty (_ ∷ _) = false

-- The loop over `sockets` at the top: shut down a destination that has nothing more to get.
abbrev pub shut_drained : Flow → Flow
shut_drained f = if not f.reading && is_empty f.buffer then record f { shut = true } else f

abbrev pub extend : List ℕ → Flow → Flow
extend [] f = record f { reading = false }
extend (c ∷ cs) f = record f { buffer = f.buffer ++ c ∷ cs; received = f.received ++ c ∷ cs }

-- `none` is the `return` on a broken connection.
abbrev pub recv : Read → Flow → Option Flow
recv (arrived bytes) f = some (extend (take chunk_bytes bytes) f)
recv read_blocked f = some f
recv read_broken f = none

-- Is the source in `read_list`?
abbrev pub wants_read : Flow → Bool
wants_read f = f.reading && ltb (length f.buffer) max_buffer_bytes

abbrev receive : Read → Flow → Option Flow
receive r f = if wants_read f then recv r f else some f

abbrev pub send : Write → Flow → Option Flow
send (accepts zero) f = none
send (accepts (suc n)) f =
    some (record f {
      buffer = drop (suc n) f.buffer;
      delivered = f.delivered ++ take (suc n) f.buffer;
    })
send write_blocked f = some f
send write_broken f = none

-- `pending` says whether the destination was in `write_list`, which is computed before the reads.
abbrev transmit : Bool → Write → Flow → Option Flow
transmit pending w f = if pending then send w f else some f

-- One turn for one direction: `none` in place of an event is a socket that `select` did not return.
abbrev pub receive_if : Option Read → Flow → Option Flow
receive_if none f = some f
receive_if (some r) f = receive r f

abbrev pub transmit_if : Bool → Option Write → Flow → Option Flow
transmit_if pending none f = some f
transmit_if pending (some w) f = transmit pending w f

-- What `select` returned, for the flow to the client and the flow to the upstream.
pub record Ready : Type 0 where
  pub client_reads : Option Read
  pub upstream_reads : Option Read
  pub client_writes : Option Write
  pub upstream_writes : Option Write

pub record Connection : Type 0 where
  pub to_upstream : Flow
  pub to_client : Flow

pub data Loop : Type 0 where
  going completed aborted : Connection → Loop

abbrev pub and_then : Connection → (Flow → Loop) → Option Flow → Loop
and_then c k none = aborted c
and_then c k (some f) = k f

abbrev pub is_done : Flow → Bool
is_done f = not f.reading && is_empty f.buffer

abbrev pub pair_of : Flow → Flow → Connection
pair_of up down = record { to_upstream = up; to_client = down }

-- The reads, then the writes.
abbrev pub exchange : Ready → Flow → Flow → Loop
exchange r up down =
    and_then (pair_of up down)
      (λ up₁.
        and_then (pair_of up₁ down)
          (λ down₁.
            and_then (pair_of up₁ down₁)
              (λ down₂.
                and_then (pair_of up₁ down₂) (λ up₂. going (pair_of up₂ down₂))
                  (transmit_if (not (is_empty up.buffer)) r.upstream_writes up₁))
              (transmit_if (not (is_empty down.buffer)) r.client_writes down₁))
          (receive_if r.upstream_reads down))
      (receive_if r.client_reads up)

-- One turn of `while not self._stop.is_set()`.
unfoldable pub turn : Ready → Connection → Loop
turn r c =
    let up = shut_drained c.to_upstream in
    let down = shut_drained c.to_client in
    if is_done up && is_done down then completed (pair_of up down) else exchange r up down
