-- ===== src/Relay/Order.antt =====
-- The relay loses, repeats and reorders nothing, within bounded buffers.
-- What was received is what was delivered and then what is buffered; the buffer is bounded; and a
-- destination is shut only after the end of the stream, with nothing left to send.
use mathlib.Core.List.{append_assoc}
use mathlib.Core.Option.{some-injective}
use mathlib.Core.Path.{subst}
use postgres_migration_rehea.Base.{
  if◌then◌else◌, ltb→lt, if-cases, length, take, drop, length-append, take-append-drop, ℕ, zero,
  suc, ◌+◌, ◌≤◌, ◌<◌, ◌≡◌, refl, sym, ap, ◌∙◌, Bool, true, false, not, ◌&&◌, Option, none, some,
  List, [], ◌∷◌, ◌++◌, arith,
}
use postgres_migration_rehea.Relay.Forward.{
  completed, Flow, max_buffer_bytes, chunk_bytes, Read, arrived, read_blocked, read_broken, Write,
  accepts, write_blocked, write_broken, is_empty, shut_drained, extend, recv, wants_read, send,
  receive_if, transmit_if, Ready, Connection, Loop, going, aborted, and_then, is_done, pair_of,
  exchange, turn,
}

abbrev pub IsFaithful : Flow → Type 0
IsFaithful f =
    (f.received ≡ f.delivered ++ f.buffer)
    × ((length f.buffer < max_buffer_bytes + chunk_bytes) × (f.shut ≡ true → is_done f ≡ true))

length-take : (n : ℕ) (xs : List ℕ) → length (take n xs) ≤ n
length-take zero xs = omega arith
length-take (suc n) [] = omega arith
length-take (suc n) (x ∷ xs) = omega (arith, length-take n xs)

length-drop : (n : ℕ) (xs : List ℕ) → length (drop n xs) ≤ length xs
length-drop zero xs = omega arith
length-drop (suc n) [] = omega arith
length-drop (suc n) (x ∷ xs) = omega (arith, length-drop n xs)

is_done-reading : (f : Flow) → f.reading ≡ true → is_done f ≡ false
is_done-reading f h = rw h refl

never_shut : (P : Type 0) (f : Flow) → IsFaithful f → f.reading ≡ true → f.shut ≡ true → P
never_shut P f h reads shut = ground (arith, h.1.1 shut, is_done-reading f reads)

extend-IsFaithful :
    (bytes : List ℕ) (f : Flow)
    → f.reading ≡ true
    → length f.buffer < max_buffer_bytes
    → length bytes ≤ chunk_bytes
    → IsFaithful f
    → IsFaithful (extend bytes f)
extend-IsFaithful [] f reads room few h = (h.0, (h.1.0, never_shut _ f h reads))
extend-IsFaithful (c ∷ cs) f reads room few h = (
  ap (λ l. l ++ c ∷ cs) h.0 ∙ append_assoc f.delivered f.buffer (c ∷ cs),
  (omega (arith, length-append f.buffer (c ∷ cs)), never_shut _ f h reads),
)

is_done-drop :
    (n : ℕ) (reading : Bool) (buffer : List ℕ)
    → (not reading && is_empty buffer) ≡ true
    → (not reading && is_empty (drop n buffer)) ≡ true
is_done-drop n true buffer h = h
is_done-drop zero false buffer h = h
is_done-drop (suc n) false [] h = refl
is_done-drop (suc n) false (x ∷ xs) h = cc

send-IsFaithful : (w : Write) (f f' : Flow) → IsFaithful f → send w f ≡ some f' → IsFaithful f'
send-IsFaithful write_blocked f f' h e = subst IsFaithful (some-injective f f' e) h
send-IsFaithful write_broken f f' h e = cc
send-IsFaithful (accepts zero) f f' h e = cc
send-IsFaithful (accepts (suc n)) f f' h e = subst IsFaithful (some-injective _ f' e) (
  h.0
      ∙ ap (λ l. f.delivered ++ l) (sym (take-append-drop (suc n) f.buffer))
      ∙ sym (append_assoc f.delivered (take (suc n) f.buffer) (drop (suc n) f.buffer)),
  (
    omega (arith, length-drop (suc n) f.buffer, h.1.0),
    λ shut. is_done-drop (suc n) f.reading f.buffer (h.1.1 shut),
  ),
)

transmit_if-IsFaithful :
    (pending : Bool) (w : Option Write) (f f' : Flow)
    → IsFaithful f
    → transmit_if pending w f ≡ some f'
    → IsFaithful f'
transmit_if-IsFaithful pending none f f' h e = subst IsFaithful (some-injective f f' e) h
transmit_if-IsFaithful true (some w) f f' h e = send-IsFaithful w f f' h e
transmit_if-IsFaithful false (some w) f f' h e = subst IsFaithful (some-injective f f' e) h

recv-IsFaithful :
    (r : Read) (f f' : Flow)
    → f.reading ≡ true
    → length f.buffer < max_buffer_bytes
    → IsFaithful f
    → recv r f ≡ some f'
    → IsFaithful f'
recv-IsFaithful (arrived bytes) f f' reads room h e =
    subst IsFaithful (some-injective _ f' e)
      (extend-IsFaithful (take chunk_bytes bytes) f reads room (length-take chunk_bytes bytes) h)
recv-IsFaithful read_blocked f f' reads room h e = subst IsFaithful (some-injective f f' e) h
recv-IsFaithful read_broken f f' reads room h e = cc

wants_read-room :
    (f : Flow) → wants_read f ≡ true → (f.reading ≡ true) × (length f.buffer < max_buffer_bytes)
wants_read-room f h = ground (arith, ltb→lt (length f.buffer) max_buffer_bytes)

receive_if-IsFaithful :
    (r : Option Read) (f f' : Flow) → IsFaithful f → receive_if r f ≡ some f' → IsFaithful f'
receive_if-IsFaithful none f f' h e = subst IsFaithful (some-injective f f' e) h
receive_if-IsFaithful (some r) f f' h e = go (wants_read f) refl e
  where
    go : (b : Bool) → wants_read f ≡ b → (if b then recv r f else some f) ≡ some f' → IsFaithful f'
    go true w e =
        let room : (f.reading ≡ true) × (length f.buffer < max_buffer_bytes) =
          wants_read-room f w in
        recv-IsFaithful r f f' room.0 room.1 h e
    go false w e = subst IsFaithful (some-injective f f' e) h

pub shut_drained-IsFaithful : (f : Flow) → IsFaithful f → IsFaithful (shut_drained f)
shut_drained-IsFaithful f h = go (is_done f) refl
  where
    go : (b : Bool) → is_done f ≡ b → IsFaithful (if b then record f { shut = true } else f)
    go true d = (h.0, (h.1.0, λ _. d))
    go false d = h

abbrev pub connection_of : Loop → Connection
connection_of (going c) = c
connection_of (completed c) = c
connection_of (aborted c) = c

abbrev pub IsFaithfulBoth : Connection → Type 0
IsFaithfulBoth c = IsFaithful c.to_upstream × IsFaithful c.to_client

abbrev LeavesFaithful : Loop → Type 0
LeavesFaithful l = IsFaithfulBoth (connection_of l)

and_then-IsFaithful :
    (c : Connection) (k : Flow → Loop) (o : Option Flow)
    → IsFaithfulBoth c
    → ((f : Flow) → o ≡ some f → LeavesFaithful (k f))
    → LeavesFaithful (and_then c k o)
and_then-IsFaithful c k none h g = h
and_then-IsFaithful c k (some f) h g = g f refl

exchange-IsFaithful :
    (r : Ready) (up down : Flow)
    → IsFaithful up
    → IsFaithful down
    → LeavesFaithful (exchange r up down)
exchange-IsFaithful r up down u d =
    and_then-IsFaithful _ _ (receive_if r.client_reads up) (u, d)
      λ up₁ e₁.
        let u₁ : IsFaithful up₁ = receive_if-IsFaithful r.client_reads up up₁ u e₁ in
        and_then-IsFaithful _ _ (receive_if r.upstream_reads down) (u₁, d)
          λ down₁ e₂.
            let d₁ : IsFaithful down₁ = receive_if-IsFaithful r.upstream_reads down down₁ d e₂ in
            and_then-IsFaithful _ _ (transmit_if (not (is_empty down.buffer)) r.client_writes down₁)
              (u₁, d₁)
              λ down₂ e₃.
                let d₂ : IsFaithful down₂ =
                  transmit_if-IsFaithful (not (is_empty down.buffer)) r.client_writes down₁ down₂ d₁
                    e₃ in
                and_then-IsFaithful _ _
                  (transmit_if (not (is_empty up.buffer)) r.upstream_writes up₁) (u₁, d₂)
                  λ up₂ e₄. (
                    transmit_if-IsFaithful (not (is_empty up.buffer)) r.upstream_writes up₁ up₂ u₁
                        e₄,
                    d₂,
                  )

-- A turn of the loop, whatever `select`, `recv` and `send` answer, keeps both directions faithful:
-- the bytes received are the bytes delivered followed by the bytes buffered, in order, the buffer
-- stays below its bound plus one chunk, and a destination is shut only when nothing is left for it.
pub turn-IsFaithful :
    (r : Ready) (c : Connection) → IsFaithfulBoth c → IsFaithfulBoth (connection_of (turn r c))
unfolding turn
turn-IsFaithful r c h =
    if-cases LeavesFaithful
      (is_done (shut_drained c.to_upstream) && is_done (shut_drained c.to_client))
      (completed (pair_of (shut_drained c.to_upstream) (shut_drained c.to_client)))
      (exchange r (shut_drained c.to_upstream) (shut_drained c.to_client))
      (shut_drained-IsFaithful c.to_upstream h.0, shut_drained-IsFaithful c.to_client h.1)
      (exchange-IsFaithful r (shut_drained c.to_upstream) (shut_drained c.to_client)
        (shut_drained-IsFaithful c.to_upstream h.0) (shut_drained-IsFaithful c.to_client h.1))
