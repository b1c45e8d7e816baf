-- ===== src/Relay/Completion.antt =====
-- What a relayed connection has done when `_forward` returns because both ends are drained.
-- The turns of the loop, by what `select` returned in each.
use mathlib.Core.List.{append-nil}
use postgres_migration_rehea.Base.{
  if◌then◌else◌, both, ℕ, ◌≡◌, refl, ap, ◌∙◌, Bool, true, false, not, ◌&&◌, Option, none, some,
  List, [], ◌∷◌, ◌++◌,
}
use postgres_migration_rehea.Relay.Forward.{
  completed, is_empty, Flow, shut_drained, receive_if, transmit_if, Ready, Connection, Loop, going,
  aborted, and_then, is_done, pair_of, exchange, turn,
}
use postgres_migration_rehea.Relay.Order.{
  IsFaithful, shut_drained-IsFaithful, connection_of, IsFaithfulBoth, turn-IsFaithful,
}

unfoldable pub forward_turns : List Ready → Connection → Loop
unfolding turn
forward_turns [] c = going c
forward_turns (r ∷ rest) c = elim (turn r c) [
  | going c' ↦ forward_turns rest c'
  | completed c' ↦ completed c'
  | aborted c' ↦ aborted c'
]

-- Nothing is left where the loop says so.
abbrev pub IsDrained : Loop → Type 0
IsDrained (going c) = Unit
IsDrained (aborted c) = Unit
IsDrained (completed c) =
    (c.to_upstream.received ≡ c.to_upstream.delivered)
    × (c.to_client.received ≡ c.to_client.delivered)

none_left : (l : List ℕ) → is_empty l ≡ true → l ≡ []
none_left [] e = refl
none_left (x ∷ l) e = cc

emptied : (f : Flow) → IsFaithful f → is_done f ≡ true → f.received ≡ f.delivered
emptied f h d =
    h.0
    ∙ ap (λ l. f.delivered ++ l) (none_left f.buffer (both (not f.reading) (is_empty f.buffer) d).1)
    ∙ append-nil f.delivered

and_then-IsDrained :
    (c : Connection) (k : Flow → Loop) (o : Option Flow)
    → ((f : Flow) → IsDrained (k f))
    → IsDrained (and_then c k o)
and_then-IsDrained c k none g = tt
and_then-IsDrained c k (some f) g = g f

exchange-IsDrained : (r : Ready) (up down : Flow) → IsDrained (exchange r up down)
exchange-IsDrained r up down = and_then-IsDrained _ _ (receive_if r.client_reads up) λ up₁.
    and_then-IsDrained _ _ (receive_if r.upstream_reads down) λ down₁.
      and_then-IsDrained _ _ (transmit_if (not (is_empty down.buffer)) r.client_writes down₁)
        λ down₂.
          and_then-IsDrained _ _ (transmit_if (not (is_empty up.buffer)) r.upstream_writes up₁)
            λ up₂. tt

settle-IsDrained :
    (r : Ready) (up down : Flow) (b : Bool)
    → IsFaithful up
    → IsFaithful down
    → (is_done up && is_done down) ≡ b
    → IsDrained (if b then completed (pair_of up down) else exchange r up down)
settle-IsDrained r up down true u d e =
    let done : (is_done up ≡ true) × (is_done down ≡ true) = both (is_done up) (is_done down) e in
    (emptied up u done.0, emptied down d done.1)
settle-IsDrained r up down false u d e = exchange-IsDrained r up down

turn-IsDrained : (r : Ready) (c : Connection) → IsFaithfulBoth c → IsDrained (turn r c)
unfolding turn
turn-IsDrained r c h =
    settle-IsDrained r (shut_drained c.to_upstream) (shut_drained c.to_client) _
      (shut_drained-IsFaithful c.to_upstream h.0) (shut_drained-IsFaithful c.to_client h.1) refl

-- Whatever `select`, `recv` and `send` answer in each turn, from a faithful connection: the loop stays
-- faithful, and where it returns because both ends are drained, every byte received on either side
-- was delivered to the other, in order.
pub forward_turns-IsDrained :
    (rs : List Ready) (c : Connection)
    → IsFaithfulBoth c
    → IsFaithfulBoth (connection_of (forward_turns rs c)) × IsDrained (forward_turns rs c)
unfolding forward_turns
forward_turns-IsDrained [] c h = (h, tt)
forward_turns-IsDrained (r ∷ rest) c h =
    go (turn r c) (turn-IsFaithful r c h) (turn-IsDrained r c h) (forward_turns-IsDrained rest)
  where
    go :
        (l : Loop)
        → IsFaithfulBoth (connection_of l)
        → IsDrained l
        → ((c : Connection)
            → IsFaithfulBoth c
            → IsFaithfulBoth (connection_of (forward_turns rest c))
              × IsDrained (forward_turns rest c))
        → IsFaithfulBoth (
            connection_of (elim l [
              | going c' ↦ forward_turns rest c'
              | completed c' ↦ completed c'
              | aborted c' ↦ aborted c'
            ]))
          × IsDrained (elim l [
            | going c' ↦ forward_turns rest c'
            | completed c' ↦ completed c'
            | aborted c' ↦ aborted c'
          ])
    go (going c') f d ih = ih c' f
    go (completed c') f d ih = (f, d)
    go (aborted c') f d ih = (f, d)
