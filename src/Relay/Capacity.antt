-- ===== src/Relay/Capacity.antt =====
-- How many connections the relay holds.
-- What the semaphore gives and what the workers hold make up the whole.
use mathlib.Core.Option.{some-injective}
use mathlib.Core.Path.{subst}
use postgres_migration_rehea.Base.{
  ◌==◌, if◌then◌else◌, Bool-cases, if-cases, ℕ, ◌+◌, ◌≤◌, ◌≡◌, refl, ap, inl, inr, Bool, true,
  false, Option, none, some, List, [], ◌∷◌, arith,
}
use postgres_migration_rehea.Fixtures.Runtime.{RuntimeTarget}
use postgres_migration_rehea.Relay.Lifecycle.{
  refused, ended, released, idle, raised, Answer, Stage, accepted, asking, revalidated, connecting,
  counting, connected, closing, recording, Acceptor, polling, accepting, accept_recording, Worker,
  Relay, max_connections, same_target, Accepted, accept_timeout, accept_fails, client, take_client,
  accept_now, accept_stage, accept_turn, Ending, succeeds, transport_fails, worker_fails,
  relay_fails, stage_of, without, set_stage, move, ended_as, revalidated_as, serve_stage,
  serve_connection, Step, accepts, serves, closes, step, steps,
}

-- A sum over the workers' stages.
abbrev pub total : (Stage → ℕ) → List Worker → ℕ
total f [] = 0
total f (w ∷ ws) = f w.stage + total f ws

module _ (f : Stage → ℕ) (name : ℕ) (s : Stage) where
  found_later :
      (w : Worker) (ws : List Worker)
      → (w.name == name) ≡ false
      → stage_of name (w ∷ ws) ≡ some s
      → stage_of name ws ≡ some s
  found_later w ws differs h =
      subst (λ b. (if b then some w.stage else stage_of name ws) ≡ some s) differs h

  found_first :
      (w : Worker) (ws : List Worker)
      → (w.name == name) ≡ true
      → stage_of name (w ∷ ws) ≡ some s
      → f w.stage ≡ f s
  found_first w ws same h = ap f (
      some-injective _ _
        (subst (λ b. (if b then some w.stage else stage_of name ws) ≡ some s) same h))

  pub total-set_stage :
      (t : Stage) (ws : List Worker)
      → stage_of name ws ≡ some s
      → total f (set_stage name t ws) + f s ≡ total f ws + f t
  total-set_stage t [] h = cc
  total-set_stage t (w ∷ ws) h = elim (Bool-cases (w.name == name)) [
    | inl same ↦ let here = found_first w ws same h in rw (same) (omega (arith, here))
    | inr differs ↦
        let rest = total-set_stage t ws (found_later w ws differs h) in
        rw (differs) (omega (arith, rest))
  ]

  pub total-without :
      (ws : List Worker) → stage_of name ws ≡ some s → total f (without name ws) + f s ≡ total f ws
  total-without [] h = cc
  total-without (w ∷ ws) h = elim (Bool-cases (w.name == name)) [
    | inl same ↦ let here = found_first w ws same h in rw (same) (omega (arith, here))
    | inr differs ↦
        let rest = total-without ws (found_later w ws differs h) in
        rw (differs) (omega (arith, rest))
  ]

-- Does a worker hold one of the places?
abbrev pub holds : Stage → ℕ
holds released = 0
holds _ = 1

abbrev pub IsBounded : Relay → Type 0
IsBounded r = r.capacity + total holds r.workers ≡ max_connections

take_client-IsBounded :
    (name : ℕ) (starts : Bool) (r : Relay)
    → IsBounded r
    → (r.capacity == 0) ≡ false
    → IsBounded (take_client name starts r)
take_client-IsBounded name true r h free =
    let positive : 1 ≤ r.capacity = ground arith in omega (arith, h, positive)
take_client-IsBounded name false r h free = h

accept_now-IsBounded :
    (name : ℕ) (a : Accepted) (r : Relay) → IsBounded r → IsBounded (accept_now name a r)
accept_now-IsBounded name accept_timeout r h = h
accept_now-IsBounded name accept_fails r h = h
accept_now-IsBounded name (client false starts) r h = h
accept_now-IsBounded name (client true starts) r h = elim (Bool-cases (r.capacity == 0)) [
  | inl full ↦ rw (full) h
  | inr free ↦ rw (free) (take_client-IsBounded name starts r h free)
]

accept_stage-IsBounded :
    (s : Acceptor) (name : ℕ) (a : Accepted) (r : Relay)
    → IsBounded r
    → IsBounded (accept_stage s name a r)
accept_stage-IsBounded idle name a r h = h
accept_stage-IsBounded polling name a r h = h
accept_stage-IsBounded accepting name a r h = accept_now-IsBounded name a r h
accept_stage-IsBounded refused name a r h = h
accept_stage-IsBounded accept_recording name a r h = h
accept_stage-IsBounded ended name a r h = h

ended_as-holds : (s : Stage) (e : Ending) → holds s ≡ 1 → holds (ended_as s e) ≡ 1
ended_as-holds s succeeds h = h
ended_as-holds s (relay_fails message) h = refl
ended_as-holds s transport_fails h = refl
ended_as-holds s worker_fails h = refl

revalidated_as-holds :
    (target : RuntimeTarget) (o : Option RuntimeTarget) → holds (revalidated_as target o) ≡ 1
revalidated_as-holds target none = refl
revalidated_as-holds target (some current) =
    if-cases (λ s. holds s ≡ 1) (same_target current target) _ _ refl refl

module _ (name : ℕ) (r : Relay) (s : Stage) (found : stage_of name r.workers ≡ some s)
    (h : IsBounded r) where
  -- A worker that keeps its place.
  move-IsBounded : (t : Stage) → holds s ≡ 1 → holds t ≡ 1 → IsBounded (move name t r)
  move-IsBounded t before after =
      let sum = total-set_stage holds name s t r.workers found in
      omega (arith, h, sum, before, after)

  stop_test-IsBounded :
      (t : Stage)
      → holds s ≡ 1
      → holds t ≡ 1
      → IsBounded (move name (if r.is_stopped then closing else t) r)
  stop_test-IsBounded t before after =
      move-IsBounded _ before (if-cases (λ u. holds u ≡ 1) r.is_stopped _ _ refl after)

serve_stage-IsBounded :
    (name : ℕ) (o : Option Stage) (a : Answer) (r : Relay)
    → stage_of name r.workers ≡ o
    → IsBounded r
    → IsBounded (serve_stage name o a r)
serve_stage-IsBounded name none a r e h = h
serve_stage-IsBounded name (some accepted) a r e h =
    stop_test-IsBounded name r _ e h asking refl refl
serve_stage-IsBounded name (some asking) a r e h =
    move-IsBounded name r _ e h _ refl (revalidated_as-holds r.target a.current)
serve_stage-IsBounded name (some revalidated) a r e h =
    stop_test-IsBounded name r _ e h connecting refl refl
serve_stage-IsBounded name (some connecting) a r e h =
    move-IsBounded name r _ e h _ refl (ended_as-holds counting a.ending refl)
serve_stage-IsBounded name (some counting) a r e h = move-IsBounded name r _ e h connected refl refl
serve_stage-IsBounded name (some connected) a r e h =
    move-IsBounded name r _ e h _ refl (ended_as-holds closing a.ending refl)
serve_stage-IsBounded name (some (raised message)) a r e h =
    stop_test-IsBounded name r _ e h (recording message) refl refl
serve_stage-IsBounded name (some (recording message)) a r e h =
    move-IsBounded name r _ e h closing refl refl
serve_stage-IsBounded name (some closing) a r e h =
    let sum = total-set_stage holds name closing released r.workers e in omega (arith, h, sum)
serve_stage-IsBounded name (some released) a r e h =
    let sum = total-without holds name released r.workers e in omega (arith, h, sum)

step-IsBounded : (s : Step) (r : Relay) → IsBounded r → IsBounded (step s r)
unfolding accept_turn serve_connection
step-IsBounded (accepts name a) r h = accept_stage-IsBounded r.acceptor name a r h
step-IsBounded (serves name a) r h = serve_stage-IsBounded name (stage_of name r.workers) a r refl h
step-IsBounded closes r h = if-cases IsBounded r.is_closed _ _ h h

-- However the accept loop, the workers and `close` are interleaved, from a relay in which the
-- semaphore's count and the workers that hold a place add up to 20, they still do: at most 20
-- connections are held, and none of the 20 places is lost.
pub steps-IsBounded : (ss : List Step) (r : Relay) → IsBounded r → IsBounded (steps ss r)
unfolding steps
steps-IsBounded [] r h = h
steps-IsBounded (s ∷ ss) r h = steps-IsBounded ss (step s r) (step-IsBounded s r h)
