-- ===== src/Http/Admission.antt =====
-- `_Server.process_request` and `process_request_thread`, with the handlers' use of `run_slot`: the
-- threads of the service, one step at a time.
-- `_MAX_HTTP_REQUESTS`
use mathlib.Core.Option.{some-injective}
use mathlib.Core.Path.{subst}
use postgres_migration_rehea.Base.{
  ◌==◌, if◌then◌else◌, ℕ, suc, ◌+◌, ◌-◌, ◌≡◌, refl, Bool, true, false, Option, none, some, List, [],
  ◌∷◌, arith,
}

abbrev max_http_requests : ℕ
max_http_requests = 8

-- `permits` is the value of the bounded semaphore; `handling` counts the handler threads outside the
-- run slot, `running` those that hold it.
pub record Service : Type 0 where
  pub permits : ℕ
  pub handling : ℕ
  pub running : ℕ
  pub slot_free : Bool

abbrev pub started : Service
started = record { permits = max_http_requests; handling = 0; running = 0; slot_free = true }

-- A connection that is accepted (its handler thread starts or fails to start), a handler's attempt
-- on the run slot, its release, and the end of a handler.
pub data Action : Type 0 where
  connect connect_failing acquire_slot release_slot finish : Action

abbrev admit : Service → Service
admit s = record s { permits = s.permits - 1; handling = suc s.handling }

-- `self._request_slots.acquire(blocking=False)`: without a permit the connection gets the busy
-- response; a thread that does not start gives its permit back.
abbrev process_request : Bool → Service → Service
process_request starts s = if s.permits == 0 then s else if starts then admit s else s

-- `run_slot.acquire(blocking=False)`, by one of the handlers.
abbrev try_slot : Service → Service
try_slot s =
    if s.slot_free
    then record s { handling = s.handling - 1; running = suc s.running; slot_free = false }
    else s

abbrev free_slot : Service → Service
free_slot s = record s { handling = suc s.handling; running = s.running - 1; slot_free = true }

-- `none` where no thread can take the step.
unfoldable act : Action → Service → Option Service
act connect s = some (process_request true s)
act connect_failing s = some (process_request false s)
act acquire_slot s = if s.handling == 0 then none else some (try_slot s)
act release_slot s = if s.running == 0 then none else some (free_slot s)
act finish s =
    if s.handling == 0
    then none
    else some (record s { permits = suc s.permits; handling = s.handling - 1 })

unfoldable pub serve : List Action → Service → Option Service
unfolding act
serve [] s = some s
serve (a ∷ rest) s = elim (act a s) [ none ↦ none | some s' ↦ serve rest s' ]

-- Permits and threads add up to the bound, and the slot is held by one thread or free.
abbrev pub IsConsistent : Service → Type 0
IsConsistent s =
    (s.permits + s.handling + s.running ≡ max_http_requests)
    × (s.running ≡ (if s.slot_free then 0 else 1))

act-IsConsistent :
    (a : Action) (s s' : Service) → IsConsistent s → act a s ≡ some s' → IsConsistent s'
unfolding act
act-IsConsistent connect s s' c h = ground arith
act-IsConsistent connect_failing s s' c h = ground arith
act-IsConsistent acquire_slot s s' c h = ground arith
act-IsConsistent release_slot s s' c h = ground arith
act-IsConsistent finish s s' c h = ground arith

-- Whatever connections come and however the threads interleave, at most eight handlers are alive and
-- at most one of them is in the run slot, which is free just where none is: permits, handlers and
-- the run add up to the bound.
pub serve-IsConsistent :
    (actions : List Action) (s s' : Service)
    → IsConsistent s
    → serve actions s ≡ some s'
    → IsConsistent s'
unfolding serve
serve-IsConsistent [] s s' c h = subst IsConsistent (some-injective s s' h) c
serve-IsConsistent (a ∷ rest) s s' c h = go (act a s) refl (serve-IsConsistent rest) h
  where
    go :
        (r : Option Service)
        → act a s ≡ r
        → ((s₁ s₂ : Service) → IsConsistent s₁ → serve rest s₁ ≡ some s₂ → IsConsistent s₂)
        → elim r [ none ↦ none | some s₁ ↦ serve rest s₁ ] ≡ some s'
        → IsConsistent s'
    go none e ih k = cc
    go (some s₁) e ih k = ih s₁ s' (act-IsConsistent a s s₁ c e) k
