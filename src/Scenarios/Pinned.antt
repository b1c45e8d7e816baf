-- ===== src/Scenarios/Pinned.antt =====
-- What an accepted fixture file holds: the pinned rows, whatever the file says.
-- Each scenario but the rejected one has its pinned rows.
use mathlib.Core.Path.{subst}
use postgres_migration_rehea.Adapter.{
  runtime_error, ◌>>=◌, ◌>>◌, require, get, is_list_of, Attempt, done, fault,
}
use postgres_migration_rehea.Base.{
  ◌==◌, if◌then◌else◌, ==→eq, Bool-cases, both, All, same_text, same_text→eq, ◌≡◌, refl, sym, ap,
  inl, inr, true, false, ◌&&◌, Option, some, List, [], ◌∷◌, ◌++◌, String,
}
use postgres_migration_rehea.Engine.{FixtureRow}
use postgres_migration_rehea.Fixtures.{Validated, rejected, validated, validate_rows}
use postgres_migration_rehea.Http.{
  Json, json_null, json_bool, json_number, json_text, json_array, json_object, Items, no_items,
  item,
}
use postgres_migration_rehea.Response.{same_rows}
use postgres_migration_rehea.Scenarios.Load.{
  select, load_document, Scenarios, pinned_rows, is_invalid_row, check_valid_rows, check_rows,
  check_scenario, collect_item, collect, collect_list, find, selected, check_document, check_ids,
  from_list, from_document, load_scenarios, fixture_rows,
}

abbrev IsPinnedScenario : String × Json → Type 0
IsPinnedScenario (k, v) =
    same_text k "invalid-negative-amount" ≡ false
    → validate_rows (get v "rows") ≡ validated (pinned_rows k)

abbrev IsPinned : Scenarios → Type 0
IsPinned s = All IsPinnedScenario s

abbrev IsPinnedAttempt : Attempt Scenarios → Type 0
IsPinnedAttempt (fault e) = Unit
IsPinnedAttempt (done s) = IsPinned s

IsPinned-append :
    (s : Scenarios) (k : String) (v : Json)
    → IsPinned s
    → IsPinnedScenario (k, v)
    → IsPinned (s ++ (k, v) ∷ [])
IsPinned-append [] k v h e = (e, tt)
IsPinned-append ((j, w) ∷ s) k v h e = (h.0, IsPinned-append s k v h.1 e)

same_rows→eq : (a b : List FixtureRow) → same_rows a b ≡ true → a ≡ b
same_rows→eq [] [] h = refl
same_rows→eq [] (r ∷ rs) h = cc
same_rows→eq (q ∷ qs) [] h = cc
same_rows→eq (q ∷ qs) (r ∷ rs) h =
    let first = both (q.invoice_id == r.invoice_id && q.amount_cents == r.amount_cents) _ h in
    let parts = both (q.invoice_id == r.invoice_id) _ first.0 in
    let ids : q.invoice_id ≡ r.invoice_id = ==→eq q.invoice_id r.invoice_id parts.0 in
    let amounts : q.amount_cents ≡ r.amount_cents = ==→eq q.amount_cents r.amount_cents parts.1 in
    λ i. record { invoice_id = ids i; amount_cents = amounts i } ∷ same_rows→eq qs rs first.1 i

-- The test on the rows passes only for the pinned ones.
check_valid_rows-pinned :
    (k : String) (w : Validated) → check_valid_rows k w ≡ done tt → w ≡ validated (pinned_rows k)
check_valid_rows-pinned k (rejected field detail) h = cc
check_valid_rows-pinned k (validated rows) h = elim (Bool-cases (same_rows rows (pinned_rows k))) [
  | inl same ↦ ap validated (same_rows→eq rows (pinned_rows k) same)
  | inr differ ↦ cc
]

check_rows-pinned :
    (k : String) (v : Json) → check_rows k (get v "rows") ≡ done tt → IsPinnedScenario (k, v)
unfolding check_rows
check_rows-pinned k v h valid = check_valid_rows-pinned k (validate_rows (get v "rows")) (
    subst
      (λ b.
        (if b
          then require (is_list_of is_invalid_row (get v "rows"))
              (runtime_error "fixture rejected scenario changed")
          else check_valid_rows k (validate_rows (get v "rows")))
        ≡ done tt)
      valid h)

after-IsPinned :
    (m : Attempt (Unit {0})) (k : Attempt Scenarios)
    → (m ≡ done tt → IsPinnedAttempt k)
    → IsPinnedAttempt (m >> k)
after-IsPinned (done _) k h = h refl
after-IsPinned (fault e) k h = tt

last_step : (m n : Attempt (Unit {0})) → (m >> n) ≡ done tt → n ≡ done tt
last_step (done _) n h = h
last_step (fault e) n h = cc

-- One turn of the loop, given what holds of the rest.
item-IsPinned :
    (v : Json) (vs : Items) (s : Scenarios) (j : Json)
    → ((k : String) → IsPinnedScenario (k, v) → IsPinnedAttempt (collect (s ++ (k, v) ∷ []) vs))
    → IsPinnedAttempt (collect_item v (λ k. collect (s ++ (k, v) ∷ []) vs) s j)
unfolding check_rows
item-IsPinned v vs s (json_text k) rest =
    after-IsPinned (check_scenario k v s >> check_rows k (get v "rows"))
      (collect (s ++ (k, v) ∷ []) vs)
      (λ both_pass. rest k (check_rows-pinned k v (last_step (check_scenario k v s) _ both_pass)))
item-IsPinned v vs s json_null rest = tt
item-IsPinned v vs s (json_bool b) rest = tt
item-IsPinned v vs s (json_number n) rest = tt
item-IsPinned v vs s (json_array l) rest = tt
item-IsPinned v vs s (json_object ms) rest = tt

collect-IsPinned : (l : Items) (s : Scenarios) → IsPinned s → IsPinnedAttempt (collect s l)
unfolding collect
collect-IsPinned no_items s h = h
collect-IsPinned (item v vs) s h =
    item-IsPinned v vs s (get v "id")
      λ k e. collect-IsPinned vs (s ++ (k, v) ∷ []) (IsPinned-append s k v h e)

collect_list-IsPinned : (v : Json) → IsPinnedAttempt (collect_list v)
unfolding collect
collect_list-IsPinned (json_array l) = collect-IsPinned l [] tt
collect_list-IsPinned json_null = tt
collect_list-IsPinned (json_bool b) = tt
collect_list-IsPinned (json_number n) = tt
collect_list-IsPinned (json_text t) = tt
collect_list-IsPinned (json_object ms) = tt

-- What a bind keeps.
bind-IsPinned :
    (m : Attempt Scenarios) (f : Scenarios → Attempt Scenarios)
    → IsPinnedAttempt m
    → ((s : Scenarios) → IsPinned s → IsPinnedAttempt (f s))
    → IsPinnedAttempt (m >>= f)
bind-IsPinned (done s) f h k = k s h
bind-IsPinned (fault e) f h k = tt

step-IsPinned :
    {A : Type 0} (m : Attempt A) (f : A → Attempt Scenarios)
    → ((x : A) → IsPinnedAttempt (f x))
    → IsPinnedAttempt (m >>= f)
step-IsPinned (done x) f h = h x
step-IsPinned (fault e) f h = tt

from_list-IsPinned :
    (id : String) (s : Scenarios) → IsPinned s → IsPinnedAttempt (from_list (some id) s)
unfolding validate_rows
from_list-IsPinned id s h =
    step-IsPinned (check_ids s) (λ _. selected (some id) s)
      (λ _. step-IsPinned (select id (find id s)) (λ _. done s) (λ _. h))

load_scenarios-IsPinned :
    (file : Option Json) (id : String) → IsPinnedAttempt (load_scenarios file (some id))
unfolding load_scenarios
load_scenarios-IsPinned file id =
    step-IsPinned (load_document file) (from_document (some id)) λ document.
      step-IsPinned (check_document document)
        (λ _. collect_list (get document "scenarios") >>= from_list (some id))
        λ _.
          bind-IsPinned (collect_list (get document "scenarios")) (from_list (some id))
            (collect_list-IsPinned (get document "scenarios")) (from_list-IsPinned id)

abbrev IsPinnedRows : String → Attempt (List FixtureRow) → Type 0
IsPinnedRows id (fault e) = Unit
IsPinnedRows id (done rows) = rows ≡ pinned_rows id

found-IsPinnedRows :
    (id : String) (s : Scenarios)
    → same_text id "invalid-negative-amount" ≡ false
    → IsPinned s
    → IsPinnedRows id (select id (find id s))
unfolding validate_rows
found-IsPinnedRows id [] valid h = tt
found-IsPinnedRows id ((k, v) ∷ s) valid h = elim (Bool-cases (same_text k id)) [
  | inl same ↦
      rw
        (
          same,
          h.0 (
              subst (λ t. same_text t "invalid-negative-amount" ≡ false)
                (sym (same_text→eq k id same)) valid),
        )
        (ap pinned_rows (same_text→eq k id same))
  | inr differ ↦ rw (differ) (found-IsPinnedRows id s valid h.1)
]

-- Whatever the fixture file says, the rows that a rehearsal of a scenario other than the rejected one
-- gets are the pinned rows of that scenario.
pub fixture_rows-pinned :
    (file : Option Json) (id : String) (rows : List FixtureRow)
    → same_text id "invalid-negative-amount" ≡ false
    → fixture_rows file id ≡ done rows
    → rows ≡ pinned_rows id
unfolding fixture_rows
fixture_rows-pinned file id rows valid h =
    subst (IsPinnedRows id) h
      (selected-IsPinned (load_scenarios file (some id)) (load_scenarios-IsPinned file id))
  where
    selected-IsPinned :
        (m : Attempt Scenarios)
        → IsPinnedAttempt m
        → IsPinnedRows id (m >>= (λ s. select id (find id s)))
    selected-IsPinned (done s) pinned = found-IsPinnedRows id s valid pinned
    selected-IsPinned (fault e) pinned = tt
