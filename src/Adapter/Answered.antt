-- ===== src/Adapter/Answered.antt =====
-- What a child that returns has been through.
-- The response of a child that returns one.
use postgres_migration_rehea.Adapter.Child.{
  Process, Child, killed, reap, validated_child, answered, ended, run_child,
}
use postgres_migration_rehea.Adapter.Faults.{Fault, Attempt, done, fault}
use postgres_migration_rehea.Adapter.Local.{Command, exited, ran_out}
use postgres_migration_rehea.Base.{
  if-cases, pos, eq_ℤ, ◌≡◌, refl, Bool, true, false, not, ◌||◌, Option, none, some, String,
}
use postgres_migration_rehea.Http.{
  Json, json_null, json_bool, json_number, json_text, json_array, json_object,
}

abbrev pub IsAnswered : (Json → Attempt Json) → Child → Type 0
IsAnswered validate c = elim c.outcome [
  | fault e ↦ Unit
  | done v ↦ (c.exit ≡ "success") × ((j : Json) × (validate j ≡ done v))
]

module _ (validate : Json → Attempt Json) where
  pub reap-IsAnswered :
      (p : Process) (exit : String) (e : Fault)
      → IsAnswered validate (reap p (record { exit = exit; outcome = fault e }))
  reap-IsAnswered p exit e =
      if-cases (IsAnswered validate) (not p.still_runs || p.heeds_sigterm) _ _ tt
        (killed-IsAnswered p.heeds_sigkill)
    where
      killed-IsAnswered :
          (b : Bool)
          → IsAnswered validate (record { exit = "signal"; outcome = killed b (fault e) })
      killed-IsAnswered true = tt
      killed-IsAnswered false = tt

  pub validated_child-IsAnswered :
      (j : Json) (o : Attempt Json) → validate j ≡ o → IsAnswered validate (validated_child o)
  validated_child-IsAnswered j (fault e) h = tt
  validated_child-IsAnswered j (done v) h = (refl, (j, h))

  pub answered-IsAnswered : (o : Option Json) → IsAnswered validate (answered validate o)
  answered-IsAnswered none = tt
  answered-IsAnswered (some (json_object ms)) =
      validated_child-IsAnswered (json_object ms) (validate (json_object ms)) refl
  answered-IsAnswered (some json_null) = tt
  answered-IsAnswered (some (json_bool b)) = tt
  answered-IsAnswered (some (json_number n)) = tt
  answered-IsAnswered (some (json_text s)) = tt
  answered-IsAnswered (some (json_array l)) = tt

  pub ended-IsAnswered :
      (p : Process) (c : Command (Option Json)) → IsAnswered validate (ended validate p c)
  ended-IsAnswered p ran_out = reap-IsAnswered p _ _
  ended-IsAnswered p (exited code output) =
      if-cases (IsAnswered validate) (eq_ℤ code (pos 0)) _ _ (answered-IsAnswered output) tt

  pub run_child-IsAnswered : (p : Process) → IsAnswered validate (run_child validate p)
  unfolding run_child
  run_child-IsAnswered p = if-cases (IsAnswered validate) (not p.spawns) _ _ tt (
      if-cases (IsAnswered validate) (not p.has_pidfd) _ _ (reap-IsAnswered p _ _)
        (ended-IsAnswered p p.communicated))
