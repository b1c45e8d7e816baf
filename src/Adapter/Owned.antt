-- ===== src/Adapter/Owned.antt =====
-- What a started runtime that passes the inspection is.
-- The only container, the only network, no volume, and a relay target that names the two.
use mathlib.Core.Path.{subst}
use postgres_migration_rehea.Adapter.Documents.{Named, check_names, gather_parts, gather}
use postgres_migration_rehea.Adapter.Faults.{◌>>=◌, ◌>>◌, require, Fault, Attempt, done, fault}
use postgres_migration_rehea.Adapter.Inspect.{
  ids_of, only_pair, observed_of, verified_as, read_documents, verify_parts, verify_documents,
  inspected_pair, started_runtime,
}
use postgres_migration_rehea.Adapter.Local.{Command, Resource}
use postgres_migration_rehea.Adapter.Lookup.{get, is_text, subscript}
use postgres_migration_rehea.Base.{
  ℤ, same_text→eq, ◌≡◌, refl, ap, Bool, true, false, Option, some, List, [], ◌∷◌, arith, String,
}
use postgres_migration_rehea.Fixtures.Runtime.{
  Address, Identity, container, identity_error, RuntimeTarget, string_of, verify_started_runtime,
  runtime_target, runtime_target-accepted,
}
use postgres_migration_rehea.Http.{
  Json, json_null, json_bool, json_number, json_text, json_array, json_object,
}

abbrev pub IsOwnedTarget : (String → Option Address) → List Resource → Attempt Json → Type 0
IsOwnedTarget parse owned (fault e) = Unit
IsOwnedTarget parse owned (done observed) =
    (c : String) × ((n : String) × ((ids_of "container" owned ≡ c ∷ [])
        × ((ids_of "network" owned ≡ n ∷ [])
            × ((ids_of "volume" owned ≡ [])
                × ((t : RuntimeTarget) × ((runtime_target parse (get observed) ≡ some t)
                      × ((t.container_id ≡ c) × (t.network_id ≡ n))))))))

step-IsOwnedTarget :
    {A : Type 0} (parse : String → Option Address) (owned : List Resource) (m : Attempt A)
    (f : A → Attempt Json)
    → ((x : A) → IsOwnedTarget parse owned (f x))
    → IsOwnedTarget parse owned (m >>= f)
step-IsOwnedTarget parse owned (done x) f h = h x
step-IsOwnedTarget parse owned (fault e) f h = tt

module _ {A : Type 0} (Q : A → Type 0) where
  -- What holds of a value that is returned.
  abbrev Holds : Attempt A → Type 0
  Holds (done x) = Q x
  Holds (fault e) = Unit

bind-Holds :
    {A B : Type 0} (Q : B → Type 0) (m : Attempt A) (f : A → Attempt B)
    → ((x : A) → m ≡ done x → Holds Q (f x))
    → Holds Q (m >>= f)
bind-Holds Q (done x) f h = h x refl
bind-Holds Q (fault e) f h = tt

require-done :
    (b : Bool) (e : Fault) (k : Attempt (Unit {0}))
    → (require b e >> k) ≡ done tt
    → (b ≡ true) × (k ≡ done tt)
require-done true e k h = (refl, h)
require-done false e k h = ground arith

bind-done :
    {A B : Type 0} (m : Attempt A) (f : A → Attempt B) (x : A) (b : B)
    → m ≡ done x
    → (m >>= f) ≡ done b
    → f x ≡ done b
bind-done m f x b e h = subst (λ o. (o >>= f) ≡ done b) e h

text-eq : (s : String) (v : Json) → is_text s v ≡ true → v ≡ json_text s
text-eq s (json_text t) h = ap json_text (same_text→eq t s h)
text-eq s json_null h = cc
text-eq s (json_bool b) h = cc
text-eq s (json_number n) h = cc
text-eq s (json_array l) h = cc
text-eq s (json_object m) h = cc

module _ (c n : String) where
  -- The documents carry the ids that were asked for.
  abbrev HasIds : Named → Type 0
  HasIds q = (q.container_id ≡ json_text c) × (q.network_id ≡ json_text n)

module _ (decimal : ℤ → String) (bind_source project : String) where
  check_names-ids :
      (c n : String) (box network x y : Json)
      → subscript box "Id" ≡ done x
      → subscript network "Id" ≡ done y
      → check_names decimal bind_source project c n box network ≡ done tt
      → (is_text c x ≡ true) × (is_text n y ≡ true)
  check_names-ids c n box network x y hx hy h =
      let first = require-done (is_text c x) _ _ (bind-done (subscript box "Id") _ x tt hx h) in
      let second =
        require-done (is_text n y) _ _ (bind-done (subscript network "Id") _ y tt hy first.1) in
      (first.0, second.0)

  gather-HasIds :
      (c n : String) (box network : Json)
      → Holds (HasIds c n) (gather decimal bind_source project c n box network)
  unfolding gather
  gather-HasIds c n box network =
      bind-Holds (HasIds c n) (check_names decimal bind_source project c n box network) _
        λ u passed.
          bind-Holds (HasIds c n) (gather_parts decimal bind_source project c box network) _
            λ parts e. bind-Holds (HasIds c n) (subscript box "Id") _ λ x hx.
              bind-Holds (HasIds c n) (subscript network "Id") _ λ y hy.
                let ids = check_names-ids c n box network x y hx hy passed in
                (text-eq c x ids.0, text-eq n y ids.1)

module _ (decimal : ℤ → String) (bind_source project : String) (parse : String → Option Address)
    (owned : List Resource) where
  verified_as-IsOwnedTarget :
      (c n : String) (q : Named) (i : Identity)
      → HasIds c n q
      → ids_of "container" owned ≡ c ∷ []
      → ids_of "network" owned ≡ n ∷ []
      → ids_of "volume" owned ≡ []
      → verify_started_runtime parse (get (observed_of decimal bind_source project q)) project ≡ i
      → IsOwnedTarget parse owned
          (verified_as decimal bind_source project (observed_of decimal bind_source project q) i)
  unfolding runtime_target
  verified_as-IsOwnedTarget c n q (identity_error message) ids hc hn hv e = tt
  verified_as-IsOwnedTarget c n q (container k) ids hc hn hv e = (
    c,
    (
      n,
      (
        hc,
        (
          hn,
          (
            hv,
            (
              _,
              (
                runtime_target-accepted parse (get (observed_of decimal bind_source project q))
                    project k e,
                (ap string_of ids.0, ap string_of ids.1),
              ),
            ),
          ),
        ),
      ),
    ),
  )

  gathered :
      (c n : String)
      → ids_of "container" owned ≡ c ∷ []
      → ids_of "network" owned ≡ n ∷ []
      → ids_of "volume" owned ≡ []
      → (m : Attempt Named) → Holds (HasIds c n) m
      → IsOwnedTarget parse owned (m >>= verify_parts decimal bind_source project parse)
  unfolding verify_started_runtime
  gathered c n hc hn hv (fault e) ids = tt
  gathered c n hc hn hv (done q) ids =
      verified_as-IsOwnedTarget c n q
        (verify_started_runtime parse (get (observed_of decimal bind_source project q)) project) ids
        hc hn hv refl

  pair-IsOwnedTarget :
      (c n : String) (inspect inspect_network : Command (Option Json))
      → ids_of "container" owned ≡ c ∷ []
      → ids_of "network" owned ≡ n ∷ []
      → ids_of "volume" owned ≡ []
      → IsOwnedTarget parse owned
          (inspected_pair decimal bind_source project parse inspect inspect_network (c, n))
  unfolding gather verify_started_runtime
  pair-IsOwnedTarget c n inspect inspect_network hc hn hv =
      step-IsOwnedTarget parse owned
        (read_documents decimal bind_source project inspect inspect_network)
        (verify_documents decimal bind_source project parse (c, n))
        λ documents.
          gathered c n hc hn hv (gather decimal bind_source project c n documents.0 documents.1)
            (gather-HasIds decimal bind_source project c n documents.0 documents.1)

  only_pair-IsOwnedTarget :
      (inspect inspect_network : Command (Option Json)) (cs ns vs : List String)
      → ids_of "container" owned ≡ cs
      → ids_of "network" owned ≡ ns
      → ids_of "volume" owned ≡ vs
      → IsOwnedTarget parse owned (
          only_pair cs ns vs
          >>= inspected_pair decimal bind_source project parse inspect inspect_network)
  unfolding gather
  only_pair-IsOwnedTarget i j [] ns vs hc hn hv = tt
  only_pair-IsOwnedTarget i j (c ∷ d ∷ cs) ns vs hc hn hv = tt
  only_pair-IsOwnedTarget i j (c ∷ []) [] vs hc hn hv = tt
  only_pair-IsOwnedTarget i j (c ∷ []) (n ∷ m ∷ ns) vs hc hn hv = tt
  only_pair-IsOwnedTarget i j (c ∷ []) (n ∷ []) (v ∷ vs) hc hn hv = tt
  only_pair-IsOwnedTarget i j (c ∷ []) (n ∷ []) [] hc hn hv = pair-IsOwnedTarget c n i j hc hn hv

  -- Whatever the two inspections say, a started runtime that passes is exactly one container and one
  -- network of the owned set, which has no volume, and the relay gets a target that is made of the ids
  -- that the two documents carry, which are these two ids.
  pub started_runtime-IsOwnedTarget :
      (inspect inspect_network : Command (Option Json))
      → IsOwnedTarget parse owned
          (started_runtime decimal bind_source project parse owned inspect inspect_network)
  unfolding started_runtime
  started_runtime-IsOwnedTarget i j =
      only_pair-IsOwnedTarget i j (ids_of "container" owned) (ids_of "network" owned)
        (ids_of "volume" owned) refl refl refl
