-- ===== src/Tests/Service.antt =====
-- The HTTP service on small requests.
use postgres_migration_rehea.Base.{
  if◌then◌else◌, same_text, ℕ, ◌≡◌, refl, true, false, none, some, List, [], ◌∷◌, String,
}
use postgres_migration_rehea.Http.{
  Loaded, loaded, completed, Request, int, do_get, not_allowed, Runner, delivered,
  client_disconnected, Transport, escaped, post_length, do_post, Header, json_text, json_object,
  no_members, member,
}
use postgres_migration_rehea.Http.Admission.{
  Service, started, connect, acquire_slot, serve, IsConsistent, serve-IsConsistent,
}
use postgres_migration_rehea.Http.Answers.{do_get-answers}
use postgres_migration_rehea.Http.Safety.{
  runs, answers, slot_after, all_runnable, do_post-slot, do_post-runs, do_post-foreign,
}

abbrev header : String → Header
header v = record { value = v; codes = [] }

-- The headers of the page's own request, with a body of 28 bytes.
abbrev page_headers : String → List Header
page_headers name =
    if same_text name "Host"
    then header "127.0.0.1:8765" ∷ []
    else if same_text name "Origin"
    then header "http://127.0.0.1:8765" ∷ []
    else if same_text name "Content-Type"
    then header "application/json" ∷ []
    else if same_text name "Content-Length"
    then record { value = "28"; codes = 50 ∷ 56 ∷ [] } ∷ []
    else []

abbrev post_request : Request
post_request = record { path = "/api/v1/rehearsals"; get_all = page_headers; read = λ n. some [] }

-- The same request from another site.
abbrev foreign_request : Request
foreign_request = record {
  path = "/api/v1/rehearsals";
  get_all =
      λ name. if same_text name "Origin" then header "http://example" ∷ [] else page_headers name;
  read = λ n. some [];
}

-- A connection that takes the reply, and one that is gone while the record of that raises.
abbrev takes : Transport
takes = record { write = delivered; records = true }

abbrev breaks : Transport
breaks = record { write = client_disconnected; records = false }

abbrev succeeds : String → Runner ℕ
succeeds s = completed 1 (some "0123456789abcdef")

abbrev small_shop : List ℕ → Loaded
small_shop raw = loaded (json_object (member "scenario_id" (json_text "small-shop") no_members))

runs-small_shop :
    runs (do_post succeeds small_shop "127.0.0.1:8765" true takes post_request) ≡ "small-shop" ∷ []
unfolding do_post
runs-small_shop = refl

-- A superscript two in Content-Length passes `isdigit`, and `int` raises.
post_length-superscript :
    post_length succeeds small_shop true takes (λ n. some []) (int (178 ∷ [])) ≡ escaped ∷ []
post_length-superscript = refl

-- A body that does not come gets no answer.
post_length-silent : post_length succeeds small_shop true takes (λ n. none) (some 28) ≡ escaped ∷ []
post_length-silent = refl

do_post-slot_example :
    slot_after true (do_post succeeds small_shop "127.0.0.1:8765" true breaks post_request)
    ≡ some true
do_post-slot_example = do_post-slot succeeds small_shop "127.0.0.1:8765" true breaks post_request

do_post-runs_example :
    all_runnable true (runs (do_post succeeds small_shop "127.0.0.1:8765" true takes post_request))
    ≡ true
do_post-runs_example = do_post-runs succeeds small_shop "127.0.0.1:8765" true takes post_request

do_post-foreign_example :
    runs (do_post succeeds small_shop "127.0.0.1:8765" true takes foreign_request) ≡ []
do_post-foreign_example =
    do_post-foreign succeeds small_shop "127.0.0.1:8765" true takes foreign_request refl

-- Two handlers, one of them in the run slot.
abbrev two_handlers : Service
two_handlers = record { permits = 6; handling = 1; running = 1; slot_free = false }

serve-IsConsistent_example : IsConsistent two_handlers
unfolding serve
serve-IsConsistent_example =
    serve-IsConsistent (connect ∷ connect ∷ acquire_slot ∷ acquire_slot ∷ []) started two_handlers
      (refl, refl) refl

do_get-answers_example :
    (answers (do_get {A = ℕ} "127.0.0.1:8765" false post_request) ≡ 1)
    × (answers (not_allowed {A = ℕ} "127.0.0.1:8765" post_request) ≡ 1)
do_get-answers_example = do_get-answers ℕ "127.0.0.1:8765" false post_request
