-- ===== src/Http/Requests.antt =====
-- A request as BaseHTTPRequestHandler parsed it, and the tests of `_request_safe` and `do_POST`.
-- `get_all` is `headers.get_all(name, failobj=[])`; `read n` is what
-- `rfile.read(n)` gives, `none` a timeout or another error of the connection.
use postgres_migration_rehea.Base.{
  leb, ◌==◌, if◌then◌else◌, length, same_text, ℕ, ◌+◌, ◌-◌, ◌*◌, Bool, true, false, ◌&&◌, ◌||◌,
  Option, none, some, List, [], ◌∷◌, map, String,
}
use postgres_migration_rehea.Http.Messages.{
  Header, Json, json_text, json_object, no_members, member,
}

pub record Request : Type 0 where
  pub path : String
  pub get_all : String → List Header
  pub read : ℕ → Option (List ℕ)

abbrev values : List Header → List String
values = map (λ h. h.value)

-- `self._critical(name) == [expected]`
abbrev pub is_exactly : List Header → String → Bool
is_exactly (h ∷ []) expected = same_text h.value expected
is_exactly _ expected = false

abbrev pub is_absent : List Header → Bool
is_absent [] = true
is_absent (_ ∷ _) = false

-- `sites not in ([], ["same-origin"])`
abbrev pub same_site : List Header → Bool
same_site [] = true
same_site (h ∷ []) = same_text h.value "same-origin"
same_site (_ ∷ _ ∷ _) = false

-- The characters of a header are Latin-1. `str.isdigit` holds of the ASCII digits and of the
-- superscripts 1, 2 and 3; `int` reads the ASCII digits alone, and at most 4300 of them.
abbrev is_ascii_digit : ℕ → Bool
is_ascii_digit c = leb 48 c && leb c 57

abbrev is_digit_code : ℕ → Bool
is_digit_code c = is_ascii_digit c || (c == 178 || (c == 179 || c == 185))

abbrev all_codes : (ℕ → Bool) → List ℕ → Bool
all_codes p [] = true
all_codes p (c ∷ cs) = p c && all_codes p cs

abbrev isdigit : List ℕ → Bool
isdigit [] = false
isdigit (c ∷ cs) = all_codes is_digit_code (c ∷ cs)

abbrev decimal : ℕ → List ℕ → ℕ
decimal n [] = n
decimal n (c ∷ cs) = decimal (n * 10 + (c - 48)) cs

-- `int(text)` on a text of digits; `none` is its ValueError.
abbrev pub int : List ℕ → Option ℕ
int cs = if all_codes is_ascii_digit cs && leb (length cs) 4300 then some (decimal 0 cs) else none

-- `len(lengths) != 1 or not lengths[0].isdigit()`
abbrev pub length_codes : List Header → Option (List ℕ)
length_codes (h ∷ []) = if isdigit h.codes then some h.codes else none
length_codes _ = none

-- The value of `scenario_id` in an object with that key alone.
abbrev pub scenario_of : Json → Option String
scenario_of (json_object (member k (json_text s) no_members)) =
    if same_text k "scenario_id" then some s else none
scenario_of _ = none
