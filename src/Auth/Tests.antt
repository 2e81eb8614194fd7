-- ===== src/Auth/Tests.antt =====
-- Runs of internal/middleware/auth.go at concrete inputs.
use microgate.Base.{
  ℕ, suc, ◌≡◌, refl, Bool, true, Option, none, some, [], ◌∷◌, GoString, lit, str_eq, lookup, insert,
  if◌then◌else◌, trim_prefix,
}
use microgate.Base.Int.{pos}
use microgate.Http.{Request, Handler, write, get_header}
use microgate.Http.Writer.{wire_status}
use microgate.Auth.{new_auth, middleware}
use microgate.Auth.Laws.{Admitted, auth_lem}

-- A parser that accepts the secret itself as a token.
abbrev parser : GoString → GoString → Option Bool
parser secret token = if str_eq secret token then some true else none

abbrev request : Request
request = record {
  method = lit "GET";
  path = lit "/";
  header = (lit "Authorization", lit "Bearer key") ∷ [];
  query = [];
  remote_addr = [];
  content_length = pos 0;
  host = lit "localhost";
  request_id = none;
}

abbrev counter : Handler ℕ
counter r s = (write (lit "ok") ∷ [], suc s)

passes : (middleware parser (new_auth [] (lit "key")) counter request 3).1 ≡ 4
unfolding middleware new_auth get_header lookup str_eq trim_prefix
passes = refl

wrong_key :
    (middleware parser
      (new_auth (lit "a" ∷ []) (lit "key"))
      counter
      (record request { header = (lit "X-API-Key", lit "b") ∷ request.header })
      3).1
    ≡ 3
unfolding middleware new_auth get_header lookup str_eq insert
wrong_key = refl

auth_lem_example :
    let (calls, s') = middleware parser (new_auth (lit "a" ∷ []) (lit "key")) counter request 3 in
    (Admitted parser (lit "a" ∷ []) (lit "key") request
      → (calls ≡ (counter request 3).0) × (s' ≡ (counter request 3).1))
    × (¬ Admitted parser (lit "a" ∷ []) (lit "key") request → (wire_status calls ≡ 401) × (s' ≡ 3))
auth_lem_example = auth_lem parser (lit "a" ∷ []) (lit "key") counter request 3
