-- ===== src/Auth.antt =====
-- internal/middleware/auth.go. `jwt_parse secret token` stands for `jwt.Parse` of golang-jwt with the
-- secret as the key: no value is its error, else it is the token's `Valid` field.
pub mod Laws
mod Tests
use microgate.Base.{
  ℕ, zero, suc, ◌≡◌, ◌≢◌, ◌∙◌, refl, sym, ap, ◌⊎◌, inl, inr, Bool, true, false, Option, none, some,
  List, [], ◌∷◌, ◌++◌, if◌then◌else◌, GoString, GoMap, lit, str_eq, str_eq_iff, trim_prefix,
  has_prefix, lookup, insert, lookup-insert, In, arith, Bool-cases,
}
use microgate.Http.{Request, Call, Handler, Middleware, http_error, get_header}
use microgate.Http.Writer.{wire_status}

pub record Auth : Type 0 where
  pub api_keys : GoMap Bool
  pub jwt_secret : GoString

add_keys : List GoString → GoMap Bool → GoMap Bool
add_keys [] m = m
add_keys (k ∷ ks) m = add_keys ks (insert k true m)

unfoldable pub new_auth : List GoString → GoString → Auth
unfolding add_keys
new_auth api_keys jwt_secret = record { api_keys = add_keys api_keys []; jwt_secret = jwt_secret }

-- `a.apiKeys[key]`
abbrev is_key : GoString → GoMap Bool → Bool
is_key key m = elim (lookup key m) [ none ↦ false | some b ↦ b ]

-- `err == nil && token.Valid`
abbrev is_valid : Option Bool → Bool
is_valid none = false
is_valid (some valid) = valid

module _ (jwt_parse : GoString → GoString → Option Bool) where
  -- What is wrong with the Authorization header, if anything is.
  check_bearer : Auth → GoString → Option GoString
  check_bearer a header =
      let token = trim_prefix header (lit "Bearer ") in
      if str_eq header []
      then some (lit "Unauthorized")
      else if str_eq token header
      then some (lit "Invalid Authorization Header")
      else if is_valid (jwt_parse a.jwt_secret token)
      then none
      else some (lit "Invalid Token")

  -- The message of the refusal, if there is one. An API key, even a wrong one, is looked at alone.
  refusal : Auth → Request → Option GoString
  unfolding check_bearer
  refusal a r =
      let key = get_header r (lit "X-API-Key") in
      let invalid = if is_key key a.api_keys then none else some (lit "Invalid API Key") in
      let bearer = check_bearer a (get_header r (lit "Authorization")) in
      if str_eq key [] then bearer else invalid

  unfoldable pub middleware : {S : Type 0} → Auth → Middleware S
  unfolding refusal
  middleware a next r s = elim (refusal a r) [
    | none ↦ next r s
    | some message ↦ (http_error message 401, s)
  ]
