-- ===== src/Auth/Laws.antt =====
-- internal/middleware/auth.go: which requests are let through.
use microgate.Base.{
  ◌≡◌, ◌≢◌, ◌↔◌, refl, ap, ◌⊎◌, inl, inr, Bool, true, false, Option, none, some, List, [], ◌∷◌,
  ◌++◌, GoString, GoMap, lit, str_eq, str_eq_iff, str_eq_refl, trim_prefix, trim_prefix-append,
  append-drop_prefix, lookup, insert, lookup-insert, length, length-append, In, arith, Bool-cases,
  Option-cases,
}
use microgate.Http.{Request, Handler, get_header, http_error}
use microgate.Http.Writer.{wire_status}
use microgate.Auth.{Auth, add_keys, new_auth, is_key, is_valid, check_bearer, refusal, middleware}

longer-ne : (p s : GoString) → length p ≢ 0 → str_eq s (p ++ s) ≡ false
longer-ne p s h =
    ground (arith, str_eq_iff s (p ++ s), ap length {x = s} {y = p ++ s}, length-append p s)

trim_prefix-changed :
    (s p : GoString) → str_eq (trim_prefix s p) s ≡ false → s ≡ p ++ trim_prefix s p
unfolding trim_prefix
trim_prefix-changed s p h = ground (arith, str_eq_refl s, append-drop_prefix s p)

is_key-add_keys :
    (key : GoString) (ks : List GoString) (m : GoMap Bool)
    → (is_key key (add_keys ks m) ≡ true) ↔ (In key ks ⊎ (is_key key m ≡ true))
unfolding add_keys
is_key-add_keys key [] m = ground arith
is_key-add_keys key (k ∷ ks) m =
    ground (
      arith,
      is_key-add_keys key ks (insert k true m),
      lookup-insert k key true m,
      str_eq_iff k key,
    )

is_key-new_auth :
    (keys : List GoString) (secret key : GoString)
    → (is_key key (new_auth keys secret).api_keys ≡ true) ↔ In key keys
unfolding new_auth lookup
is_key-new_auth keys secret key = ground (arith, is_key-add_keys key keys [])

is_valid-true : (o : Option Bool) → is_valid o ≡ true → o ≡ some true
is_valid-true none e = ground arith
is_valid-true (some b) e = ap some e

module _ (jwt_parse : GoString → GoString → Option Bool) where
  -- The request carries one of the keys, or no key and a bearer token that the parser accepts.
  abbrev pub Admitted : List GoString → GoString → Request → Type 0
  Admitted keys secret r =
      let key = get_header r (lit "X-API-Key") in
      ((key ≢ []) × In key keys)
      ⊎ ((key ≡ [])
          × ((token : GoString) × (get_header r (lit "Authorization") ≡ lit "Bearer " ++ token)
              × (jwt_parse secret token ≡ some true)))

  check_bearer-none :
      (a : Auth) (header : GoString)
      → check_bearer jwt_parse a header ≡ none
      → (token : GoString) × (header ≡ lit "Bearer " ++ token)
        × (jwt_parse a.jwt_secret token ≡ some true)
  unfolding check_bearer
  check_bearer-none a header e =
      let token = trim_prefix header (lit "Bearer ") in
      let prefixed = trim_prefix-changed header (lit "Bearer ") in
      let valid = is_valid-true (jwt_parse a.jwt_secret token) in
      (token, ground (arith, prefixed), ground (arith, valid))

  check_bearer-accepts :
      (a : Auth) (token : GoString)
      → jwt_parse a.jwt_secret token ≡ some true
      → check_bearer jwt_parse a (lit "Bearer " ++ token) ≡ none
  unfolding check_bearer
  check_bearer-accepts a token ok =
      rw
        (
          trim_prefix-append (lit "Bearer ") token,
          longer-ne (lit "Bearer ") token (omega arith),
          ok,
        )
        (ground (arith, str_eq_iff (lit "Bearer " ++ token) []))

  refusal-none :
      (keys : List GoString) (secret : GoString) (r : Request)
      → refusal jwt_parse (new_auth keys secret) r ≡ none
      → Admitted keys secret r
  unfolding refusal new_auth
  refusal-none keys secret r e =
      let key = get_header r (lit "X-API-Key") in
      let header = get_header r (lit "Authorization") in
      elim (Bool-cases (str_eq key [])) [
        | inl empty ↦ inr (
          (str_eq_iff key []).0 empty,
          check_bearer-none (new_auth keys secret) header (rw empty at e),
        )
        | inr given ↦ inl (
          ground (arith, str_eq_iff key []),
          ground (arith, is_key-new_auth keys secret key, rw given at e),
        )
      ]

  refusal-Admitted :
      (keys : List GoString) (secret : GoString) (r : Request)
      → Admitted keys secret r
      → refusal jwt_parse (new_auth keys secret) r ≡ none
  unfolding refusal str_eq new_auth
  refusal-Admitted keys secret r (inl (ne, m)) =
      let key = get_header r (lit "X-API-Key") in
      ground (arith, str_eq_iff key [], is_key-new_auth keys secret key)
  refusal-Admitted keys secret r (inr (e, (token, bearer, ok))) =
      rw (e, bearer) (check_bearer-accepts (new_auth keys secret) token ok)

  -- With the given keys and secret, a request with one of the keys, or with no key and a token that the
  -- parser accepts, is answered by the next handler; any other gets status 401, and the next handler does not
  -- run: the state stays as it is.
  pub auth_lem :
      {S : Type 0} (keys : List GoString) (secret : GoString) (next : Handler S) (r : Request)
      (s : S)
      → let (calls, s') = middleware jwt_parse (new_auth keys secret) next r s in
        (Admitted keys secret r → (calls ≡ (next r s).0) × (s' ≡ (next r s).1))
        × (¬ Admitted keys secret r → (wire_status calls ≡ 401) × (s' ≡ s))
  unfolding middleware wire_status
  auth_lem keys secret next r s = elim (Option-cases (refusal jwt_parse (new_auth keys secret) r)) [
    | inl e ↦
        rw (middleware, e)
          (λ admitted. (refl, refl), λ out. absurd (out (refusal-none keys secret r e)))
    | inr (message, e) ↦
        rw (middleware, e)
          (
            λ admitted. absurd (ground (arith, refusal-Admitted keys secret r admitted)),
            λ out. (refl, refl),
          )
  ]

  -- The middleware hands the request on, or answers it by 401.
  pub middleware-cases :
      {S : Type 0} (a : Auth) (next : Handler S) (r : Request) (s : S)
      → (middleware jwt_parse a next r s ≡ next r s)
        ⊎ ((m : GoString) × (middleware jwt_parse a next r s ≡ (http_error m 401, s)))
  unfolding middleware
  middleware-cases a next r s = elim (Option-cases (refusal jwt_parse a r)) [
    | inl passes ↦ inl (rw (middleware, passes) refl)
    | inr (m, refused) ↦ inr (m, rw (middleware, refused) refl)
  ]

  pub middleware-refused :
      {S : Type 0} (keys : List GoString) (secret : GoString) (next : Handler S) (r : Request)
      (s : S)
      → ¬ Admitted keys secret r
      → (m : GoString) × (middleware jwt_parse (new_auth keys secret) next r s
          ≡ (http_error m 401, s))
  unfolding middleware
  middleware-refused keys secret next r s out =
      elim (Option-cases (refusal jwt_parse (new_auth keys secret) r)) [
        | inl passes ↦ absurd (out (refusal-none keys secret r passes))
        | inr (m, refused) ↦ (m, rw (middleware, refused) refl)
      ]

  -- The middleware hands an admitted request on, and answers any other by 401.
  pub middleware-split :
      {S : Type 0} (keys : List GoString) (secret : GoString) (next : Handler S) (r : Request)
      (s : S)
      → let out = middleware jwt_parse (new_auth keys secret) next r s in
        (Admitted keys secret r × (out ≡ next r s))
        ⊎ ((¬ Admitted keys secret r) × ((m : GoString) × (out ≡ (http_error m 401, s))))
  unfolding middleware
  middleware-split keys secret next r s =
      elim (Option-cases (refusal jwt_parse (new_auth keys secret) r)) [
        | inl e ↦ inl (refusal-none keys secret r e, rw (middleware, e) refl)
        | inr (m, e) ↦ inr (
          λ admitted. ground (arith, refusal-Admitted keys secret r admitted),
          (m, rw (middleware, e) refl),
        )
      ]
