-- ===== src/Http.antt =====
-- net/http as the middleware uses it. A handler's effect on its ResponseWriter is the list of the
-- calls that it makes; the state of the gateway is passed through. internal/middleware/chain.go.
pub mod Writer
pub mod Address
pub mod Chain
mod Tests
use microgate.Base.{
  ℕ, Option, List, [], ◌∷◌, ◌++◌, GoString, GoMap, Bool, true, false, lit, lookup, none, some,
}
use microgate.Base.Int.{ℤ}

-- `request_id` is the context value under `requestIDKey`.
pub record Request : Type 0 where
  pub method : GoString
  pub path : GoString
  pub host : GoString
  pub header : GoMap GoString
  pub query : GoMap GoString
  pub remote_addr : GoString
  pub content_length : ℤ
  pub request_id : Option GoString

-- A call on the ResponseWriter: `Header().Set(k, v)`, `WriteHeader(code)`, `Write(bytes)`. `abort` is none: it is
-- `panic(http.ErrAbortHandler)`, with which the reverse proxy ends a handler.
pub data Call : Type 0 where
  set_header : GoString → GoString → Call
  write_header : ℕ → Call
  write : GoString → Call
  abort : Call

-- The handler panicked: no code runs that stands behind a call of it.
unfoldable pub aborts : List Call → Bool
aborts [] = false
aborts (abort ∷ cs) = true
aborts (set_header k v ∷ cs) = aborts cs
aborts (write_header c ∷ cs) = aborts cs
aborts (write b ∷ cs) = aborts cs

abbrev pub Handler : Type 0 → Type 0
Handler S = Request → S → List Call × S

abbrev pub Middleware : Type 0 → Type 0
Middleware S = Handler S → Handler S

-- A variable that a closure captures: a place in the gateway's state.
pub record Cell (S T : Type 0) : Type 0 where
  pub get : S → T
  pub put : T → S → S

-- `http.Error(w, message, code)`.
abbrev pub http_error : GoString → ℕ → List Call
http_error message code =
    set_header (lit "Content-Type") (lit "text/plain; charset=utf-8")
    ∷ set_header (lit "X-Content-Type-Options") (lit "nosniff")
    ∷ write_header code
    ∷ write (message ++ (10 ∷ []))
    ∷ []

abbrev pub value_or_empty : Option GoString → GoString
value_or_empty none = []
value_or_empty (some v) = v

-- `r.Header.Get(key)`, for keys in their canonical spelling.
unfoldable pub get_header : Request → GoString → GoString
get_header r key = value_or_empty (lookup key r.header)
