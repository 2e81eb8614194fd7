-- ===== src/TestBackend.antt =====
-- cmd/testbackend/main.go: the backend that the gateway is tried with. `encode` is the JSON encoder, with the line
-- end that it writes.
use microgate.Base.Int.{ℤ}
use microgate.Base.{[], ◌∷◌, List, GoString, lit}
use microgate.Http.{Request, Call, set_header, write}

pub record Answer : Type 0 where
  pub message : GoString
  pub port : ℤ
  pub path : GoString

unfoldable pub handler : (Answer → GoString) → ℤ → Request → List Call
handler encode port r =
    set_header (lit "Content-Type") (lit "application/json")
    ∷ write (encode (record { message = lit "Hello from backend"; port = port; path = r.path }))
    ∷ []
