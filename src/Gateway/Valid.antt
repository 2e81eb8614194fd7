-- ===== src/Gateway/Valid.antt =====
-- cmd/gateway/main.go: what holds of the gateway's state at any time.
use microgate.Base.{◌≤◌, length, List}
use microgate.Http.{Call}
use microgate.Dashboard.Api.Processes.Valid as Api
use microgate.Gateway.{Gateway}

-- The process manager is one that its operations can make, the broker is safe, and no more than 256 logs and 256
-- traffic events wait.
abbrev pub IsValid : {F : Type 0} → Gateway F → Type 0
IsValid s = Api.IsValid s.api × (length s.pending ≤ 256) × (length s.traffic.events ≤ 256)

unfoldable pub Leaves : {F : Type 0} → List Call × Gateway F → Type 0
Leaves out = IsValid out.1
