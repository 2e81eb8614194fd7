-- ===== src/Capture.antt =====
-- internal/middleware/capture.go: the middleware that keeps request logs. The channel of logs is the list of
-- what waits in it, oldest first; `work` is one round of the goroutine that drains it.
pub mod Laws
mod Tests
use microgate.Base.{ℕ, ◌-◌, List, [], ◌∷◌, ◌++◌, if◌then◌else◌, ltb, lit, length}
use microgate.Http.{aborts, Request, Call, Handler, Middleware, Cell}
use microgate.Http.Writer.{capture_all, fresh_capture, captured_status, header_after}
use microgate.Dashboard.LogStore.{RequestLog, LogStore, add}
use microgate.Traffic.{client_ip, get_request_id}

-- The goroutine's channel, and the store that it shares with the dashboard.
pub record Capture : Type 0 where
  pub logs : List RequestLog
  pub store : LogStore

unfoldable pub new_capture : LogStore → Capture
new_capture store = record { logs = []; store = store }

-- The log of a request that was answered by the given calls, between the two instants.
unfoldable pub log_of : Request → List Call → ℕ → ℕ → RequestLog
log_of r calls start end = record {
  id = get_request_id r;
  timestamp = start;
  method = r.method;
  path = r.path;
  status = captured_status calls;
  latency = end - start;
  client_ip = client_ip r;
  bytes_in = r.content_length;
  bytes_out = (capture_all fresh_capture calls).0.bytes_written;
  backend = header_after calls (lit "X-Proxy-Backend") [];
  error = [];
}

-- The send that drops the log if the channel is full.
unfoldable pub offer : Capture → RequestLog → Capture
offer c log = if ltb (length c.logs) 256 then record c { logs = c.logs ++ (log ∷ []) } else c

work_from : Capture → List RequestLog → Capture × List RequestLog
work_from c [] = (c, [])
work_from c (log ∷ rest) =
    let (store, fired) = add c.store log in (record { logs = rest; store = store }, fired)

-- The new state, and what the hook of the store is called with.
unfoldable pub work : Capture → Capture × List RequestLog
unfolding work_from
work c = work_from c c.logs

unfoldable pub middleware : {S : Type 0} → Cell S Capture → (S → ℕ) → Middleware S
middleware capture clock next r s =
    let (calls, s') = next r s in
    let log = log_of r calls (clock s) (clock s') in
    let sent = (capture_all fresh_capture calls).1 in
    if aborts calls then (sent, s') else (sent, capture.put (offer (capture.get s') log) s')
