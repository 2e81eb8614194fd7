-- ===== src/Traffic/Tests.antt =====
-- Runs of internal/middleware/traffic.go at concrete inputs.
use microgate.Traffic.Ids.{generate_id, bytes_of, generate_id_lem}
use microgate.Base.{refl, ◌≡◌, ◌++◌, ◌≤◌, List, [], ◌∷◌, lit, GoString, length, arith}
use microgate.Base.Int.{pos}
use microgate.Analytics.Store.{TrafficEvent, MemoryTrafficStore, new_memory_traffic_store}
use microgate.Traffic.{TrafficRecorder, new_traffic_recorder, normalize_route}
use microgate.Traffic.Laws.{Normal, normalize_route_lem}
use microgate.Traffic.Pipeline.{Action, offers, works, run, accepted, record_all, pipeline_lem}

abbrev prefixes : List GoString
prefixes = lit "/api" ∷ lit "/api/v1" ∷ []

abbrev store : MemoryTrafficStore
store = new_memory_traffic_store 0

abbrev recorder : TrafficRecorder
recorder = new_traffic_recorder store prefixes

normalize_route_lem_example :
    Normal (lit "/api/v1/x") prefixes (normalize_route recorder (lit "/api/v1/x"))
normalize_route_lem_example = normalize_route_lem store prefixes (lit "/api/v1/x")

abbrev event : TrafficEvent
event = record {
  route = lit "/api";
  backend = [];
  status = 200;
  latency = 5;
  bytes_in = pos 10;
  bytes_out = 20;
  client_ip = [];
  timestamp = 7;
}

abbrev actions : List Action
actions = works ∷ offers event ∷ offers event ∷ works ∷ []

pipeline_lem_example :
    (record_all (run actions recorder).store (run actions recorder).events
      ≡ record_all recorder.store (recorder.events ++ accepted actions recorder))
    × (length (run actions recorder).events ≤ 256)
unfolding new_traffic_recorder
pipeline_lem_example = pipeline_lem actions recorder (omega arith)

printed_id : generate_id 161 178 195 212 ≡ lit "a1b2c3d4"
unfolding generate_id
printed_id = refl

id_read_back :
    (length (generate_id 0 1 2 255) ≡ 8) × (bytes_of (generate_id 0 1 2 255) ≡ 0 ∷ 1 ∷ 2 ∷ 255 ∷ [])
id_read_back = generate_id_lem 0 1 2 255 (omega arith) (omega arith) (omega arith) (omega arith)
