-- ===== src/Dashboard/Broker/Tests.antt =====
-- Runs of internal/dashboard/sse.go at concrete inputs.
use microgate.Base.{◌≡◌, refl, true, some, List, [], ◌∷◌, lit, get_elem?, arith}
use microgate.Dashboard.Broker.{Event, Broker, new_broker, fresh_channel, connected, stream_handler}
use microgate.Dashboard.Broker.Laws.{
  IsSafe, Action, subscribes, unsubscribes, sends, delivers, receives, run, run_lem,
}
use microgate.Dashboard.Broker.Delivery.{rounds, rounds_lem}
use microgate.Dashboard.Broker.Frames.{parse_stream, body, stream_handler_lem}

abbrev event : Event
event = record { type = lit "log"; json = lit "{}" }

abbrev second_event : Event
second_event = record { type = lit "process"; json = lit "[1]" }

abbrev actions : List Action
actions =
    subscribes
    ∷ subscribes
    ∷ sends event
    ∷ delivers
    ∷ unsubscribes 0
    ∷ sends second_event
    ∷ delivers
    ∷ receives 0
    ∷ unsubscribes 0
    ∷ receives 1
    ∷ []

run_lem_example : (b : Broker) × (run actions new_broker ≡ some b) × IsSafe b
run_lem_example = run_lem actions

abbrev one_client : Broker
one_client = record {
  channels = fresh_channel ∷ [];
  clients = 0 ∷ [];
  broadcast = event ∷ second_event ∷ [];
}

rounds_lem_example :
    (b' : Broker) × (rounds 2 one_client ≡ some b')
    × (b'.broadcast ≡ [])
    × (get_elem? b'.channels 0 ≡ some (record fresh_channel { buffer = event ∷ second_event ∷ [] }))
rounds_lem_example =
    rounds_lem one_client 0 fresh_channel
      (record {
        open_clients = ((fresh_channel, refl, refl, omega arith), refl, tt);
        bounded = omega arith;
      })
      refl refl (omega arith)

stream_handler_lem_example :
    parse_stream (body (stream_handler true (event ∷ second_event ∷ [])))
    ≡ connected ∷ event ∷ second_event ∷ []
stream_handler_lem_example =
    stream_handler_lem (event ∷ second_event ∷ [])
      (ground arith, refl, refl, (ground arith, refl, refl, tt))
