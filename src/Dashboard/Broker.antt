-- ===== src/Dashboard/Broker.antt =====
-- internal/dashboard/sse.go: the broker of server-sent events. A channel is a place in the heap
-- `channels`, and `none` is a panic: a send on a closed channel, or closing one twice. Each case of the
-- loop in `start` is one step; the unbuffered sends of `Subscribe` and `Unsubscribe` are one with it.
pub mod Clients
pub mod Laws
pub mod Delivery
pub mod Frames
mod Tests
use microgate.Base.{
  ℕ, zero, suc, ◌+◌, Bool, true, false, not, Option, none, some, List, [], ◌∷◌, ◌++◌, if◌then◌else◌,
  ltb, ◌==◌, GoString, lit, length, get_elem?, set, keep,
}
use microgate.Http.{Call, set_header, write, http_error}

pub record Event : Type 0 where
  pub type : GoString
  pub json : GoString

pub record Channel : Type 0 where
  pub buffer : List Event
  pub closed : Bool

-- `broadcast` is what waits in the channel of that name, oldest first.
pub record Broker : Type 0 where
  pub channels : List Channel
  pub clients : List ℕ
  pub broadcast : List Event

unfoldable pub new_broker : Broker
new_broker = record { channels = []; clients = []; broadcast = [] }

abbrev pub fresh_channel : Channel
fresh_channel = record { buffer = []; closed = false }

abbrev pub is_client : ℕ → List ℕ → Bool
is_client ch [] = false
is_client ch (c ∷ cs) = if c == ch then true else is_client ch cs

-- The new channel is the last of the heap.
unfoldable pub subscribe : Broker → Broker
subscribe b = record b {
  channels = b.channels ++ (fresh_channel ∷ []);
  clients = length b.channels ∷ b.clients;
}

-- `close(ch)`
close : List Channel → ℕ → Option (List Channel)
close chans ch = elim (get_elem? chans ch) [
  | none ↦ none
  | some c ↦ if c.closed then none else some (set chans ch (record c { closed = true }))
]

unfoldable pub unsubscribe : Broker → ℕ → Option Broker
unfolding close
unsubscribe b ch =
    if is_client ch b.clients
    then elim (close b.channels ch) [
      | none ↦ none
      | some chans ↦
          some (record b { channels = chans; clients = keep (λ c. not (c == ch)) b.clients })
    ]
    else some b

-- The send that a full buffer drops.
abbrev pub offer : Channel → Event → Channel
offer c e = if ltb (length c.buffer) 256 then record c { buffer = c.buffer ++ (e ∷ []) } else c

unfoldable pub send_all : Event → List ℕ → List Channel → Option (List Channel)
send_all e [] chans = some chans
send_all e (ch ∷ chs) chans = elim (get_elem? chans ch) [
  | none ↦ none
  | some c ↦ if c.closed then none else send_all e chs (set chans ch (offer c e))
]

abbrev pub delivered : Broker → List Event → Option (List Channel) → Option Broker
delivered b rest none = none
delivered b rest (some chans) = some (record b { channels = chans; broadcast = rest })

deliver_from : Broker → List Event → Option Broker
deliver_from b [] = some b
deliver_from b (e ∷ rest) = delivered b rest (send_all e b.clients b.channels)

-- The loop takes an event; it waits if there is none.
unfoldable pub deliver : Broker → Option Broker
unfolding deliver_from
deliver b = deliver_from b b.broadcast

-- The send on the channel `broadcast`, which has room.
abbrev queued : Broker → Event → Broker
queued b e = record b { broadcast = b.broadcast ++ (e ∷ []) }

-- A sender that waits for the loop goes on when a round of the loop has made room. (A panic of that round ends the
-- program, whatever the sender does.)
send_after : Option Broker → Broker → Event → Broker
send_after none b e = b
send_after (some b') b e = queued b' e

-- `Broadcast`, for a payload that is encoded: where the channel is full, one step with the round it waits for.
unfoldable pub send : Broker → Event → Broker
unfolding send_after
send b e = if ltb (length b.broadcast) 256 then queued b e else send_after (deliver b) b e

take_from : Channel → List Event → Channel × List Event
take_from c [] = (c, if c.closed then record { type = []; json = [] } ∷ [] else [])
take_from c (e ∷ rest) = (record c { buffer = rest }, e ∷ [])

-- `event := <-ch`: what is received, nothing while the receiver waits.
pub received_at : Broker → ℕ → Option Channel → Broker × List Event
unfolding take_from
received_at b ch none = (b, [])
received_at b ch (some c) =
    let (c', out) = take_from c c.buffer in (record b { channels = set b.channels ch c' }, out)

unfoldable pub receive : Broker → ℕ → Broker × List Event
unfolding received_at
receive b ch = received_at b ch (get_elem? b.channels ch)

abbrev newline : GoString
newline = 10 ∷ []

-- `event: %s\ndata: %s\n\n`
unfoldable pub frame : Event → GoString
frame e =
    lit "event: " ++ (e.type ++ (newline ++ (lit "data: " ++ (e.json ++ (newline ++ newline)))))

abbrev pub connected : Event
connected = record { type = lit "connected"; json = lit "{}" }

frames : List Event → List Call
frames [] = []
frames (e ∷ es) = write (frame e) ∷ frames es

-- What a connection makes of its ResponseWriter until it ends, for the events that it receives.
unfoldable pub stream_handler : Bool → List Event → List Call
unfolding frames
stream_handler is_flusher received =
    set_header (lit "Content-Type") (lit "text/event-stream")
    ∷ set_header (lit "Cache-Control") (lit "no-cache")
    ∷ set_header (lit "Connection") (lit "keep-alive")
    ∷ set_header (lit "Access-Control-Allow-Origin") (lit "*")
    ∷ (if is_flusher
        then write (frame connected) ∷ frames received
        else http_error (lit "Streaming unsupported") 500)
