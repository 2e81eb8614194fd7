-- ===== src/Dashboard/Broker/Laws.antt =====
-- internal/dashboard/sse.go: the broker never sends on a closed channel and closes none twice.
use mathlib.Core.Path.{subst}
use microgate.Base.{
  suc, ℕ, ◌≤◌, ◌≡◌, ◌∙◌, refl, ap, inl, inr, true, Option, none, some, List, [], ◌∷◌, ◌++◌, ltb,
  length, length-append, get_elem?, set, get_elem?-append, get_elem?-length, arith, Bool-cases,
}
use microgate.Dashboard.Broker.{
  Event, Channel, Broker, new_broker, fresh_channel, is_client, subscribe, close, unsubscribe, send,
  send_after, queued, send_all, delivered, deliver_from, deliver, take_from, received_at, receive,
}
use microgate.Dashboard.Broker.Clients.{
  get_elem?-lt, AllOpen-map, is_client-fresh, others, is_client-others, AllOpen-others,
  client-IsOpen, IsOpen-set_ne, send_all-some, received_at-IsOpen, AllOpen,
}

pub record IsSafe (b : Broker) : Type 0 where
  pub open_clients : AllOpen b.channels b.clients
  pub bounded : length b.broadcast ≤ 256

pub subscribe-IsSafe : (b : Broker) → IsSafe b → IsSafe (subscribe b)
unfolding subscribe
subscribe-IsSafe b s =
    let chans = b.channels in
    let grown = chans ++ (fresh_channel ∷ []) in
    record {
      open_clients = (
        (fresh_channel, get_elem?-length chans fresh_channel, refl, omega arith),
        is_client-fresh chans b.clients (length chans) s.open_clients (omega arith),
        AllOpen-map chans grown b.clients
            (λ i m (c, e, o, r). (
              c,
              get_elem?-append chans (fresh_channel ∷ []) i (get_elem?-lt chans i c e) ∙ e,
              o,
              r,
            ))
            s.open_clients,
      );
      bounded = s.bounded;
    }

pub unsubscribe-IsSafe :
    (b : Broker) (ch : ℕ) → IsSafe b → (b' : Broker) × (unsubscribe b ch ≡ some b') × IsSafe b'
unfolding unsubscribe close
unsubscribe-IsSafe b ch s = elim (Bool-cases (is_client ch b.clients)) [
  | inr gone ↦ (b, rw (unsubscribe, gone) refl, s)
  | inl there ↦
      let (c, e, o, r) = client-IsOpen b.channels b.clients ch s.open_clients there in
      let shut = set b.channels ch (record c { closed = true }) in
      let b' = record b { channels = shut; clients = others ch b.clients } in
      (
        b',
        rw (unsubscribe, there, close, e, o) refl,
        record {
          open_clients =
              AllOpen-map b.channels shut (others ch b.clients)
                (λ i m.
                  IsOpen-set_ne b.channels ch i _ (ground (arith, is_client-others i ch b.clients)))
                (AllOpen-others b.channels ch b.clients s.open_clients);
          bounded = s.bounded;
        },
      )
]

-- A round with an event to take.
pub deliver-cons :
    (b : Broker) (e : Event) (rest : List Event)
    → b.broadcast ≡ e ∷ rest
    → IsSafe b
    → (chans' : List Channel) × (send_all e b.clients b.channels ≡ some chans')
      × (deliver b ≡ some (record b { channels = chans'; broadcast = rest }))
      × IsSafe (record b { channels = chans'; broadcast = rest })
unfolding deliver deliver_from
deliver-cons b e rest waits s =
    let (chans', sent, keeps) = send_all-some e b.clients b.channels s.open_clients in
    let le : length (e ∷ rest) ≤ 256 = subst (λ l. length l ≤ 256) waits s.bounded in
    (
      chans',
      sent,
      ap (deliver_from b) waits ∙ ap (delivered b rest) sent,
      record {
        open_clients = AllOpen-map b.channels chans' b.clients (λ j m. keeps j) s.open_clients;
        bounded = omega arith;
      },
    )

pub deliver_at-IsSafe :
    (b : Broker) (waiting : List Event)
    → b.broadcast ≡ waiting
    → IsSafe b
    → (b' : Broker) × (deliver b ≡ some b') × IsSafe b'
unfolding deliver deliver_from
deliver_at-IsSafe b [] waits s = (b, ap (deliver_from b) waits, s)
deliver_at-IsSafe b (e ∷ rest) waits s =
    let (chans', _, ran, s') = deliver-cons b e rest waits s in
    (record b { channels = chans'; broadcast = rest }, ran, s')

-- A round of the loop makes room, if the channel is full.
deliver-room :
    (b : Broker) (waiting : List Event)
    → b.broadcast ≡ waiting
    → IsSafe b
    → 256 ≤ length b.broadcast
    → (b' : Broker) × (deliver b ≡ some b') × IsSafe b' × (suc (length b'.broadcast) ≤ 256)
deliver-room b [] waits s full =
    let none_there : length b.broadcast ≡ 0 = ap length waits in ground arith
deliver-room b (e ∷ rest) waits s full =
    let (chans', _, ran, s') = deliver-cons b e rest waits s in
    let le : length (e ∷ rest) ≤ 256 = subst (λ l. length l ≤ 256) waits s.bounded in
    (record b { channels = chans'; broadcast = rest }, ran, s', omega arith)

queued-IsSafe :
    (b : Broker) (e : Event) → IsSafe b → suc (length b.broadcast) ≤ 256 → IsSafe (queued b e)
queued-IsSafe b e s room = record {
  open_clients = s.open_clients;
  bounded = ground (arith, length-append b.broadcast (e ∷ []));
}

pub send-IsSafe : (b : Broker) (e : Event) → IsSafe b → IsSafe (send b e)
unfolding send send_after
send-IsSafe b e s = elim (Bool-cases (ltb (length b.broadcast) 256)) [
  | inl room ↦ rw room (queued-IsSafe b e s (ground arith))
  | inr full ↦
      let (b', ran, s', room) = deliver-room b b.broadcast refl s (ground arith) in
      rw (send, full, ran) (queued-IsSafe b' e s' room)
]

received_at-IsSafe :
    (b : Broker) (ch : ℕ) (o : Option Channel)
    → get_elem? b.channels ch ≡ o
    → IsSafe b
    → IsSafe (received_at b ch o).0
unfolding received_at
received_at-IsSafe b ch none found s = s
received_at-IsSafe b ch (some c) found s = record {
  open_clients =
      AllOpen-map b.channels (set b.channels ch (take_from c c.buffer).0) b.clients
        (λ j m. received_at-IsOpen b ch j (some c) found) s.open_clients;
  bounded = s.bounded;
}

pub receive-IsSafe : (b : Broker) (ch : ℕ) → IsSafe b → IsSafe (receive b ch).0
unfolding receive
receive-IsSafe b ch s = received_at-IsSafe b ch (get_elem? b.channels ch) refl s

-- What goroutines do to a broker, one after another.
pub data Action : Type 0 where
  subscribes : Action
  unsubscribes : ℕ → Action
  sends : Event → Action
  delivers : Action
  receives : ℕ → Action

-- `none` is a panic.
unfoldable pub act : Broker → Action → Option Broker
act b subscribes = some (subscribe b)
act b (unsubscribes ch) = unsubscribe b ch
act b (sends e) = some (send b e)
act b delivers = deliver b
act b (receives ch) = some (receive b ch).0

act_at : (Broker → Option Broker) → Option Broker → Option Broker
act_at next none = none
act_at next (some b) = next b

unfoldable pub run : List Action → Broker → Option Broker
unfolding act_at
run [] b = some b
run (a ∷ rest) b = act_at (run rest) (act b a)

act-IsSafe : (b : Broker) (a : Action) → IsSafe b → (b' : Broker) × (act b a ≡ some b') × IsSafe b'
unfolding act
act-IsSafe b subscribes s = (subscribe b, refl, subscribe-IsSafe b s)
act-IsSafe b (unsubscribes ch) s = unsubscribe-IsSafe b ch s
act-IsSafe b (sends e) s = (send b e, refl, send-IsSafe b e s)
act-IsSafe b delivers s = deliver_at-IsSafe b b.broadcast refl s
act-IsSafe b (receives ch) s = ((receive b ch).0, refl, receive-IsSafe b ch s)

run-IsSafe :
    (actions : List Action) (b : Broker)
    → IsSafe b
    → (b' : Broker) × (run actions b ≡ some b') × IsSafe b'
unfolding run act_at
run-IsSafe [] b s = (b, refl, s)
run-IsSafe (a ∷ rest) b s =
    let (c, acted, sc) = act-IsSafe b a s in
    let (d, ran, sd) = run-IsSafe rest c sc in (d, ap (act_at (run rest)) acted ∙ ran, sd)

-- Whatever goroutines do to a new broker, in any order, nothing panics: no send meets a closed
-- channel and none is closed twice. Each client's channel stays open, no client is there twice, and neither a
-- client's buffer nor the broadcast channel ever holds more than 256 events.
pub run_lem : (actions : List Action) → (b : Broker) × (run actions new_broker ≡ some b) × IsSafe b
unfolding new_broker
run_lem actions =
    run-IsSafe actions new_broker (record { open_clients = tt; bounded = omega arith })
