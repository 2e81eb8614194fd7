-- ===== src/Dashboard/Broker/Delivery.antt =====
-- internal/dashboard/sse.go: what waits in the broadcast channel reaches every client.
use mathlib.Core.List.{append-nil, append_assoc}
use mathlib.Core.Path.{subst}
use microgate.Base.{
  ℕ, zero, suc, ◌+◌, ◌≤◌, ◌≡◌, ◌∙◌, refl, sym, ap, Bool, true, false, Option, none, some, List, [],
  ◌∷◌, ◌++◌, ltb, ◌==◌, length, get_elem?, set, get_elem?-set_self, get_elem?-set_ne, length-append,
  arith, Bool-cases, inl, inr,
}
use microgate.Dashboard.Broker.{Event, Channel, Broker, is_client, offer, send_all, deliver}
use microgate.Dashboard.Broker.Clients.{AllOpen, get_elem?-lt, send_all-cons, AllOpen-offer}
use microgate.Dashboard.Broker.Laws.{IsSafe, deliver-cons}

abbrev offered : Bool → Channel → Event → Channel
offered true c e = offer c e
offered false c e = c

-- Every client's channel is offered the event once.
send_all-get :
    (e : Event) (is : List ℕ) (chans chans' : List Channel)
    → AllOpen chans is
    → send_all e is chans ≡ some chans'
    → (j : ℕ) (d : Channel) → get_elem? chans j ≡ some d
    → get_elem? chans' j ≡ some (offered (is_client j is) d e)
unfolding send_all
send_all-get e [] chans chans' h sent j d at_j =
    let same : chans ≡ chans' = ground arith in rw (sym same) at_j
send_all-get e (i ∷ is) chans chans' ((c, found, o, r), new, h) sent j d at_j =
    let next = set chans i (offer c e) in
    let again =
      send_all-get e is next chans' (AllOpen-offer e i is chans (c, found, o, r) h)
        (sym (send_all-cons e i is chans c found o) ∙ sent) j in
    elim (Bool-cases (i == j)) [
      | inl same ↦
          let eq : i ≡ j = ground arith in
          let it : c ≡ d = ground (arith, found, at_j, eq) in
          let here : get_elem? next j ≡ some (offer c e) =
            subst (λ k. get_elem? next k ≡ some (offer c e)) eq
              (get_elem?-set_self chans i (offer c e) (get_elem?-lt chans i c found)) in
          let fresh : is_client j is ≡ false = subst (λ k. is_client k is ≡ false) eq new in
          rw same (
            again (offer c e) here
            ∙ ap (λ t. some (offered t (offer c e) e)) fresh
            ∙ ap (λ x. some (offer x e)) it)
      | inr other ↦ rw other (again d (get_elem?-set_ne chans (offer c e) (ground arith) ∙ at_j))
    ]

-- Rounds of the loop in which it takes from the broadcast channel.
after_round : (Broker → Option Broker) → Option Broker → Option Broker
after_round next none = none
after_round next (some b) = next b

unfoldable pub rounds : ℕ → Broker → Option Broker
unfolding after_round
rounds zero b = some b
rounds (suc n) b = after_round (rounds n) (deliver b)

offer-room :
    (c : Channel) (e : Event)
    → suc (length c.buffer) ≤ 256
    → offer c e ≡ record c { buffer = c.buffer ++ (e ∷ []) }
offer-room c e h = let room : ltb (length c.buffer) 256 ≡ true = ground arith in rw room refl

rounds-waiting :
    (waiting : List Event) (b : Broker) (i : ℕ) (c : Channel)
    → IsSafe b
    → b.broadcast ≡ waiting
    → is_client i b.clients ≡ true
    → get_elem? b.channels i ≡ some c
    → length c.buffer + length waiting ≤ 256
    → (b' : Broker) × (rounds (length waiting) b ≡ some b')
      × (b'.broadcast ≡ [])
      × (get_elem? b'.channels i ≡ some (record c { buffer = c.buffer ++ waiting }))
unfolding rounds after_round
rounds-waiting [] b i c s waits client holds room =
    (b, refl, waits, holds ∙ ap (λ l. some (record c { buffer = l })) (sym (append-nil c.buffer)))
rounds-waiting (e ∷ waiting) b i c s waits client holds room =
    let (chans', sent, ran, s') = deliver-cons b e waiting waits s in
    let b' = record b { channels = chans'; broadcast = waiting } in
    let c' = record c { buffer = c.buffer ++ (e ∷ []) } in
    let got = send_all-get e b.clients b.channels chans' s.open_clients sent i c holds in
    let got' : get_elem? chans' i ≡ some c' =
      got ∙ ap (λ t. some (offered t c e)) client ∙ ap some (offer-room c e (omega arith)) in
    let (b'', rest, done, all) =
      rounds-waiting waiting b' i c' s' refl client got'
        (omega (arith, length-append c.buffer (e ∷ []))) in
    (
      b'',
      ap (after_round (rounds (length waiting))) ran ∙ rest,
      done,
      all ∙ ap (λ l. some (record c { buffer = l })) (append_assoc c.buffer (e ∷ []) waiting),
    )

-- Of a broker that is safe, after as many rounds of its loop as events wait in the broadcast channel, none
-- waits, and the channel of every client with room for them has them all behind what it held, each
-- once and in the order in which they were sent.
pub rounds_lem :
    (b : Broker) (i : ℕ) (c : Channel)
    → IsSafe b
    → is_client i b.clients ≡ true
    → get_elem? b.channels i ≡ some c
    → length c.buffer + length b.broadcast ≤ 256
    → (b' : Broker) × (rounds (length b.broadcast) b ≡ some b')
      × (b'.broadcast ≡ [])
      × (get_elem? b'.channels i ≡ some (record c { buffer = c.buffer ++ b.broadcast }))
rounds_lem b i c s client holds room = rounds-waiting b.broadcast b i c s refl client holds room
