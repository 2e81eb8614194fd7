-- ===== src/Dashboard/Broker/Clients.antt =====
-- internal/dashboard/sse.go: the channels of the broker's clients are open, and what each operation does to them.
use mathlib.Core.Path.{subst}
use microgate.Base.{
  ℕ, zero, suc, ◌≤◌, ◌<◌, ◌≡◌, ◌≢◌, ◌∙◌, refl, sym, ap, inl, inr, true, false, not, Option, none,
  some, List, [], ◌∷◌, if◌then◌else◌, ◌==◌, length, length-append, get_elem?, set,
  get_elem?-set_self, get_elem?-set_ne, keep, arith, Bool-cases,
}
use microgate.Dashboard.Broker.{
  Event, Channel, Broker, is_client, offer, send_all, take_from, received_at,
}

-- The channel is there, is open, and holds no more than its buffer.
abbrev pub IsOpen : List Channel → ℕ → Type 0
IsOpen chans i =
    (c : Channel) × (get_elem? chans i ≡ some c) × (c.closed ≡ false) × (length c.buffer ≤ 256)

-- Each client's channel is open, and no client is there twice.
abbrev pub AllOpen : List Channel → List ℕ → Type 0
AllOpen chans [] = Unit
AllOpen chans (i ∷ is) = IsOpen chans i × (is_client i is ≡ false) × AllOpen chans is

pub get_elem?-lt :
    {A : Type 0} (xs : List A) (i : ℕ) (x : A) → get_elem? xs i ≡ some x → i < length xs
get_elem?-lt [] i x e = ground arith
get_elem?-lt (y ∷ xs) zero x e = omega arith
get_elem?-lt (y ∷ xs) (suc i) x e = omega (arith, get_elem?-lt xs i x e)

-- What happens to open channels leaves them open.
pub AllOpen-map :
    (chans chans' : List Channel) (is : List ℕ)
    → ((i : ℕ) → is_client i is ≡ true → IsOpen chans i → IsOpen chans' i)
    → AllOpen chans is
    → AllOpen chans' is
AllOpen-map chans chans' [] keeps h = tt
AllOpen-map chans chans' (i ∷ is) keeps (o, new, h) =
    (keeps i (ground arith) o, new, AllOpen-map chans chans' is (λ j m. keeps j (ground arith)) h)

pub is_client-fresh :
    (chans : List Channel) (is : List ℕ) (n : ℕ)
    → AllOpen chans is
    → length chans ≤ n
    → is_client n is ≡ false
is_client-fresh chans [] n h le = refl
is_client-fresh chans (i ∷ is) n ((c, e, _, _), new, h) le =
    ground (arith, get_elem?-lt chans i c e, is_client-fresh chans is n h le)

abbrev pub others : ℕ → List ℕ → List ℕ
others ch = keep (λ c. not (c == ch))

pub is_client-others :
    (i ch : ℕ) (is : List ℕ)
    → is_client i (others ch is) ≡ (if i == ch then false else is_client i is)
unfolding keep
is_client-others i ch [] = ground arith
is_client-others i ch (j ∷ is) = ground (arith, is_client-others i ch is)

pub AllOpen-others :
    (chans : List Channel) (ch : ℕ) (is : List ℕ) → AllOpen chans is → AllOpen chans (others ch is)
unfolding keep
AllOpen-others chans ch [] h = tt
AllOpen-others chans ch (i ∷ is) (o, new, h) =
    let rest = AllOpen-others chans ch is h in
    elim (Bool-cases (i == ch)) [
      | inl same ↦ rw same rest
      | inr other ↦ rw other (o, ground (arith, is_client-others i ch is), rest)
    ]

pub client-IsOpen :
    (chans : List Channel) (is : List ℕ) (i : ℕ)
    → AllOpen chans is
    → is_client i is ≡ true
    → IsOpen chans i
client-IsOpen chans [] i h m = ground arith
client-IsOpen chans (j ∷ is) i (o, new, h) m = elim (Bool-cases (j == i)) [
  | inl same ↦ let e : j ≡ i = ground arith in rw (sym e) o
  | inr other ↦ client-IsOpen chans is i h (ground arith)
]

-- Nothing of an open channel changes by a write to another place.
pub IsOpen-set_ne :
    (chans : List Channel) (i j : ℕ) (c : Channel)
    → i ≢ j
    → IsOpen chans j
    → IsOpen (set chans i c) j
IsOpen-set_ne chans i j c ne (d, e, o, r) = (d, get_elem?-set_ne chans c ne ∙ e, o, r)

offer-bound : (c : Channel) (e : Event) → length c.buffer ≤ 256 → length (offer c e).buffer ≤ 256
offer-bound c e h = ground (arith, length-append c.buffer (e ∷ []))

offer-IsOpen :
    (chans : List Channel) (i j : ℕ) (c : Channel) (e : Event)
    → get_elem? chans i ≡ some c
    → c.closed ≡ false
    → length c.buffer ≤ 256
    → IsOpen chans j
    → IsOpen (set chans i (offer c e)) j
offer-IsOpen chans i j c e found o r h = elim (Bool-cases (i == j)) [
  | inr other ↦ IsOpen-set_ne chans i j (offer c e) (ground arith) h
  | inl same ↦
      let eq : i ≡ j = ground arith in
      rw (sym eq) (
        offer c e,
        get_elem?-set_self chans i (offer c e) (get_elem?-lt chans i c found),
        ground arith,
        offer-bound c e r,
      )
]

pub send_all-cons :
    (e : Event) (i : ℕ) (is : List ℕ) (chans : List Channel) (c : Channel)
    → get_elem? chans i ≡ some c
    → c.closed ≡ false
    → send_all e (i ∷ is) chans ≡ send_all e is (set chans i (offer c e))
unfolding send_all
send_all-cons e i is chans c found o = rw (send_all, found, o) refl

pub AllOpen-offer :
    (e : Event) (i : ℕ) (is : List ℕ) (chans : List Channel)
    → (o : IsOpen chans i) → AllOpen chans is
    → AllOpen (set chans i (offer o.0 e)) is
AllOpen-offer e i is chans (c, found, o, r) h =
    AllOpen-map chans (set chans i (offer c e)) is (λ j m. offer-IsOpen chans i j c e found o r) h

pub send_all-some :
    (e : Event) (is : List ℕ) (chans : List Channel)
    → AllOpen chans is
    → (chans' : List Channel) × (send_all e is chans ≡ some chans')
      × ((j : ℕ) → IsOpen chans j → IsOpen chans' j)
unfolding send_all
send_all-some e [] chans h = (chans, refl, λ j o. o)
send_all-some e (i ∷ is) chans ((c, found, o, r), new, h) =
    let next = set chans i (offer c e) in
    let (chans', sent, keeps) =
      send_all-some e is next (AllOpen-offer e i is chans (c, found, o, r) h) in
    (
      chans',
      send_all-cons e i is chans c found o ∙ sent,
      λ j p. keeps j (offer-IsOpen chans i j c e found o r p),
    )

-- Taking from a channel leaves it as open as it was.
take_from-keeps :
    (c : Channel) (waiting : List Event)
    → c.buffer ≡ waiting
    → (c.closed ≡ false)
    → ((take_from c waiting).0.closed ≡ false)
      × (length (take_from c waiting).0.buffer ≤ length c.buffer)
unfolding take_from
take_from-keeps c [] w o = (o, omega arith)
take_from-keeps c (e ∷ rest) w o = (o, rw w (omega arith))

pub received_at-IsOpen :
    (b : Broker) (ch j : ℕ) (o : Option Channel)
    → get_elem? b.channels ch ≡ o
    → IsOpen b.channels j
    → IsOpen (received_at b ch o).0.channels j
unfolding received_at
received_at-IsOpen b ch j none found h = h
received_at-IsOpen b ch j (some c) found h = elim (Bool-cases (ch == j)) [
  | inr other ↦ IsOpen-set_ne b.channels ch j (take_from c c.buffer).0 (ground arith) h
  | inl same ↦
      let eq : ch ≡ j = ground arith in
      let (d, e, o, r) = h in
      let it : c ≡ d = ground (arith, found, e, eq) in
      let (o', r') = take_from-keeps c c.buffer refl (ap (λ x. x.closed) it ∙ o) in
      let in_heap =
        get_elem?-set_self b.channels ch (take_from c c.buffer).0
          (get_elem?-lt b.channels ch c found) in
      let bound : length c.buffer ≤ 256 = subst (λ x. length x.buffer ≤ 256) (sym it) r in
      subst (IsOpen (set b.channels ch (take_from c c.buffer).0)) eq
        ((take_from c c.buffer).0, in_heap, o', omega arith)
]
