-- ===== src/Traffic/Pipeline.antt =====
-- internal/middleware/traffic.go: the way of the events through the channel into the store.
use mathlib.Core.Path.{subst}
use mathlib.Core.List.{append-nil, append_assoc}
use microgate.Base.{
  ◌≤◌, ◌≡◌, ◌∙◌, refl, sym, ap, List, [], ◌∷◌, ◌++◌, if◌then◌else◌, ltb, GoString, length,
  length-append, arith, Bool-cases, inl, inr,
}
use microgate.Analytics.Store.{TrafficEvent, MemoryTrafficStore, record_event}
use microgate.Traffic.{TrafficRecorder, offer, work}

-- What happens to the channel: a request offers its event, or the goroutine takes one.
pub data Action : Type 0 where
  offers : TrafficEvent → Action
  works : Action

abbrev act : Action → TrafficRecorder → TrafficRecorder
act (offers e) tr = offer tr e
act works tr = work tr

abbrev pub run : List Action → TrafficRecorder → TrafficRecorder
run [] tr = tr
run (a ∷ acts) tr = run acts (act a tr)

-- The events that found room, in the order in which they were offered.
abbrev pub accepted : List Action → TrafficRecorder → List TrafficEvent
accepted [] tr = []
accepted (works ∷ acts) tr = accepted acts (work tr)
accepted (offers e ∷ acts) tr =
    let rest = accepted acts (offer tr e) in if ltb (length tr.events) 256 then e ∷ rest else rest

abbrev pub record_all : MemoryTrafficStore → List TrafficEvent → MemoryTrafficStore
record_all s [] = s
record_all s (e ∷ es) = record_all (record_event s e) es

abbrev queue : List TrafficEvent → MemoryTrafficStore → List GoString → TrafficRecorder
queue events store routes = record { events = events; store = store; routes = routes }

-- From `tr`, the actions bring the store to what it is after the given events.
abbrev pub Flows : List Action → TrafficRecorder → MemoryTrafficStore → List TrafficEvent → Type 0
Flows acts tr store es =
    (record_all (run acts tr).store (run acts tr).events ≡ record_all store es)
    × (length (run acts tr).events ≤ 256)

Flows-offers :
    (acts : List Action) (e : TrafficEvent) (tr tr' : TrafficRecorder)
    (es events : List TrafficEvent)
    → offer tr e ≡ tr'
    → accepted (offers e ∷ acts) tr ≡ es
    → Flows acts tr' tr.store (events ++ es)
    → Flows (offers e ∷ acts) tr tr.store (events ++ accepted (offers e ∷ acts) tr)
Flows-offers acts e tr tr' es events taken found h =
    subst (λ q. Flows acts q tr.store (events ++ accepted (offers e ∷ acts) tr)) (sym taken)
      (subst (λ l. Flows acts tr' tr.store (events ++ l)) (sym found) h)

pipeline_at :
    (acts : List Action) (events : List TrafficEvent) (store : MemoryTrafficStore)
    (routes : List GoString)
    → length events ≤ 256
    → let tr = queue events store routes in Flows acts tr store (events ++ accepted acts tr)
unfolding offer work
pipeline_at [] events store routes h = (ap (record_all store) (sym (append-nil events)), h)
pipeline_at (works ∷ acts) [] store routes h = pipeline_at acts [] store routes h
pipeline_at (works ∷ acts) (e ∷ events) store routes h =
    pipeline_at acts events (record_event store e) routes (omega arith)
pipeline_at (offers e ∷ acts) events store routes h =
    let tr = queue events store routes in
    let tr' = queue (events ++ (e ∷ [])) store routes in
    elim (Bool-cases (ltb (length events) 256)) [
      | inr full ↦
          Flows-offers acts e tr tr (accepted acts tr) events (rw full refl) (rw full refl)
            (pipeline_at acts events store routes h)
      | inl room ↦
          let fits : length (events ++ (e ∷ [])) ≤ 256 =
            ground (arith, length-append events (e ∷ [])) in
          let (same, bound) = pipeline_at acts (events ++ (e ∷ [])) store routes fits in
          let taken : offer tr e ≡ tr' = rw room refl in
          let found : accepted (offers e ∷ acts) tr ≡ e ∷ accepted acts (offer tr e) =
            rw room refl in
          Flows-offers acts e tr tr' (e ∷ accepted acts tr') events taken
            (found ∙ ap (λ q. e ∷ accepted acts q) taken)
            (same ∙ ap (record_all store) (append_assoc events (e ∷ []) (accepted acts tr')), bound)
    ]

-- If at most 256 events wait at first, then however offers and the goroutine's rounds follow each
-- other, no accepted event is lost, recorded twice or overtaken: the store, once the waiting events
-- are worked off, is the first store after the events that waited at first and then the accepted
-- ones, each recorded once and in order; and at most 256 events wait.
pub pipeline_lem :
    (acts : List Action) (tr : TrafficRecorder)
    → length tr.events ≤ 256
    → (record_all (run acts tr).store (run acts tr).events
        ≡ record_all tr.store (tr.events ++ accepted acts tr))
      × (length (run acts tr).events ≤ 256)
pipeline_lem acts tr h = pipeline_at acts tr.events tr.store tr.routes h
