-- ===== src/Dashboard/Broker/Frames.antt =====
-- internal/dashboard/sse.go: what a client reads from the stream. `parse_stream` is the reading of an event stream
-- that the HTML standard prescribes, for the fields `event` and `data`.
use mathlib.Core.List.{append-nil, append_assoc}
use microgate.Base.{
  ◌≡◌, ◌≢◌, ◌∙◌, refl, sym, ap, Bool, true, false, not, ◌&&◌, List, [], ◌∷◌, ◌++◌, if◌then◌else◌,
  ◌==◌, GoString, lit, str_eq, has_prefix, drop_prefix, trim_prefix, arith,
}
use microgate.Http.{abort, Call, set_header, write_header, write}
use microgate.Dashboard.Broker.{Event, frame, newline, connected, frames, stream_handler}

-- The lines of a stream: LF, CR or both end one. What follows the last end is not a line yet.
lines_from : GoString → Bool → GoString → List GoString
lines_from line after_cr [] = []
lines_from line after_cr (b ∷ s) =
    let skipped = lines_from line false s in
    let ended = line ∷ lines_from [] false s in
    let returned = line ∷ lines_from [] true s in
    let more = lines_from (line ++ (b ∷ [])) false s in
    if b == 10 then (if after_cr then skipped else ended) else if b == 13 then returned else more

-- A field's value starts after the colon and one space.
value_of : GoString → GoString → GoString
value_of line name = trim_prefix (drop_prefix line name) (lit " ")

-- The data without the last line end.
abbrev unended : GoString → GoString
unended [] = []
unended (b ∷ []) = []
unended (b ∷ c ∷ s) = b ∷ unended (c ∷ s)

-- The type of an event that names none.
type_of : GoString → GoString
type_of [] = lit "message"
type_of (b ∷ s) = b ∷ s

-- An empty line ends an event, which counts if it has data: the lines of data, with an end between them.
events_from : GoString → GoString → List GoString → List Event
unfolding value_of type_of
events_from type buffered [] = []
events_from type buffered (line ∷ lines) =
    let dropped = events_from [] [] lines in
    let dispatched =
      record { type = type_of type; json = unended buffered } ∷ events_from [] [] lines in
    let named = events_from (value_of line (lit "event:")) buffered lines in
    let filled = events_from type (buffered ++ (value_of line (lit "data:") ++ newline)) lines in
    let ignored = events_from type buffered lines in
    if str_eq line []
    then (if str_eq buffered [] then dropped else dispatched)
    else if has_prefix line (lit "event:")
    then named
    else if has_prefix line (lit "data:")
    then filled
    else ignored

unfoldable pub parse_stream : GoString → List Event
unfolding lines_from events_from
parse_stream s = events_from [] [] (lines_from [] false s)

-- The text holds no line end.
abbrev pub one_line : GoString → Bool
one_line [] = true
one_line (b ∷ s) = not (b == 10) && not (b == 13) && one_line s

-- Every event has a type, and neither its type nor its data holds a line end.
abbrev pub AllFramed : List Event → Type 0
AllFramed [] = Unit
AllFramed (e ∷ es) =
    (e.type ≢ []) × (one_line e.type ≡ true) × (one_line e.json ≡ true) × AllFramed es

lines_from-one_line :
    (line s rest : GoString)
    → one_line s ≡ true
    → lines_from line false (s ++ (10 ∷ rest)) ≡ (line ++ s) ∷ lines_from [] false rest
unfolding lines_from
lines_from-one_line line [] rest h = ap (λ l. l ∷ lines_from [] false rest) (sym (append-nil line))
lines_from-one_line line (b ∷ s) rest h =
    let n10 : (b == 10) ≡ false = ground arith in
    let n13 : (b == 13) ≡ false = ground arith in
    let more : one_line s ≡ true = ground arith in
    rw (n10, n13)
      (lines_from-one_line (line ++ (b ∷ [])) s rest more
        ∙ ap (λ l. l ∷ lines_from [] false rest) (append_assoc line (b ∷ []) s))

-- The lines of a frame.
lines_from-frame :
    (e : Event) (rest : GoString)
    → one_line e.type ≡ true
    → one_line e.json ≡ true
    → lines_from [] false (frame e ++ rest)
      ≡ (lit "event: " ++ e.type) ∷ (lit "data: " ++ e.json) ∷ [] ∷ lines_from [] false rest
unfolding frame lines_from
lines_from-frame e rest ht hj =
    let event_line = lit "event: " ++ e.type in
    let data_line = lit "data: " ++ e.json in
    let split : frame e ++ rest ≡ event_line ++ (10 ∷ (data_line ++ (10 ∷ 10 ∷ rest))) =
      simp append_assoc in
    let first = lines_from-one_line [] event_line (data_line ++ (10 ∷ 10 ∷ rest)) ht in
    let second = lines_from-one_line [] data_line (10 ∷ rest) hj in
    ap (lines_from [] false) split ∙ first ∙ ap (λ l. event_line ∷ l) second

unended-newline : (s : GoString) → unended (s ++ newline) ≡ s
unended-newline [] = refl
unended-newline (b ∷ []) = refl
unended-newline (b ∷ c ∷ s) = ap (λ l. b ∷ l) (unended-newline (c ∷ s))

ended_not_empty : (s : GoString) → str_eq (s ++ newline) [] ≡ false
unfolding str_eq
ended_not_empty [] = refl
ended_not_empty (b ∷ s) = refl

type_of_named : (s : GoString) → s ≢ [] → type_of s ≡ s
unfolding type_of
type_of_named [] h = absurd (h refl)
type_of_named (b ∷ s) h = refl

events_from-frame :
    (e : Event) (lines : List GoString)
    → e.type ≢ []
    → events_from [] [] ((lit "event: " ++ e.type) ∷ (lit "data: " ++ e.json) ∷ [] ∷ lines)
      ≡ e ∷ events_from [] [] lines
unfolding events_from value_of str_eq has_prefix trim_prefix drop_prefix
events_from-frame e lines h =
    rw (ended_not_empty e.json, unended-newline e.json, type_of_named e.type h) refl

pub parse_stream-frame :
    (e : Event) (rest : GoString)
    → e.type ≢ []
    → one_line e.type ≡ true
    → one_line e.json ≡ true
    → parse_stream (frame e ++ rest) ≡ e ∷ parse_stream rest
unfolding parse_stream
parse_stream-frame e rest named ht hj =
    ap (events_from [] []) (lines_from-frame e rest ht hj)
    ∙ events_from-frame e (lines_from [] false rest) named

-- The bytes of a body.
unfoldable pub body : List Call → GoString
body [] = []
body (set_header k v ∷ cs) = body cs
body (write_header c ∷ cs) = body cs
body (write s ∷ cs) = s ++ body cs
body (abort ∷ cs) = body cs

parse_stream-frames :
    (received : List Event) → AllFramed received → parse_stream (body (frames received)) ≡ received
unfolding body frames parse_stream events_from lines_from
parse_stream-frames [] h = refl
parse_stream-frames (e ∷ es) (named, ht, hj, h) =
    parse_stream-frame e (body (frames es)) named ht hj ∙ ap (λ l. e ∷ l) (parse_stream-frames es h)

-- What a client reads from a stream are the event "connected" and then the events that its
-- connection received, each once and in order, if every one has a type and neither its type nor its data
-- holds a line end.
pub stream_handler_lem :
    (received : List Event)
    → AllFramed received
    → parse_stream (body (stream_handler true received)) ≡ connected ∷ received
unfolding stream_handler body
stream_handler_lem received h =
    parse_stream-frame connected (body (frames received)) (λ e. ground arith) refl refl
    ∙ ap (λ l. connected ∷ l) (parse_stream-frames received h)
