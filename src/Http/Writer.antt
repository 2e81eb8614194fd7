-- ===== src/Http/Writer.antt =====
-- What the calls on a ResponseWriter come to: on the wire, in `responseWriter`
-- (internal/middleware/logging.go) and in `responseCapture` (internal/middleware/capture.go).
-- A write takes all its bytes.
use microgate.Base.{
  Bool, false, none, leb, not, ◌&&◌, ℕ, ◌+◌, ◌≡◌, refl, Option, some, List, [], ◌∷◌, ◌++◌, GoString,
  length, if◌then◌else◌, str_eq, ◌==◌, arith, ◌≢◌, Bool-cases, inl, inr,
}
use microgate.Http.{Call, set_header, write_header, write, abort, aborts}

-- net/http sends these at once and goes on to wait for the final code.
abbrev pub is_informational : ℕ → Bool
is_informational c = leb 100 c && leb c 199 && not (c == 101)

-- net/http sends the first final status code; a write before it sends 200, and so does returning.
unfoldable pub wire_status : List Call → ℕ
wire_status [] = 200
wire_status (set_header k v ∷ cs) = wire_status cs
wire_status (write_header c ∷ cs) = if is_informational c then wire_status cs else c
wire_status (write b ∷ cs) = 200
wire_status (abort ∷ cs) = wire_status cs

-- The status that the client gets, if the handler is not aborted; else the connection is cut.
abbrev pub answer_status : List Call → Option ℕ
answer_status cs = if aborts cs then none else some (wire_status cs)

-- The header map when the status goes out: later settings are not sent.
unfoldable pub wire_header : List Call → GoString → Option GoString → Option GoString
wire_header [] key found = found
wire_header (set_header k v ∷ cs) key found =
    wire_header cs key (if str_eq k key then some v else found)
wire_header (write_header c ∷ cs) key found =
    if is_informational c then wire_header cs key found else found
wire_header (write b ∷ cs) key found = found
wire_header (abort ∷ cs) key found = wire_header cs key found

-- `w.Header().Get(key)` after all the calls; the empty string if nothing set it.
unfoldable pub header_after : List Call → GoString → GoString → GoString
header_after [] key found = found
header_after (set_header k v ∷ cs) key found =
    header_after cs key (if str_eq k key then v else found)
header_after (write_header c ∷ cs) key found = header_after cs key found
header_after (write b ∷ cs) key found = header_after cs key found
header_after (abort ∷ cs) key found = header_after cs key found

-- `responseWriter.statusCode`: `WriteHeader` overwrites it.
unfoldable pub writer_status : ℕ → List Call → ℕ
writer_status status [] = status
writer_status status (set_header k v ∷ cs) = writer_status status cs
writer_status status (write_header c ∷ cs) = writer_status c cs
writer_status status (write b ∷ cs) = writer_status status cs
writer_status status (abort ∷ cs) = writer_status status cs

pub record ResponseCapture : Type 0 where
  pub status_code : ℕ
  pub bytes_written : ℕ

-- `responseCapture`, one call: the new fields, and the calls that reach the wrapped writer.
unfoldable pub capture_call : ResponseCapture → Call → ResponseCapture × List Call
capture_call rw (set_header k v) = (rw, set_header k v ∷ [])
capture_call rw (write_header c) =
    if rw.status_code == 0 then (record rw { status_code = c }, write_header c ∷ []) else (rw, [])
capture_call rw (write b) =
    if rw.status_code == 0
    then (
      record rw { status_code = 200; bytes_written = rw.bytes_written + length b },
      write_header 200 ∷ write b ∷ [],
    )
    else (record rw { bytes_written = rw.bytes_written + length b }, write b ∷ [])
capture_call rw abort = (rw, abort ∷ [])

unfoldable pub capture_all : ResponseCapture → List Call → ResponseCapture × List Call
unfolding capture_call
capture_all rw [] = (rw, [])
capture_all rw (c ∷ cs) =
    let (rw', out) = capture_call rw c in
    let (last, rest) = capture_all rw' cs in (last, out ++ rest)

abbrev pub fresh_capture : ResponseCapture
fresh_capture = record { status_code = 0; bytes_written = 0 }

-- The status that the middleware reports, 200 if nothing was written.
unfoldable pub captured_status : List Call → ℕ
captured_status cs =
    let status = (capture_all fresh_capture cs).0.status_code in if status == 0 then 200 else status

abbrev pub body_size : List Call → ℕ
body_size [] = 0
body_size (write b ∷ cs) = length b + body_size cs
body_size (set_header k v ∷ cs) = body_size cs
body_size (write_header c ∷ cs) = body_size cs
body_size (abort ∷ cs) = body_size cs

-- Each code that the handler writes is a final one.
abbrev pub CodesFinal : List Call → Type 0
CodesFinal [] = Unit
CodesFinal (write_header c ∷ cs) = (c ≢ 0) × (is_informational c ≡ false) × CodesFinal cs
CodesFinal (set_header k v ∷ cs) = CodesFinal cs
CodesFinal (write b ∷ cs) = CodesFinal cs
CodesFinal (abort ∷ cs) = CodesFinal cs

capture_all-bytes :
    (rw : ResponseCapture) (cs : List Call)
    → (capture_all rw cs).0.bytes_written ≡ rw.bytes_written + body_size cs
unfolding capture_all
capture_all-bytes rw [] = omega arith
capture_all-bytes rw (set_header k v ∷ cs) = ground (arith, capture_all-bytes rw cs)
capture_all-bytes rw (abort ∷ cs) = ground (arith, capture_all-bytes rw cs)
capture_all-bytes rw (write_header c ∷ cs) =
    ground (arith, capture_all-bytes rw cs, capture_all-bytes (record rw { status_code = c }) cs)
capture_all-bytes rw (write b ∷ cs) = ground (
  arith,
  capture_all-bytes (record rw { status_code = 200; bytes_written = rw.bytes_written + length b })
      cs,
  capture_all-bytes (record rw { bytes_written = rw.bytes_written + length b }) cs,
)

capture_all-status_kept :
    (rw : ResponseCapture) (cs : List Call)
    → rw.status_code ≢ 0
    → (capture_all rw cs).0.status_code ≡ rw.status_code
unfolding capture_all
capture_all-status_kept rw [] h = refl
capture_all-status_kept rw (set_header k v ∷ cs) h = ground (arith, capture_all-status_kept rw cs h)
capture_all-status_kept rw (abort ∷ cs) h = ground (arith, capture_all-status_kept rw cs h)
capture_all-status_kept rw (write_header c ∷ cs) h = ground (arith, capture_all-status_kept rw cs h)
capture_all-status_kept rw (write b ∷ cs) h = ground (
  arith,
  capture_all-status_kept (record rw { bytes_written = rw.bytes_written + length b }) cs h,
)

-- The wrapper reports the status and the body size that go out, for any handler whose codes are final,
-- and the calls that it lets through send the same status.
pub capture_lem :
    (cs : List Call)
    → CodesFinal cs
    → (captured_status cs ≡ wire_status cs)
      × (wire_status (capture_all fresh_capture cs).1 ≡ wire_status cs)
      × ((capture_all fresh_capture cs).0.bytes_written ≡ body_size cs)
unfolding captured_status wire_status capture_all
capture_lem [] h = (refl, refl, refl)
capture_lem (set_header k v ∷ cs) h = ground (arith, capture_lem cs h)
capture_lem (abort ∷ cs) h = ground (arith, capture_lem cs h)
capture_lem (write_header c ∷ cs) h = ground (
  arith,
  capture_all-status_kept (record { status_code = c; bytes_written = 0 }) cs,
  capture_all-bytes (record { status_code = c; bytes_written = 0 }) cs,
)
capture_lem (write b ∷ cs) h = ground (
  arith,
  capture_all-status_kept (record { status_code = 200; bytes_written = 0 + length b }) cs,
  capture_all-bytes (record { status_code = 200; bytes_written = 0 + length b }) cs,
)

-- The calls that the wrapper lets through have final codes too.
pub capture_all-CodesFinal :
    (wr : ResponseCapture) (cs : List Call) → CodesFinal cs → CodesFinal (capture_all wr cs).1
unfolding capture_all
capture_all-CodesFinal wr [] h = tt
capture_all-CodesFinal wr (set_header k v ∷ cs) h = capture_all-CodesFinal wr cs h
capture_all-CodesFinal wr (abort ∷ cs) h = capture_all-CodesFinal wr cs h
capture_all-CodesFinal wr (write_header c ∷ cs) (ne, final, h) =
    elim (Bool-cases (wr.status_code == 0)) [
      | inl first ↦
          rw first (ne, final, capture_all-CodesFinal (record wr { status_code = c }) cs h)
      | inr later ↦ rw later (capture_all-CodesFinal wr cs h)
    ]
capture_all-CodesFinal wr (write b ∷ cs) h = elim (Bool-cases (wr.status_code == 0)) [
  | inl first ↦ rw first (
    omega arith,
    refl,
    capture_all-CodesFinal
        (record wr { status_code = 200; bytes_written = wr.bytes_written + length b }) cs h,
  )
  | inr later ↦
      rw later
        (capture_all-CodesFinal (record wr { bytes_written = wr.bytes_written + length b }) cs h)
]

-- The wrapper lets a panic through.
pub aborts-capture_all :
    (wr : ResponseCapture) (cs : List Call) → aborts (capture_all wr cs).1 ≡ aborts cs
unfolding aborts capture_all
aborts-capture_all wr [] = refl
aborts-capture_all wr (set_header k v ∷ cs) = aborts-capture_all wr cs
aborts-capture_all wr (abort ∷ cs) = refl
aborts-capture_all wr (write_header c ∷ cs) =
    ground (arith, aborts-capture_all (record wr { status_code = c }) cs, aborts-capture_all wr cs)
aborts-capture_all wr (write b ∷ cs) = ground (
  arith,
  aborts-capture_all (record wr { status_code = 200; bytes_written = wr.bytes_written + length b })
      cs,
  aborts-capture_all (record wr { bytes_written = wr.bytes_written + length b }) cs,
)
