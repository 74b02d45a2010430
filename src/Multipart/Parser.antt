-- ===== src/Multipart/Parser.antt =====
-- The parser of a stream of parts, src/face-listener/hikvision-multipart-json.parser.ts.
-- A call of `feedMultipartStream` returns the new state and the completed parts.
use face2go_server.Base.{
  ℕ, zero, suc, ◌+◌, ◌-◌, ◌*◌, Bool, true, false, ◌&&◌, Option, none, some, List, [], ◌∷◌, ◌++◌,
  ◌==◌, leb, ltb, min, if◌then◌else◌, length, take, drop, or_else,
}
use face2go_server.Multipart.Bytes.{Bytes, index_of, starts_with, concat}
use face2go_server.Multipart.Headers.{
  Separator, find_headers_separator, PartHeaders, parse_headers_text, is_finite, codes,
}

pub data MultipartPhase : Type 0 where
  seek_boundary read_headers read_body : MultipartPhase

pub record MultipartCompletedPart : Type 0 where
  pub content_type : Bytes
  pub body : Bytes

pub record MultipartAccumState : Type 0 where
  pub phase : MultipartPhase
  pub buf : Bytes
  pub content_type : Option Bytes
  pub content_length : Option ℕ
  pub body_received : ℕ
  pub body_parts : List Bytes
  pub boundary_marker : Bytes

abbrev without_dashes : Bool → Bytes → Bytes
without_dashes true boundary = drop 2 boundary
without_dashes false boundary = boundary

unfoldable pub create_multipart_state : Bytes → MultipartAccumState
create_multipart_state boundary = record {
  phase = seek_boundary;
  buf = [];
  content_type = none;
  content_length = none;
  body_received = 0;
  body_parts = [];
  boundary_marker = b'-' ∷ b'-' ∷ without_dashes (starts_with (b'-' ∷ b'-' ∷ []) boundary) boundary;
}

-- `if (buf[start] === c) start += 1`, on the bytes from `start` on
abbrev pub skip_byte : ℕ → Bytes → Bytes
skip_byte c [] = []
skip_byte c (x ∷ xs) = if x == c then xs else x ∷ xs

abbrev pub skip_dashes : Bytes → Bytes
skip_dashes (x ∷ y ∷ xs) = if x == 45 && y == 45 then xs else x ∷ y ∷ xs
skip_dashes xs = xs

abbrev line_after : Bytes → Bytes → Option ℕ → Option Bytes
line_after buf marker none = none
line_after buf marker (some i) =
    some (skip_byte 10 (skip_byte 13 (skip_dashes (drop (i + length marker) buf))))

unfoldable pub consume_boundary_line : Bytes → Bytes → Option Bytes
consume_boundary_line buf marker = line_after buf marker (index_of marker buf)

-- the bytes kept where no boundary is found
abbrev kept_from : Bytes → Bytes → Option ℕ → Bytes
kept_from buf marker (some (suc i)) = drop (suc i) buf
kept_from buf marker other =
    if ltb (length marker) (length buf) then drop (length buf - length marker) buf else buf

unfoldable pub kept : Bytes → Bytes → Bytes
kept buf marker = kept_from buf marker (index_of marker buf)

abbrev pub max_header : ℕ
max_header = 65536

-- One round of the loop: it goes on, with the parts that the round has completed, or leaves.
pub data Round : Type 0 where
  goes_on : MultipartAccumState → List MultipartCompletedPart → Round
  leaves : MultipartAccumState → Round

abbrev pub seek_after : MultipartAccumState → Option Bytes → Round
seek_after s none = leaves (record s { buf = kept s.buf s.boundary_marker })
seek_after s (some after) =
    goes_on
      (record s {
        buf = after;
        phase = read_headers;
        content_type = none;
        content_length = none;
        body_received = 0;
        body_parts = [];
      })
      []

abbrev pub finite : Option ℕ → Option ℕ
finite none = none
finite (some n) = if is_finite n then some n else none

-- A length of the model is never negative.
abbrev pub started : MultipartAccumState → Option ℕ → MultipartAccumState
started s none = record s { phase = seek_boundary; content_length = none }
started s (some n) = record s {
  phase = read_body;
  content_length = some n;
  body_received = 0;
  body_parts = [];
}

abbrev pub with_headers : MultipartAccumState → PartHeaders → Bytes → MultipartAccumState
with_headers s h rest =
    started (record s { buf = rest; content_type = h.content_type }) (finite h.content_length)

abbrev pub headers_after : MultipartAccumState → Option Separator → Round
headers_after s none = leaves (record s {
  buf = if ltb max_header (length s.buf) then drop (length s.buf - max_header) s.buf else s.buf;
})
headers_after s (some sep) =
    goes_on
      (with_headers s (parse_headers_text (take sep.header_len s.buf))
        (drop (sep.header_len + sep.sep_len) s.buf))
      []

-- The bytes of the body that have come are taken from the buffer.
abbrev pub taken : MultipartAccumState → ℕ → MultipartAccumState
taken s zero = s
taken s (suc n) = record s {
  body_parts = s.body_parts ++ take (suc n) s.buf ∷ [];
  buf = drop (suc n) s.buf;
  body_received = s.body_received + suc n;
}

abbrev pub completed_part : MultipartAccumState → MultipartCompletedPart
completed_part s = record {
  content_type = or_else s.content_type (codes "application/octet-stream");
  body = concat s.body_parts;
}

abbrev pub body_round : MultipartAccumState → ℕ → Round
body_round s len =
    if leb len s.body_received
    then goes_on (record s { phase = seek_boundary; body_parts = [] }) (completed_part s ∷ [])
    else leaves s

-- `null` counts as 0 in the comparisons with `contentLength`.
unfoldable pub body_turn : MultipartAccumState → ℕ → Round
body_turn s len =
    if leb len s.body_received
    then goes_on (record s { phase = seek_boundary }) []
    else body_round (taken s (min (len - s.body_received) (length s.buf))) len

unfoldable pub turn_in : MultipartPhase → MultipartAccumState → Round
turn_in seek_boundary s = seek_after s (consume_boundary_line s.buf s.boundary_marker)
turn_in read_headers s = headers_after s (find_headers_separator s.buf)
turn_in read_body s = body_turn s (or_else s.content_length 0)

abbrev pub turn : MultipartAccumState → Round
turn s = turn_in s.phase s

abbrev pub Outcome : Type 0
Outcome = Option (MultipartAccumState × List MultipartCompletedPart)

-- `break`, or the next round
abbrev pub after_round :
    (MultipartAccumState → List MultipartCompletedPart → Outcome)
    → List MultipartCompletedPart
    → Round
    → Outcome
after_round again completed (goes_on s parts) = again s (completed ++ parts)
after_round again completed (leaves s) = some (s, completed)

-- `while (true)`, where `none` means that the fuel has run out
unfoldable pub loop : ℕ → MultipartAccumState → List MultipartCompletedPart → Outcome
loop zero s completed = none
loop (suc fuel) s completed = after_round (loop fuel) completed (turn_in s.phase s)

-- Each round takes a byte from the buffer or leaves `read_body`, so the fuel is enough.
abbrev pub fuel_of : MultipartAccumState → ℕ
fuel_of s = length s.buf * 2 + 2

abbrev pub with_chunk : MultipartAccumState → Bytes → MultipartAccumState
with_chunk s chunk = record s { buf = s.buf ++ chunk }

unfoldable pub feed_multipart_stream : MultipartAccumState → Bytes → Outcome
feed_multipart_stream s chunk = loop (fuel_of (with_chunk s chunk)) (with_chunk s chunk) []

abbrev pub joined :
    List MultipartCompletedPart
    → Option (List MultipartCompletedPart)
    → Option (List MultipartCompletedPart)
joined parts none = none
joined parts (some more) = some (parts ++ more)

abbrev pub then_feed :
    (MultipartAccumState → Option (List MultipartCompletedPart))
    → Outcome
    → Option (List MultipartCompletedPart)
then_feed again none = none
then_feed again (some (s, parts)) = joined parts (again s)

-- The calls for the chunks of a stream, one after the other, and the parts that they complete.
unfoldable pub feed_all : List Bytes → MultipartAccumState → Option (List MultipartCompletedPart)
feed_all [] s = some []
feed_all (chunk ∷ chunks) s = then_feed (feed_all chunks) (feed_multipart_stream s chunk)
