-- ===== src/Multipart/RoundTrip/Expected.antt =====
-- What a state of the parser and the bytes still to come have to be for the parts to be found.
use face2go_server.Base.{◌<◌, ◌≡◌, ◌≢◌, some, List, [], ◌∷◌, ◌++◌, length, All}
use face2go_server.Multipart.Bytes.{Bytes, concat}
use face2go_server.Multipart.Headers.{crlf_crlf}
use face2go_server.Multipart.Parser.{
  MultipartPhase, seek_boundary, read_headers, read_body, MultipartAccumState,
  MultipartCompletedPart, Round, goes_on, leaves,
}
use face2go_server.Multipart.Encoding.{LineRest, IsPart, header, stream}

abbrev pub Parts : Type 0
Parts = List MultipartCompletedPart

abbrev pub NoDash : Bytes → Type 0
NoDash = All (λ x. x ≢ 45)

-- what follows the boundary line of a part
abbrev pub from_headers : Bytes → MultipartCompletedPart → Parts → Bytes
from_headers marker p ps =
    header p.content_type (length p.body) ++ (crlf_crlf ++ (p.body ++ (13 ∷ 10 ∷ stream marker ps)))

-- The parts are in the bytes that were kept and those to come, in front of which there is what
-- the phase of the parser is to read next.
abbrev pub Expects : Bytes → MultipartPhase → MultipartAccumState → Bytes → Parts → Type 0
Expects m seek_boundary s rest ps =
    (pad : Bytes) × NoDash pad × (s.buf ++ rest ≡ pad ++ stream m ps)
Expects m read_headers s rest [] = ⊥
Expects m read_headers s rest (p ∷ ps) =
    (left : Bytes) × LineRest left × (s.buf ++ rest ≡ left ++ from_headers m p ps)
Expects m read_body s rest [] = ⊥
Expects m read_body s rest (p ∷ ps) =
    (s.content_type ≡ some p.content_type)
    × (s.content_length ≡ some (length p.body))
    × (s.body_received ≡ length (concat s.body_parts))
    × (s.body_received < length p.body)
    × (concat s.body_parts ++ (s.buf ++ rest) ≡ p.body ++ (13 ∷ 10 ∷ stream m ps))

-- A round finds the next parts, and the others are expected still; it stops only for more bytes.
abbrev pub Keeps : Bytes → Round → Bytes → Parts → Type 0
Keeps m (goes_on s parts) rest ps =
    (later : Parts) × (ps ≡ parts ++ later)
    × All IsPart later
    × (s.boundary_marker ≡ m)
    × Expects m s.phase s rest later
Keeps m (leaves s) rest ps =
    (s.boundary_marker ≡ m) × Expects m s.phase s rest ps × (rest ≡ [] → ps ≡ [])
