-- ===== src/Multipart/Encoding/Parts.antt =====
-- Parts in the form in which readers send them.
use face2go_server.Base.{ℕ, ◌≤◌, ◌<◌, ◌^◌, ◌≢◌, List, [], ◌∷◌, ◌++◌, length, All}
use face2go_server.Multipart.Bytes.{Bytes}
use face2go_server.Multipart.Headers.{codes, crlf_crlf}
use face2go_server.Multipart.Parser.{MultipartCompletedPart}
use face2go_server.Multipart.Encoding.Digits.{decimal_bytes}

-- A printable ASCII byte but the space and the semicolon.
abbrev pub IsTokenByte : ℕ → Type 0
IsTokenByte c = (33 ≤ c) × (c ≤ 126) × (c ≢ 59)

abbrev pub header : Bytes → ℕ → Bytes
header media len =
    codes "Content-Type: " ++ (media ++ (13 ∷ 10 ∷ (codes "Content-Length: " ++ decimal_bytes len)))

pub record IsPart (p : MultipartCompletedPart) : Type 0 where
  pub token : All IsTokenByte p.content_type
  pub named : 1 ≤ length p.content_type
  pub short : length p.content_type ≤ 65000
  pub filled : 1 ≤ length p.body
  pub sized : length p.body < 2 ^ 53

abbrev pub stream : Bytes → List MultipartCompletedPart → Bytes
stream marker [] = []
stream marker (p ∷ ps) =
    marker
    ++ (13
        ∷ 10
        ∷ (header p.content_type (length p.body)
            ++ (crlf_crlf ++ (p.body ++ (13 ∷ 10 ∷ stream marker ps)))))
