-- ===== src/Multipart/Ends.antt =====
-- Every call of the parser ends, and bounds what it keeps for the next.
use face2go_server.Base.{
  ℕ, zero, suc, ◌+◌, ◌-◌, ◌*◌, ◌≤◌, ◌<◌, ◌≡◌, refl, false, Option, none, some, List, [], ◌∷◌, ◌++◌,
  ◌⊎◌, inl, inr, length, take, drop, min, or_else, leb, Bool-cases, Option-cases, arith,
  length-drop, subst, sym, drop_all,
}
use face2go_server.Multipart.Search.{index_of-length}
use face2go_server.Multipart.Bytes.{Bytes, index_of}
use face2go_server.Multipart.Headers.{
  Separator, find_headers_separator, crlf_crlf, lf_lf, parse_headers_text,
}
use face2go_server.Multipart.Parser.{
  MultipartPhase, seek_boundary, read_headers, read_body, MultipartAccumState,
  MultipartCompletedPart, Round, goes_on, leaves, consume_boundary_line, kept, skip_byte,
  skip_dashes, body_round, body_turn, turn_in, loop, fuel_of, with_chunk, Outcome,
  feed_multipart_stream, taken, max_header, started, finite,
}

abbrev rank : MultipartPhase → ℕ
rank seek_boundary = 0
rank read_headers = 0
rank read_body = 1

abbrev measure : MultipartAccumState → ℕ
measure s = length s.buf * 2 + rank s.phase

rank-le : (p : MultipartPhase) → rank p ≤ 1
rank-le seek_boundary = omega arith
rank-le read_headers = omega arith
rank-le read_body = omega arith

-- What the parser keeps between two calls: hardly more than a marker while it looks for a
-- boundary, at most 64 KB of headers, and nothing but the collected body while it reads one.
abbrev pub Rests : MultipartPhase → MultipartAccumState → Type 0
Rests seek_boundary s = length s.buf ≤ length s.boundary_marker
Rests read_headers s = length s.buf ≤ max_header
Rests read_body s = (s.buf ≡ []) × (s.body_received < or_else s.content_length 0)

abbrev Falls : MultipartAccumState → Round → Type 0
Falls s (goes_on s' parts) = (measure s' < measure s) × (s'.boundary_marker ≡ s.boundary_marker)
Falls s (leaves s') = Rests s'.phase s'

skip_byte-length : (c : ℕ) (xs : Bytes) → length (skip_byte c xs) ≤ length xs
skip_byte-length c [] = omega arith
skip_byte-length c (x ∷ xs) = ground arith

skip_dashes-length : (xs : Bytes) → length (skip_dashes xs) ≤ length xs
skip_dashes-length [] = omega arith
skip_dashes-length (x ∷ []) = omega arith
skip_dashes-length (x ∷ y ∷ xs) = ground arith

consume-length :
    (buf marker after : Bytes)
    → consume_boundary_line buf marker ≡ some after
    → length after + length marker ≤ length buf
unfolding consume_boundary_line
consume-length buf marker after h = elim (Option-cases (index_of marker buf)) [
  | inl e ↦ ground (arith, e)
  | inr (i, e) ↦
      let rest = drop (i + length marker) buf in
      let dashes = skip_dashes rest in
      let found : skip_byte 10 (skip_byte 13 dashes) ≡ after = ground (arith, e) in
      subst (λ a. length a + length marker ≤ length buf) found
        (omega (
          arith,
          index_of-length marker buf i e,
          skip_byte-length 10 (skip_byte 13 dashes),
          skip_byte-length 13 dashes,
          skip_dashes-length rest,
          length-drop (i + length marker) buf,
        ))
]

kept-length :
    (buf marker : Bytes)
    → consume_boundary_line buf marker ≡ none
    → length (kept buf marker) ≤ length marker
unfolding consume_boundary_line kept
kept-length buf marker h = elim (Option-cases (index_of marker buf)) [
  | inl e ↦ ground (arith, e, length-drop (length buf - length marker) buf)
  | inr (i, e) ↦ absurd (ground (arith, e))
]

separator-length :
    (buf : Bytes) (sep : Separator)
    → find_headers_separator buf ≡ some sep
    → (sep.header_len + sep.sep_len ≤ length buf) × (2 ≤ sep.sep_len)
unfolding find_headers_separator
separator-length buf sep h = elim (Option-cases (index_of crlf_crlf buf)) [
  | inl e ↦ elim (Option-cases (index_of lf_lf buf)) [
    | inl f ↦ absurd (ground (arith, e, f))
    | inr (i, f) ↦
        let found : record { header_len = i; sep_len = 2 } ≡ sep = ground (arith, e, f) in
        subst (λ (z : Separator). (z.header_len + z.sep_len ≤ length buf) × (2 ≤ z.sep_len)) found
          (index_of-length lf_lf buf i f, omega arith)
  ]
  | inr (i, e) ↦
      let found : record { header_len = i; sep_len = 4 } ≡ sep = ground (arith, e) in
      subst (λ (z : Separator). (z.header_len + z.sep_len ≤ length buf) × (2 ≤ z.sep_len)) found
        (index_of-length crlf_crlf buf i e, omega arith)
]

seek-Falls :
    (s : MultipartAccumState)
    → 1 ≤ length s.boundary_marker
    → s.phase ≡ seek_boundary
    → Falls s (turn_in seek_boundary s)
unfolding turn_in
seek-Falls s m p = elim (Option-cases (consume_boundary_line s.buf s.boundary_marker)) [
  | inl e ↦ rw (e, p) (kept-length s.buf s.boundary_marker e)
  | inr (after, e) ↦ rw (e, p) (omega (arith, consume-length s.buf s.boundary_marker after e), refl)
]

started-measure :
    (s : MultipartAccumState) (o : Option ℕ)
    → (measure (started s o) ≤ length s.buf * 2 + 1)
      × ((started s o).boundary_marker ≡ s.boundary_marker)
started-measure s none = (omega arith, refl)
started-measure s (some n) = (omega arith, refl)

headers-Falls :
    (s : MultipartAccumState) → s.phase ≡ read_headers → Falls s (turn_in read_headers s)
unfolding turn_in
headers-Falls s p = elim (Option-cases (find_headers_separator s.buf)) [
  | inl e ↦ rw (e, p) (ground (arith, length-drop (length s.buf - max_header) s.buf))
  | inr (sep, e) ↦
      let h = parse_headers_text (take sep.header_len s.buf) in
      let rest = drop (sep.header_len + sep.sep_len) s.buf in
      let (low, same) =
        started-measure (record s { buf = rest; content_type = h.content_type })
          (finite h.content_length) in
      rw (e, p)
        (
          omega (
            arith,
            low,
            separator-length s.buf sep e,
            length-drop (sep.header_len + sep.sep_len) s.buf,
          ),
          same,
        )
]

body_round-Falls :
    (s : MultipartAccumState) (len n : ℕ)
    → s.phase ≡ read_body
    → or_else s.content_length 0 ≡ len
    → s.body_received < len
    → n ≡ min (len - s.body_received) (length s.buf)
    → Falls s (body_round (taken s n) len)
body_round-Falls s len zero p l h m =
    let more : leb len s.body_received ≡ false = ground arith in
    rw (more, p) (drop_all 0 s.buf (omega arith), omega arith)
body_round-Falls s len (suc n) p l h m = elim (Bool-cases (leb len (s.body_received + suc n))) [
  | inl e ↦ rw (e, p) (omega (arith, length-drop (suc n) s.buf), refl)
  | inr e ↦ rw (e, p) (drop_all (suc n) s.buf (ground arith), ground arith)
]

body-Falls : (s : MultipartAccumState) → s.phase ≡ read_body → Falls s (turn_in read_body s)
unfolding turn_in body_turn
body-Falls s p = elim (Bool-cases (leb (or_else s.content_length 0) s.body_received)) [
  | inl e ↦ rw (e, p) (omega arith, refl)
  | inr e ↦ rw e (
      body_round-Falls s (or_else s.content_length 0)
        (min (or_else s.content_length 0 - s.body_received) (length s.buf)) p refl (ground arith)
        refl)
]

turn-Falls :
    (s : MultipartAccumState) (phase : MultipartPhase)
    → 1 ≤ length s.boundary_marker
    → s.phase ≡ phase
    → Falls s (turn_in phase s)
turn-Falls s seek_boundary m p = seek-Falls s m p
turn-Falls s read_headers m p = headers-Falls s p
turn-Falls s read_body m p = body-Falls s p

Round-cases :
    (r : Round)
    → ((s' : MultipartAccumState) × (parts : List MultipartCompletedPart) × (r ≡ goes_on s' parts))
      ⊎ ((s' : MultipartAccumState) × (r ≡ leaves s'))
Round-cases (goes_on s' parts) = inl (s', parts, refl)
Round-cases (leaves s') = inr (s', refl)

-- The loop ends by a `break`.
abbrev pub Returns : Outcome → Type 0
Returns none = ⊥
Returns (some (s, parts)) = Rests s.phase s

loop-Returns :
    (fuel : ℕ) (s : MultipartAccumState) (completed : List MultipartCompletedPart)
    → 1 ≤ length s.boundary_marker
    → measure s < fuel
    → Returns (loop fuel s completed)
unfolding loop
loop-Returns zero s completed m h = absurd (omega arith)
loop-Returns (suc fuel) s completed m h = elim (Round-cases (turn_in s.phase s)) [
  | inl (s', parts, e) ↦
      let (low, same) : Falls s (goes_on s' parts) =
        subst (Falls s) e (turn-Falls s s.phase m refl) in
      rw e (
        loop-Returns fuel s' (completed ++ parts) (subst (λ b. 1 ≤ length b) (sym same) m)
          (omega arith))
  | inr (s', e) ↦ rw e (subst (Falls s) e (turn-Falls s s.phase m refl))
]

pub feed-Returns :
    (s : MultipartAccumState) (chunk : Bytes)
    → 1 ≤ length s.boundary_marker
    → Returns (feed_multipart_stream s chunk)
unfolding feed_multipart_stream
feed-Returns s chunk m =
    loop-Returns (fuel_of (with_chunk s chunk)) (with_chunk s chunk) [] m
      (omega (arith, rank-le s.phase))
