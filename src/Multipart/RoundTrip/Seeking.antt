-- ===== src/Multipart/RoundTrip/Seeking.antt =====
-- A round that looks for a boundary.
use face2go_server.Base.{
  ◌+◌, ◌-◌, ◌≤◌, ◌≡◌, ◌≢◌, ◌∙◌, refl, sym, ap, none, some, [], ◌∷◌, ◌++◌, inl, inr, length, drop,
  All, All-drop, drop-append, drop-length-append, length-append, Bool-cases, Option-cases, ltb,
  arith,
}
use mathlib.Core.List.{append_assoc}
use face2go_server.Multipart.Bytes.{Bytes, index_of, starts_with}
use face2go_server.Multipart.Parser.{
  seek_boundary, MultipartAccumState, MultipartCompletedPart, consume_boundary_line, kept,
  skip_byte, skip_dashes, turn_in,
}
use face2go_server.Multipart.Search.{
  index_of-append, index_of-buffer, index_of_self, index_of-skip, index_of-skip_none,
}
use face2go_server.Multipart.Encoding.{LineRest, nothing, line_feed, whole, IsPart, stream}
use face2go_server.Multipart.RoundTrip.Expected.{Parts, NoDash, from_headers, Expects, Keeps}

module _ (m : Bytes) where
  abbrev marker : Bytes
  marker = 45 ∷ m

  no_marker : (pad : Bytes) → NoDash pad → index_of marker (pad ++ []) ≡ none
  unfolding index_of starts_with
  no_marker pad h = index_of-skip_none 45 m pad [] h refl

  at_marker :
      (pad xs : Bytes) → NoDash pad → index_of marker (pad ++ (marker ++ xs)) ≡ some (length pad)
  at_marker pad xs h =
      index_of-skip 45 m pad (marker ++ xs) 0 h (index_of_self 45 m xs) ∙ ap some (omega arith)

  -- The bytes that are kept hold all that may be the beginning of a boundary.
  kept-append :
      (buf rest pad tail : Bytes)
      → index_of marker buf ≡ none
      → buf ++ rest ≡ pad ++ tail
      → NoDash pad
      → length buf ≤ length pad + length marker
      → (pad' : Bytes) × NoDash pad' × (kept buf marker ++ rest ≡ pad' ++ tail)
  unfolding kept
  kept-append buf rest pad tail n e h l = elim (Bool-cases (ltb (length marker) (length buf))) [
    | inl b ↦
        let k = length buf - length marker in
        (
          drop k pad,
          All-drop (λ x. x ≢ 45) k pad h,
          rw (n, b)
              (sym (drop-append k buf rest (omega arith))
                ∙ ap (drop k) e
                ∙ drop-append k pad tail (omega arith)),
        )
    | inr b ↦ (pad, h, rw (n, b) e)
  ]

-- Behind the boundary the line's end is skipped as far as it has come.
skipped :
    (after rest tail : Bytes)
    → after ++ rest ≡ 13 ∷ 10 ∷ tail
    → (left : Bytes) × LineRest left
      × (skip_byte 10 (skip_byte 13 (skip_dashes after)) ++ rest ≡ left ++ tail)
skipped [] rest tail e = (13 ∷ 10 ∷ [], whole, e)
skipped (x ∷ []) rest tail e = let first : x ≡ 13 = cc in (10 ∷ [], line_feed, rw first (cc))
skipped (x ∷ y ∷ xs) rest tail e =
    let first : x ≡ 13 = cc in let second : y ≡ 10 = cc in ([], nothing, rw (first, second) (cc))

module _ (m : Bytes) where
  consumed :
      (buf rest pad tail : Bytes)
      → buf ++ rest ≡ pad ++ (marker m ++ (13 ∷ 10 ∷ tail))
      → length pad + length (marker m) ≤ length buf
      → drop (length pad + length (marker m)) buf ++ rest ≡ 13 ∷ 10 ∷ tail
  consumed buf rest pad tail e l =
      let line = 13 ∷ 10 ∷ tail in
      let k = length pad + length (marker m) in
      sym (drop-append k buf rest l)
      ∙ ap (drop k) (e ∙ sym (append_assoc pad (marker m) line))
      ∙ ap (λ i. drop i ((pad ++ marker m) ++ line)) (sym (length-append pad (marker m)))
      ∙ drop-length-append (pad ++ marker m) line

  seek_none-Keeps :
      (s : MultipartAccumState) (rest pad : Bytes)
      → s.phase ≡ seek_boundary
      → s.boundary_marker ≡ marker m
      → NoDash pad
      → s.buf ++ rest ≡ pad ++ []
      → Keeps (marker m) (turn_in seek_boundary s) rest []
  unfolding turn_in consume_boundary_line
  seek_none-Keeps s rest pad p b h e = elim (Option-cases (index_of (marker m) s.buf)) [
    | inr (i, f) ↦ absurd (
        ground (
          arith,
          index_of-append (marker m) s.buf rest i f,
          ap (index_of (marker m)) e,
          no_marker m pad h,
        ))
    | inl n ↦
        let (pad', h', e') =
          kept-append m s.buf rest pad [] n e h
            (omega (arith, length-append s.buf rest, length-append pad [], ap length e)) in
        rw (p, b, n) (refl, (pad', h', e'), λ _. refl)
  ]

  seek_some-Keeps :
      (s : MultipartAccumState) (rest pad : Bytes) (p : MultipartCompletedPart) (ps : Parts)
      → s.phase ≡ seek_boundary
      → s.boundary_marker ≡ marker m
      → All IsPart (p ∷ ps)
      → NoDash pad
      → s.buf ++ rest ≡ pad ++ stream (marker m) (p ∷ ps)
      → Keeps (marker m) (turn_in seek_boundary s) rest (p ∷ ps)
  unfolding turn_in consume_boundary_line
  seek_some-Keeps s rest pad p ps q b a h e =
      let tail = from_headers (marker m) p ps in
      elim (index_of-buffer (marker m) s.buf rest (pad ++ stream (marker m) (p ∷ ps)) (length pad) e
        (at_marker m pad (13 ∷ 10 ∷ tail) h)) [
          | inl (f, l) ↦
              let after = drop (length pad + length (marker m)) s.buf in
              let (left, r, e') = skipped after rest tail (consumed s.buf rest pad tail e l) in
              rw (b, f) (p ∷ ps, refl, a, refl, (left, r, e'))
          | inr (n, l) ↦
              let kept =
                kept-append m s.buf rest pad (stream (marker m) (p ∷ ps)) n e h (omega arith) in
              rw (q, b, n)
                (
                  refl,
                  kept,
                  λ z. absurd (
                      omega (
                        arith,
                        ap length e,
                        ap length z,
                        length-append s.buf rest,
                        length-append pad (stream (marker m) (p ∷ ps)),
                        length-append (marker m) (13 ∷ 10 ∷ tail),
                      )),
                )
        ]

  pub seek-Keeps :
      (s : MultipartAccumState) (rest : Bytes) (ps : Parts)
      → s.phase ≡ seek_boundary
      → s.boundary_marker ≡ marker m
      → All IsPart ps
      → Expects (marker m) seek_boundary s rest ps
      → Keeps (marker m) (turn_in seek_boundary s) rest ps
  seek-Keeps s rest [] q b a (pad, h, e) = seek_none-Keeps s rest pad q b h e
  seek-Keeps s rest (p ∷ ps) q b a (pad, h, e) = seek_some-Keeps s rest pad p ps q b a h e
