-- ===== src/Multipart/RoundTrip/Heading.antt =====
-- A round that reads the headers of a part.
use face2go_server.Base.{
  ℕ, ◌+◌, ◌^◌, ◌≤◌, ◌<◌, ◌≡◌, ◌∙◌, refl, sym, ap, true, false, none, some, [], ◌∷◌, ◌++◌, inl, inr,
  length, take, drop, All, drop-append, take-append, drop-length-append, take-length-append,
  append-drop_of_le, length-append, Option-cases, ltb, arith,
}
use mathlib.Core.List.{append_assoc}
use face2go_server.Multipart.Bytes.{Bytes, index_of}
use face2go_server.Multipart.Headers.{find_headers_separator, crlf_crlf, lf_lf, is_finite}
use face2go_server.Multipart.Parser.{
  read_headers, MultipartAccumState, MultipartCompletedPart, turn_in, max_header,
}
use face2go_server.Multipart.Search.{index_of-append, index_of-buffer}
use face2go_server.Multipart.Encoding.{
  LineRest, nothing, line_feed, whole, IsPart, header, stream, parse-header, header-short,
  index_of-header, index_of-header-none,
}
use face2go_server.Multipart.RoundTrip.Expected.{Parts, from_headers, Expects, Keeps}

rest-length : {left : Bytes} → LineRest left → length left ≤ 2
rest-length nothing = omega arith
rest-length line_feed = omega arith
rest-length whole = omega arith

finite-sized : (n : ℕ) → n < 2 ^ 53 → is_finite n ≡ true
unfolding is_finite
finite-sized n h = ground arith

-- The buffer, cut where the headers end.
module _ (buf rest text tail : Bytes) (e : buf ++ rest ≡ text ++ (crlf_crlf ++ tail)) where
  header_text : length text + 4 ≤ length buf → take (length text) buf ≡ text
  header_text l =
      sym (take-append (length text) buf rest (omega arith))
      ∙ ap (take (length text)) e
      ∙ take-length-append text (crlf_crlf ++ tail)

  after_headers : length text + 4 ≤ length buf → drop (length text + 4) buf ++ rest ≡ tail
  after_headers l =
      sym (drop-append (length text + 4) buf rest l)
      ∙ ap (drop (length text + 4)) (e ∙ sym (append_assoc text crlf_crlf tail))
      ∙ ap (λ i. drop i ((text ++ crlf_crlf) ++ tail)) (sym (length-append text crlf_crlf))
      ∙ drop-length-append (text ++ crlf_crlf) tail

  no_lf_lf :
      index_of lf_lf (text ++ (13 ∷ 10 ∷ 13 ∷ [])) ≡ none
      → length buf < length text + 4
      → index_of lf_lf buf ≡ none
  no_lf_lf h l =
      let begun = text ++ (13 ∷ 10 ∷ 13 ∷ []) in
      let whole =
        append-drop_of_le buf rest begun (10 ∷ tail)
          (e ∙ sym (append_assoc text (13 ∷ 10 ∷ 13 ∷ []) (10 ∷ tail)))
          (omega (arith, length-append text (13 ∷ 10 ∷ 13 ∷ []))) in
      elim (Option-cases (index_of lf_lf buf)) [
        | inl n ↦ n
        | inr (i, f) ↦ absurd (
            ground (
              arith,
              index_of-append lf_lf buf (drop (length buf) begun) i f,
              ap (index_of lf_lf) whole,
              h,
            ))
      ]

found_separator :
    (buf : Bytes) (i : ℕ)
    → index_of crlf_crlf buf ≡ some i
    → find_headers_separator buf ≡ some (record { header_len = i; sep_len = 4 })
unfolding find_headers_separator
found_separator buf i h = rw h

no_separator :
    (buf : Bytes)
    → index_of crlf_crlf buf ≡ none
    → index_of lf_lf buf ≡ none
    → find_headers_separator buf ≡ none
unfolding find_headers_separator
no_separator buf h k = rw (h, k)

module _ (m : Bytes) (s : MultipartAccumState) (rest left : Bytes) (p : MultipartCompletedPart)
    (ps : Parts) (q : s.phase ≡ read_headers) (b : s.boundary_marker ≡ m) (a : All IsPart (p ∷ ps))
    (r : LineRest left) (e : s.buf ++ rest ≡ left ++ from_headers m p ps) where
  abbrev text : Bytes
  text = left ++ header p.content_type (length p.body)

  abbrev tail : Bytes
  tail = p.body ++ (13 ∷ 10 ∷ stream m ps)

  split : s.buf ++ rest ≡ text ++ (crlf_crlf ++ tail)
  split = e ∙ sym (append_assoc left (header p.content_type (length p.body)) (crlf_crlf ++ tail))

  headers_found :
      length text + 4 ≤ length s.buf
      → index_of crlf_crlf s.buf ≡ some (length text)
      → Keeps m (turn_in read_headers s) rest (p ∷ ps)
  unfolding turn_in
  headers_found l f =
      let (part, others) = a in
      rw
        (
          found_separator s.buf (length text) f,
          header_text s.buf rest text tail split l,
          parse-header p.content_type (length p.body) r part.token part.named,
          finite-sized (length p.body) part.sized,
        )
        (
          p ∷ ps,
          refl,
          a,
          b,
          (refl, refl, refl, part.filled, after_headers s.buf rest text tail split l),
        )

  text-length : length text ≤ 2 + length p.content_type + 49
  text-length =
      let (part, others) = a in
      omega (
        arith,
        rest-length r,
        length-append left (header p.content_type (length p.body)),
        header-short p.content_type (length p.body) part.sized,
      )

  headers_missing :
      length s.buf < length text + 4
      → index_of crlf_crlf s.buf ≡ none
      → Keeps m (turn_in read_headers s) rest (p ∷ ps)
  unfolding turn_in
  headers_missing l f =
      let (part, others) = a in
      let none_yet =
        no_lf_lf s.buf rest text tail split
          (ap (index_of lf_lf)
              (append_assoc left (header p.content_type (length p.body)) (13 ∷ 10 ∷ 13 ∷ []))
            ∙ index_of-header-none p.content_type (length p.body) r part.token)
          l in
      let short : ltb max_header (length s.buf) ≡ false =
        ground (arith, text-length, part.short, l) in
      rw (no_separator s.buf f none_yet, short, q)
        (
          b,
          (left, r, e),
          λ z. absurd (
              omega (
                arith,
                ap length split,
                ap length z,
                length-append s.buf rest,
                length-append text (crlf_crlf ++ tail),
                length-append crlf_crlf tail,
              )),
        )

  heading-Keeps : Keeps m (turn_in read_headers s) rest (p ∷ ps)
  heading-Keeps =
      let (part, others) = a in
      let at_end =
        index_of-header p.content_type (length p.body) tail r part.token
        ∙ ap some (sym (length-append left (header p.content_type (length p.body)))) in
      elim (index_of-buffer crlf_crlf s.buf rest _ (length text) e at_end) [
        | inl (f, l) ↦ headers_found l f
        | inr (f, l) ↦ headers_missing l f
      ]

pub headers-Keeps :
    (m : Bytes) (s : MultipartAccumState) (rest : Bytes) (ps : Parts)
    → s.phase ≡ read_headers
    → s.boundary_marker ≡ m
    → All IsPart ps
    → Expects m read_headers s rest ps
    → Keeps m (turn_in read_headers s) rest ps
headers-Keeps m s rest [] q b a h = absurd h
headers-Keeps m s rest (p ∷ ps) q b a (left, r, e) = heading-Keeps m s rest left p ps q b a r e
