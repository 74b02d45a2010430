-- ===== src/Multipart/RoundTrip/Collecting.antt =====
-- A round that collects the body of a part.
use face2go_server.Base.{
  ℕ, zero, suc, ◌+◌, ◌-◌, ◌≤◌, ◌<◌, ◌≡◌, ◌∙◌, refl, sym, ap, subst, false, some, List, [], ◌∷◌,
  ◌++◌, inl, inr, length, take, drop, min, All, length-drop, length-append, take-append-drop,
  append_inj, Bool-cases, leb, or_else, arith,
}
use mathlib.Core.List.{append_assoc, append-nil}
use face2go_server.Multipart.Bytes.{Bytes, concat}
use face2go_server.Multipart.Parser.{
  read_body, MultipartAccumState, MultipartCompletedPart, taken, body_round, body_turn, turn_in,
}
use face2go_server.Multipart.Encoding.{IsPart, stream}
use face2go_server.Multipart.RoundTrip.Expected.{Parts, Expects, Keeps}

nil_of_length : (xs : Bytes) → length xs ≡ 0 → xs ≡ []
nil_of_length [] h = refl
nil_of_length (x ∷ xs) h = absurd (omega arith)

concat-append : (xs : List Bytes) (y : Bytes) → concat (xs ++ y ∷ []) ≡ concat xs ++ y
concat-append [] y = append-nil y
concat-append (x ∷ xs) y =
    ap (λ l. x ++ l) (concat-append xs y) ∙ sym (append_assoc x (concat xs) y)

-- The bytes that are taken from the buffer join those collected before.
taken-concat :
    (s : MultipartAccumState) (n : ℕ)
    → concat (taken s n).body_parts ++ (taken s n).buf ≡ concat s.body_parts ++ s.buf
taken-concat s zero = refl
taken-concat s (suc n) =
    ap (λ l. l ++ drop (suc n) s.buf) (concat-append s.body_parts (take (suc n) s.buf))
    ∙ append_assoc (concat s.body_parts) (take (suc n) s.buf) (drop (suc n) s.buf)
    ∙ ap (λ l. concat s.body_parts ++ l) (take-append-drop (suc n) s.buf)

taken-length : (s : MultipartAccumState) (n : ℕ) → length (taken s n).buf ≡ length s.buf - n
taken-length s zero = omega arith
taken-length s (suc n) = length-drop (suc n) s.buf

taken-received : (s : MultipartAccumState) (n : ℕ) → (taken s n).body_received ≡ s.body_received + n
taken-received s zero = omega arith
taken-received s (suc n) = refl

-- What taking bytes leaves alone.
taken-others :
    (s : MultipartAccumState) (n : ℕ)
    → ((taken s n).content_type ≡ s.content_type)
      × ((taken s n).content_length ≡ s.content_length)
      × ((taken s n).boundary_marker ≡ s.boundary_marker)
      × ((taken s n).phase ≡ s.phase)
taken-others s zero = (refl, refl, refl, refl)
taken-others s (suc n) = (refl, refl, refl, refl)

module _ (m : Bytes) (s : MultipartAccumState) (rest : Bytes) (p : MultipartCompletedPart)
    (ps : Parts) where
  abbrev after : Bytes
  after = 13 ∷ 10 ∷ stream m ps

  -- A round on the state after the bytes have been taken.
  round-Keeps :
      s.phase ≡ read_body
      → s.boundary_marker ≡ m
      → All IsPart (p ∷ ps)
      → s.content_type ≡ some p.content_type
      → s.content_length ≡ some (length p.body)
      → s.body_received ≡ length (concat s.body_parts)
      → concat s.body_parts ++ (s.buf ++ rest) ≡ p.body ++ after
      → s.body_received ≤ length p.body
      → (s.body_received < length p.body → s.buf ≡ [])
      → Keeps m (body_round s (length p.body)) rest (p ∷ ps)
  round-Keeps q b (part, others) t c r e l dry =
      elim (Bool-cases (leb (length p.body) s.body_received)) [
        | inl full ↦
            let (body, tail) =
              append_inj (concat s.body_parts) (s.buf ++ rest) p.body after e (ground arith) in
            rw full (ps, rw (t, body), others, b, (13 ∷ 10 ∷ [], omega arith, tail))
        | inr more ↦
            let short : s.body_received < length p.body = ground arith in
            rw (more, q)
              (
                b,
                (t, c, r, short, e),
                λ z. absurd (
                    omega (
                      arith,
                      r,
                      ap length e,
                      ap length z,
                      ap length (dry short),
                      length-append (concat s.body_parts) (s.buf ++ rest),
                      length-append s.buf rest,
                      length-append p.body after,
                    )),
              )
      ]

module _ (m : Bytes) (s : MultipartAccumState) (rest : Bytes) (p : MultipartCompletedPart)
    (ps : Parts) (q : s.phase ≡ read_body) (b : s.boundary_marker ≡ m) (a : All IsPart (p ∷ ps))
    (e : Expects m read_body s rest (p ∷ ps)) where
  abbrev need : ℕ
  need = min (length p.body - s.body_received) (length s.buf)

  taken-Keeps : Keeps m (body_round (taken s need) (length p.body)) rest (p ∷ ps)
  taken-Keeps =
      let (t, c, r, short, parts) = e in
      let s' = taken s need in
      let (same_type, same_length, same_marker, same_phase) = taken-others s need in
      let joined = taken-concat s need in
      round-Keeps m s' rest p ps (same_phase ∙ q) (same_marker ∙ b) a (same_type ∙ t)
        (same_length ∙ c)
        (omega (
          arith,
          ap length joined,
          length-append (concat s.body_parts) s.buf,
          length-append (concat s'.body_parts) s'.buf,
          taken-length s need,
          taken-received s need,
        ))
        (sym (append_assoc (concat s'.body_parts) s'.buf rest)
          ∙ ap (λ l. l ++ rest) joined
          ∙ append_assoc (concat s.body_parts) s.buf rest
          ∙ parts)
        (omega (arith, taken-received s need))
        (λ h. nil_of_length s'.buf (omega (arith, taken-received s need, taken-length s need)))

  collecting-Keeps : Keeps m (turn_in read_body s) rest (p ∷ ps)
  unfolding turn_in body_turn
  collecting-Keeps =
      let (t, c, r, short, parts) = e in
      let more : leb (length p.body) s.body_received ≡ false = ground (arith, short) in
      subst (λ len. Keeps m (body_turn s len) rest (p ∷ ps)) (sym (ap (λ o. or_else o 0) c))
        (rw more taken-Keeps)

pub body-Keeps :
    (m : Bytes) (s : MultipartAccumState) (rest : Bytes) (ps : Parts)
    → s.phase ≡ read_body
    → s.boundary_marker ≡ m
    → All IsPart ps
    → Expects m read_body s rest ps
    → Keeps m (turn_in read_body s) rest ps
body-Keeps m s rest [] q b a h = absurd h
body-Keeps m s rest (p ∷ ps) q b a h = collecting-Keeps m s rest p ps q b a h
