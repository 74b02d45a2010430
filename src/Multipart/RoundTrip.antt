-- ===== src/Multipart/RoundTrip.antt =====
-- A stream that a reader sends is parsed into its parts, however it is cut into chunks.
mod Expected
mod Seeking
mod Heading
mod Collecting
use face2go_server.Base.{
  ℕ, zero, suc, ◌+◌, ◌≤◌, ◌<◌, ◌≡◌, ◌∙◌, refl, sym, ap, subst, Option, none, some, List, [], ◌∷◌,
  ◌++◌, length, All, drop, arith, ◌⊎◌, inl, inr,
}
use mathlib.Core.List.{append_assoc, append-nil}
use face2go_server.Multipart.Bytes.{Bytes, concat, starts_with}
use face2go_server.Multipart.Parser.{
  MultipartPhase, seek_boundary, read_headers, read_body, MultipartAccumState,
  MultipartCompletedPart, Round, goes_on, leaves, Outcome, turn_in, loop, after_round, fuel_of,
  with_chunk, feed_multipart_stream, feed_all, create_multipart_state, joined, then_feed,
}
use face2go_server.Multipart.Ends.{Returns, feed-Returns}
use face2go_server.Multipart.Encoding.{IsPart, stream}
use face2go_server.Multipart.RoundTrip.Expected.{Parts, NoDash, Expects, Keeps}
use face2go_server.Multipart.RoundTrip.Seeking.{seek-Keeps}
use face2go_server.Multipart.RoundTrip.Heading.{headers-Keeps}
use face2go_server.Multipart.RoundTrip.Collecting.{body-Keeps}

-- What a call has completed, and what its state expects from the bytes after the chunk.
abbrev Delivers : Bytes → Outcome → Bytes → Parts → Type 0
Delivers m none rest ps = Unit {0}
Delivers m (some (s, completed)) rest ps =
    (later : Parts) × (ps ≡ completed ++ later)
    × All IsPart later
    × (s.boundary_marker ≡ m)
    × Expects m s.phase s rest later
    × (rest ≡ [] → later ≡ [])

module _ (m' : Bytes) where
  abbrev m : Bytes
  m = 45 ∷ m'

  turn-Keeps :
      (s : MultipartAccumState) (phase : MultipartPhase) (rest : Bytes) (ps : Parts)
      → s.phase ≡ phase
      → s.boundary_marker ≡ m
      → All IsPart ps
      → Expects m phase s rest ps
      → Keeps m (turn_in phase s) rest ps
  turn-Keeps s seek_boundary rest ps q b a e = seek-Keeps m' s rest ps q b a e
  turn-Keeps s read_headers rest ps q b a e = headers-Keeps m s rest ps q b a e
  turn-Keeps s read_body rest ps q b a e = body-Keeps m s rest ps q b a e

  abbrev DeliversFrom : (MultipartAccumState → Parts → Outcome) → Bytes → Parts → Type 0
  DeliversFrom run rest ps =
      (s : MultipartAccumState) (before later : Parts)
      → ps ≡ before ++ later
      → s.boundary_marker ≡ m
      → All IsPart later
      → Expects m s.phase s rest later
      → Delivers m (run s before) rest ps

  round-Delivers :
      (again : MultipartAccumState → Parts → Outcome) (rest : Bytes) (ps : Parts)
      → DeliversFrom again rest ps
      → (r : Round) (before later : Parts) → ps ≡ before ++ later
      → All IsPart later
      → Keeps m r rest later
      → Delivers m (after_round again before r) rest ps
  round-Delivers again rest ps ih (goes_on s parts) before later p a (others, q, a', b, e) =
      ih s (before ++ parts) others
        (p ∙ ap (λ l. before ++ l) q ∙ sym (append_assoc before parts others)) b a' e
  round-Delivers again rest ps ih (leaves s) before later p a (b, e, f) = (later, p, a, b, e, f)

  rest-Delivers :
      (again : MultipartAccumState → Option Parts) (rest : Bytes) (ps : Parts)
      → ((s : MultipartAccumState) (later : Parts)
          → s.boundary_marker ≡ m
          → All IsPart later
          → Expects m s.phase s rest later
          → (rest ≡ [] → later ≡ [])
          → again s ≡ some later)
      → (o : Outcome) → Returns o
      → Delivers m o rest ps
      → then_feed again o ≡ some ps
  rest-Delivers again rest ps ih none r d = absurd r
  rest-Delivers again rest ps ih (some (s, completed)) r (later, p, a, b, e, f) =
      ap (joined completed) (ih s later b a e f) ∙ ap some (sym p)

  loop-Delivers : (fuel : ℕ) (rest : Bytes) (ps : Parts) → DeliversFrom (loop fuel) rest ps
  unfolding loop
  loop-Delivers zero rest ps s before later p b a e = tt
  loop-Delivers (suc fuel) rest ps s before later p b a e =
      round-Delivers (loop fuel) rest ps (loop-Delivers fuel rest ps) (turn_in s.phase s) before
        later p a (turn-Keeps s s.phase rest later refl b a e)

  with_chunk-Expects :
      (s : MultipartAccumState) (phase : MultipartPhase) (chunk rest : Bytes) (ps : Parts)
      → Expects m phase s (chunk ++ rest) ps
      → Expects m phase (with_chunk s chunk) rest ps
  with_chunk-Expects s seek_boundary chunk rest ps (pad, h, e) =
      (pad, h, append_assoc s.buf chunk rest ∙ e)
  with_chunk-Expects s read_headers chunk rest [] h = absurd h
  with_chunk-Expects s read_headers chunk rest (p ∷ ps) (left, r, e) =
      (left, r, append_assoc s.buf chunk rest ∙ e)
  with_chunk-Expects s read_body chunk rest [] h = absurd h
  with_chunk-Expects s read_body chunk rest (p ∷ ps) (t, c, r, short, e) =
      (t, c, r, short, ap (λ l. concat s.body_parts ++ l) (append_assoc s.buf chunk rest) ∙ e)

  feed-Delivers :
      (s : MultipartAccumState) (chunk rest : Bytes) (ps : Parts)
      → s.boundary_marker ≡ m
      → All IsPart ps
      → Expects m s.phase s (chunk ++ rest) ps
      → Delivers m (feed_multipart_stream s chunk) rest ps
  unfolding feed_multipart_stream
  feed-Delivers s chunk rest ps b a e =
      loop-Delivers (fuel_of (with_chunk s chunk)) rest ps (with_chunk s chunk) [] ps refl b a
        (with_chunk-Expects s s.phase chunk rest ps e)

  feed_all-Delivers :
      (chunks : List Bytes) (s : MultipartAccumState) (ps : Parts)
      → s.boundary_marker ≡ m
      → All IsPart ps
      → Expects m s.phase s (concat chunks) ps
      → (concat chunks ≡ [] → ps ≡ [])
      → feed_all chunks s ≡ some ps
  unfolding feed_all
  feed_all-Delivers [] s ps b a e f = ap some (sym (f refl))
  feed_all-Delivers (chunk ∷ chunks) s ps b a e f =
      rest-Delivers (feed_all chunks) (concat chunks) ps
        (λ s' later. feed_all-Delivers chunks s' later) (feed_multipart_stream s chunk)
        (feed-Returns s chunk (subst (λ l. 1 ≤ length l) (sym b) (omega arith)))
        (feed-Delivers s chunk (concat chunks) ps b a e)

stream-eq-nil : (m pad : Bytes) (ps : Parts) → pad ++ stream (45 ∷ m) ps ≡ [] → ps ≡ []
stream-eq-nil m pad [] e = refl
stream-eq-nil m [] (p ∷ ps) e = absurd (omega (arith, ap length e))
stream-eq-nil m (x ∷ pad) (p ∷ ps) e = absurd (omega (arith, ap length e))

-- A stream of parts, behind a preamble with no hyphen, is parsed into exactly these parts, in
-- their order, with their types and bodies, wherever it is cut into chunks. A part is a boundary
-- line, the headers Content-Type and Content-Length, an empty line, the body and a line break;
-- its type is printable ASCII without spaces and semicolons, of 1 to 65000 bytes, and its body
-- has at least one byte and less than 2 ^ 53. The body may hold the boundary.
pub feed_all-stream :
    (boundary preamble : Bytes) (ps : Parts) (chunks : List Bytes)
    → NoDash preamble
    → All IsPart ps
    → concat chunks ≡ preamble ++ stream (create_multipart_state boundary).boundary_marker ps
    → feed_all chunks (create_multipart_state boundary) ≡ some ps
unfolding create_multipart_state
feed_all-stream boundary preamble ps chunks h a e =
    let s = create_multipart_state boundary in
    let m = drop 1 s.boundary_marker in
    feed_all-Delivers m chunks s ps refl a (preamble, h, e)
      (λ z. stream-eq-nil m preamble ps (sym e ∙ z))
