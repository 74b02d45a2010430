-- ===== src/Multipart/Snap.antt =====
-- The SnapManager's streams, src/face-listener/snap-stream.parser.ts: the parser of parts at the
-- fixed boundary, the text part, and the image cut from its part.
use face2go_server.Base.{
  ℕ, suc, Bool, true, false, ◌&&◌, ◌||◌, Option, none, some, List, [], ◌∷◌, ◌==◌, if◌then◌else◌,
  take, drop,
}
use face2go_server.Multipart.Bytes.{Bytes, trim, split_lines, index_of}
use face2go_server.Multipart.Headers.{codes}
use face2go_server.Multipart.Parser.{
  MultipartAccumState, Outcome, create_multipart_state, feed_multipart_stream,
}

unfoldable pub create_snap_multipart_state : MultipartAccumState
create_snap_multipart_state = create_multipart_state (codes "myboundary")

unfoldable pub feed_snap_multipart : MultipartAccumState → Bytes → Outcome
feed_snap_multipart s chunk = feed_multipart_stream s chunk

unfoldable pub same_bytes : Bytes → Bytes → Bool
same_bytes [] [] = true
same_bytes (x ∷ xs) (y ∷ ys) = x == y && same_bytes xs ys
same_bytes xs ys = false

-- A `Map` of texts, in the order of insertion.
abbrev pub TextMap : Type 0
TextMap = List (Bytes × Bytes)

-- `map.get(key)`
unfoldable pub get : Bytes → TextMap → Option Bytes
get key [] = none
get key ((k, v) ∷ m) = let rest = get key m in if same_bytes k key then some v else rest

-- `map.set(key, value)`
unfoldable pub set : Bytes → Bytes → TextMap → TextMap
set key value [] = (key, value) ∷ []
set key value ((k, v) ∷ m) =
    let rest = (k, v) ∷ set key value m in if same_bytes k key then (k, value) ∷ m else rest

abbrev entry : Bytes → Option ℕ → TextMap → TextMap
entry trimmed none m = m
entry trimmed (some eq) m =
    let key = trim (take eq trimmed) in
    if same_bytes key [] then m else set key (trim (drop (suc eq) trimmed)) m

-- one round of the loop over the lines
unfoldable pub text_line : Bytes → TextMap → TextMap
text_line line m =
    let trimmed = trim line in
    if same_bytes trimmed [] || same_bytes trimmed (codes "Heartbeat")
    then m
    else entry trimmed (index_of (b'=' ∷ []) trimmed) m

text_lines : List Bytes → TextMap → TextMap
text_lines [] m = m
text_lines (line ∷ lines) m = text_lines lines (text_line line m)

abbrev without_mark : Bytes → Bytes
without_mark [] = []
without_mark (c ∷ cs) = if c == 0xFEFF then cs else c ∷ cs

unfoldable pub parse_snap_manager_text_part : Bytes → TextMap
unfolding text_lines
parse_snap_manager_text_part text = text_lines (split_lines (without_mark text)) []
