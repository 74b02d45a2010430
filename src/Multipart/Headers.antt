-- ===== src/Multipart/Headers.antt =====
-- The headers of a part, as in src/face-listener/hikvision-multipart-json.parser.ts.
use face2go_server.Base.{
  ℕ, ◌+◌, ◌-◌, ◌^◌, Bool, true, false, ◌&&◌, Option, none, some, List, [], ◌∷◌, ◌==◌, leb, ltb,
  if◌then◌else◌, all, any,
}
use face2go_server.Base.{String}
use face2go_server.Multipart.Bytes.{
  Bytes, index_of, is_space, is_line_end, is_digit, take_while, drop_while, trim, parse_int,
  split_lines,
}
use Prim.Native.Char.{code}

-- the bytes of an ASCII text
abbrev pub codes : String → Bytes
codes String.[] = []
codes (String.◌∷◌ c s) = code c ∷ codes s

abbrev pub crlf_crlf : Bytes
crlf_crlf = 13 ∷ 10 ∷ 13 ∷ 10 ∷ []

abbrev pub lf_lf : Bytes
lf_lf = 10 ∷ 10 ∷ []

pub record Separator : Type 0 where
  pub header_len : ℕ
  pub sep_len : ℕ

abbrev separator_lf : Option ℕ → Option Separator
separator_lf (some lf) = some (record { header_len = lf; sep_len = 2 })
separator_lf none = none

abbrev separator_crlf : Bytes → Option ℕ → Option Separator
separator_crlf buf (some crlf) = some (record { header_len = crlf; sep_len = 4 })
separator_crlf buf none = separator_lf (index_of lf_lf buf)

unfoldable pub find_headers_separator : Bytes → Option Separator
find_headers_separator buf = separator_crlf buf (index_of crlf_crlf buf)

to_lower : ℕ → ℕ
to_lower c = if leb b'A' c && leb c b'Z' then c + 32 else c

-- The text behind a name that the `i` flag matches in any case; the name is in lower case.
unfoldable pub strip_name : Bytes → Bytes → Option Bytes
unfolding to_lower
strip_name [] line = some line
strip_name (c ∷ name) [] = none
strip_name (c ∷ name) (x ∷ line) =
    let rest = strip_name name line in if c == to_lower x then rest else none

-- `\s*` gives back its last byte where nothing else is left for `.+`.
last_space : Bytes → Option Bytes
last_space [] = none
last_space (c ∷ []) = if is_line_end c then none else some (c ∷ [])
last_space (c ∷ d ∷ cs) = last_space (d ∷ cs)

-- what `\s*(.+)$` captures, but for spaces at the front, which are trimmed
unfoldable pub captured : Bytes → Bytes → Option Bytes
unfolding last_space
captured after [] = last_space after
captured after (c ∷ cs) = if any is_line_end (c ∷ cs) then none else some (c ∷ cs)

abbrev pub not_semicolon : ℕ → Bool
not_semicolon c = if c == b';' then false else true

abbrev pub media_type : Option Bytes → Option Bytes
media_type none = none
media_type (some value) = some (trim (take_while not_semicolon (trim value)))

abbrev pub after_content_type : Option Bytes → Option Bytes
after_content_type none = none
after_content_type (some after) = media_type (captured after (drop_while is_space after))

-- `/^Content-Type:\s*(.+)$/i`
unfoldable pub content_type_of : Bytes → Option Bytes
unfolding strip_name captured
content_type_of line = after_content_type (strip_name (codes "content-type:") line)

abbrev is_empty : Bytes → Bool
is_empty [] = true
is_empty (c ∷ cs) = false

abbrev pub number_of : Bytes → Option ℕ
number_of after =
    if is_empty (take_while is_digit after)
    then none
    else if all is_space (drop_while is_digit after)
    then some (parse_int (take_while is_digit after))
    else none

abbrev pub after_content_length : Option Bytes → Option ℕ
after_content_length none = none
after_content_length (some after) = number_of (drop_while is_space after)

-- `/^Content-Length:\s*(\d+)\s*$/i`
unfoldable pub content_length_of : Bytes → Option ℕ
unfolding strip_name
content_length_of line = after_content_length (strip_name (codes "content-length:") line)

pub record PartHeaders : Type 0 where
  pub content_type : Option Bytes
  pub content_length : Option ℕ

abbrev pub newer {ℓ} : {A : Type ℓ} → Option A → Option A → Option A
newer (some a) old = some a
newer none old = old

-- one round of the loop over the lines
unfoldable pub read_line : Bytes → PartHeaders → PartHeaders
read_line line h = record h {
  content_type = newer (content_type_of line) h.content_type;
  content_length = newer (content_length_of line) h.content_length;
}

unfoldable pub read_lines : List Bytes → PartHeaders → PartHeaders
read_lines [] h = h
read_lines (line ∷ lines) h = read_lines lines (read_line line h)

unfoldable pub parse_headers_text : Bytes → PartHeaders
parse_headers_text text =
    read_lines (split_lines text) (record { content_type = none; content_length = none })

-- `Number.isFinite`, for a natural number that `parseInt` rounds
unfoldable pub is_finite : ℕ → Bool
is_finite n = ltb n (2 ^ 1024 - 2 ^ 970)
