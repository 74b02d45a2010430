-- ===== src/Multipart/Bytes.antt =====
-- What the stream parsers use of JavaScript's buffers and strings. A buffer is the list of its
-- bytes, and a text decoded as latin1 the list of the same numbers.
use face2go_server.Base.{
  ℕ, suc, ◌+◌, ◌*◌, ◌-◌, Bool, true, false, ◌&&◌, ◌||◌, Option, none, some, List, [], ◌∷◌, ◌++◌,
  ◌==◌, leb, if◌then◌else◌,
}

abbrev pub Bytes : Type 0
Bytes = List ℕ

unfoldable pub starts_with : Bytes → Bytes → Bool
starts_with [] xs = true
starts_with (c ∷ m) [] = false
starts_with (c ∷ m) (x ∷ xs) = c == x && starts_with m xs

abbrev pub next_index : Option ℕ → Option ℕ
next_index none = none
next_index (some i) = some (suc i)

-- `buf.indexOf(m)`, with `none` for -1
unfoldable pub index_of : Bytes → Bytes → Option ℕ
unfolding starts_with
index_of m [] = if starts_with m [] then some 0 else none
index_of m (x ∷ xs) =
    let later = next_index (index_of m xs) in if starts_with m (x ∷ xs) then some 0 else later

-- `Buffer.concat(parts)`
abbrev pub concat : List Bytes → Bytes
concat [] = []
concat (p ∷ ps) = p ++ concat ps

-- `\s`, up to U+00FF; what `trim` removes
unfoldable pub is_space : ℕ → Bool
is_space c = leb 9 c && leb c 13 || c == 32 || c == 160

-- what `.` does not match
unfoldable pub is_line_end : ℕ → Bool
is_line_end c = c == 10 || c == 13

unfoldable pub is_digit : ℕ → Bool
is_digit c = leb b'0' c && leb c b'9'

abbrev pub take_while : (ℕ → Bool) → Bytes → Bytes
take_while p [] = []
take_while p (x ∷ xs) = let rest = x ∷ take_while p xs in if p x then rest else []

abbrev pub drop_while : (ℕ → Bool) → Bytes → Bytes
drop_while p [] = []
drop_while p (x ∷ xs) = let rest = drop_while p xs in if p x then rest else x ∷ xs

abbrev pub trimmed_item : ℕ → Bytes → Bytes
trimmed_item x [] = if is_space x then [] else x ∷ []
trimmed_item x (y ∷ ys) = x ∷ y ∷ ys

unfoldable pub trim_end : Bytes → Bytes
trim_end [] = []
trim_end (x ∷ xs) = trimmed_item x (trim_end xs)

-- `text.trim()`
unfoldable pub trim : Bytes → Bytes
unfolding trim_end
trim xs = trim_end (drop_while is_space xs)

-- the value of a text of decimal digits
abbrev pub digits_from : ℕ → Bytes → ℕ
digits_from n [] = n
digits_from n (c ∷ cs) = digits_from (n * 10 + (c - 48)) cs

-- `parseInt(digits, 10)`; the source's number is rounded from 2 ^ 53 on.
unfoldable pub parse_int : Bytes → ℕ
parse_int cs = digits_from 0 cs

abbrev first_line : ℕ → List Bytes → List Bytes
first_line c [] = (c ∷ []) ∷ []
first_line c (l ∷ ls) = (c ∷ l) ∷ ls

-- `text.split(/\r?\n/)`
unfoldable pub split_lines : Bytes → List Bytes
unfolding starts_with
split_lines [] = [] ∷ []
split_lines (c ∷ cs) =
    let rest = split_lines cs in
    if c == 10
    then [] ∷ rest
    else if c == 13 && starts_with (10 ∷ []) cs
    then rest
    else first_line c rest
