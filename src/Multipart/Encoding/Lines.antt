-- ===== src/Multipart/Encoding/Lines.antt =====
-- The headers in which a reader announces a part are read back.
use face2go_server.Base.{
  ℕ, ◌≤◌, ◌≡◌, ◌≢◌, ◌∙◌, refl, ap, Bool, true, false, none, some, [], ◌∷◌, ◌++◌, length, All,
  All-imp, All-append, any, arith,
}
use mathlib.Core.Path.{◌≡⟨◌⟩◌, ◌∎}
use face2go_server.Multipart.Bytes.{
  Bytes, split_lines, trim, trim_end, take_while, drop_while, is_space, is_digit, is_line_end,
  starts_with, parse_int,
}
use face2go_server.Multipart.Headers.{
  codes, content_type_of, content_length_of, read_line, read_lines, parse_headers_text,
  not_semicolon, captured, number_of, media_type, after_content_type,
}
use face2go_server.Multipart.Encoding.Parts.{IsTokenByte, header}
use face2go_server.Multipart.Encoding.Digits.{
  decimal_bytes, IsDigit, decimal-IsDigit, parse_int-decimal, decimal-length-pos,
}

abbrev pub IsPlain : ℕ → Type 0
IsPlain c = (c ≢ 10) × (c ≢ 13)

split_lines-line :
    (xs ys : Bytes) → All IsPlain xs → split_lines (xs ++ (13 ∷ 10 ∷ ys)) ≡ xs ∷ split_lines ys
unfolding split_lines starts_with
split_lines-line [] ys h = refl
split_lines-line (x ∷ xs) ys (p, h) = ground (arith, p.0, p.1, split_lines-line xs ys h)

split_lines-last : (xs : Bytes) → All IsPlain xs → split_lines xs ≡ xs ∷ []
unfolding split_lines starts_with
split_lines-last [] h = refl
split_lines-last (x ∷ xs) (p, h) = ground (arith, p.0, p.1, split_lines-last xs h)

module _ (p : ℕ → Bool) where
  take_while-eq : (xs : Bytes) → All (λ x. p x ≡ true) xs → take_while p xs ≡ xs
  take_while-eq [] h = refl
  take_while-eq (x ∷ xs) (e, h) = rw e (ap (λ ys. x ∷ ys) (take_while-eq xs h))

  drop_while-nil : (xs : Bytes) → All (λ x. p x ≡ true) xs → drop_while p xs ≡ []
  drop_while-nil [] h = refl
  drop_while-nil (x ∷ xs) (e, h) = rw e (drop_while-nil xs h)

  drop_while_none : (xs : Bytes) → All (λ x. p x ≡ false) xs → drop_while p xs ≡ xs
  drop_while_none [] h = refl
  drop_while_none (x ∷ xs) (e, h) = rw e

  any_none : (xs : Bytes) → All (λ x. p x ≡ false) xs → any p xs ≡ false
  any_none [] h = refl
  any_none (x ∷ xs) (e, h) = rw e (any_none xs h)

abbrev NoSpace : ℕ → Type 0
NoSpace c = is_space c ≡ false

trim_end_none : (xs : Bytes) → All NoSpace xs → trim_end xs ≡ xs
unfolding trim_end
trim_end_none [] h = refl
trim_end_none (x ∷ []) (e, h) = rw e
trim_end_none (x ∷ y ∷ xs) (e, h) = rw (trim_end_none (y ∷ xs) h)

trim_none : (xs : Bytes) → All NoSpace xs → trim xs ≡ xs
unfolding trim
trim_none xs h = rw (drop_while_none is_space xs h) (trim_end_none xs h)

token-NoSpace : (c : ℕ) → IsTokenByte c → NoSpace c
unfolding is_space
token-NoSpace c h = ground arith

token-line : (c : ℕ) → IsTokenByte c → is_line_end c ≡ false
unfolding is_line_end
token-line c h = ground arith

token-semicolon : (c : ℕ) → IsTokenByte c → not_semicolon c ≡ true
token-semicolon c h = ground arith

digit-NoSpace : (c : ℕ) → IsDigit c → NoSpace c
unfolding is_space
digit-NoSpace c h = ground arith

digit-is_digit : (c : ℕ) → IsDigit c → is_digit c ≡ true
unfolding is_digit
digit-is_digit c h = ground arith

token-IsPlain : (c : ℕ) → IsTokenByte c → IsPlain c
token-IsPlain c h = (λ e. omega arith, λ e. omega arith)

digit-IsPlain : (c : ℕ) → IsDigit c → IsPlain c
digit-IsPlain c h = (λ e. omega arith, λ e. omega arith)

space_front : (xs : Bytes) → drop_while is_space (32 ∷ xs) ≡ drop_while is_space xs
unfolding is_space
space_front xs = refl

captured-token : (after t : Bytes) → All IsTokenByte t → 1 ≤ length t → captured after t ≡ some t
unfolding captured
captured-token after [] h l = absurd (omega arith)
captured-token after (c ∷ t) h l =
    rw (any_none is_line_end (c ∷ t) (All-imp IsTokenByte _ token-line (c ∷ t) h))

content_type_of-header :
    (t : Bytes)
    → All IsTokenByte t
    → 1 ≤ length t
    → content_type_of (codes "Content-Type: " ++ t) ≡ some t
unfolding content_type_of
content_type_of-header t h l =
    let spaces : All NoSpace t = All-imp IsTokenByte NoSpace token-NoSpace t h in
    let front : drop_while is_space (32 ∷ t) ≡ t =
      space_front t ∙ drop_while_none is_space t spaces in
    after_content_type (some (32 ∷ t))
    ≡⟨ ap (λ v. media_type (captured (32 ∷ t) v)) front ⟩ media_type (captured (32 ∷ t) t)
    ≡⟨ ap media_type (captured-token (32 ∷ t) t h l) ⟩
      some (trim (take_while not_semicolon (trim t)))
    ≡⟨ ap (λ v. some (trim (take_while not_semicolon v))) (trim_none t spaces) ⟩
      some (trim (take_while not_semicolon t))
    ≡⟨ ap (λ v. some (trim v))
        (take_while-eq not_semicolon t (All-imp IsTokenByte _ token-semicolon t h)) ⟩
      some (trim t)
    ≡⟨ ap some (trim_none t spaces) ⟩ some t ∎

-- The other header is not taken for this one.
content_length_of-type : (t : Bytes) → content_length_of (codes "Content-Type: " ++ t) ≡ none
unfolding content_length_of
content_length_of-type t = refl

content_type_of-length : (t : Bytes) → content_type_of (codes "Content-Length: " ++ t) ≡ none
unfolding content_type_of
content_type_of-length t = refl

number_of-digits : (d : Bytes) → All IsDigit d → 1 ≤ length d → number_of d ≡ some (parse_int d)
number_of-digits [] h l = absurd (omega arith)
number_of-digits (c ∷ d) h l =
    let digits = All-imp IsDigit (λ x. is_digit x ≡ true) digit-is_digit (c ∷ d) h in
    rw (take_while-eq is_digit (c ∷ d) digits, drop_while-nil is_digit (c ∷ d) digits)

content_length_of-header :
    (n : ℕ) → content_length_of (codes "Content-Length: " ++ decimal_bytes n) ≡ some n
unfolding content_length_of
content_length_of-header n =
    let d = decimal_bytes n in
    let spaces = All-imp IsDigit NoSpace digit-NoSpace d (decimal-IsDigit n) in
    let front : drop_while is_space (32 ∷ d) ≡ d =
      space_front d ∙ drop_while_none is_space d spaces in
    ap number_of front
    ∙ number_of-digits d (decimal-IsDigit n) (decimal-length-pos n)
    ∙ ap some (parse_int-decimal n)

-- What is left of the boundary line if the buffer ended within it.
pub data LineRest : Bytes → Type 0 where
  nothing : LineRest []
  line_feed : LineRest (10 ∷ [])
  whole : LineRest (13 ∷ 10 ∷ [])

abbrev pub type_line : Bytes → Bytes
type_line t = codes "Content-Type: " ++ t

abbrev pub length_line : ℕ → Bytes
length_line n = codes "Content-Length: " ++ decimal_bytes n

pub type_line-IsPlain : (t : Bytes) → All IsTokenByte t → All IsPlain (type_line t)
type_line-IsPlain t h =
    All-append IsPlain (codes "Content-Type: ") t (omega arith)
      (All-imp IsTokenByte IsPlain token-IsPlain t h)

pub length_line-IsPlain : (n : ℕ) → All IsPlain (length_line n)
length_line-IsPlain n =
    All-append IsPlain (codes "Content-Length: ") (decimal_bytes n) (omega arith)
      (All-imp IsDigit IsPlain digit-IsPlain (decimal_bytes n) (decimal-IsDigit n))

split_lines-header :
    (t : Bytes) (n : ℕ)
    → All IsTokenByte t
    → split_lines (header t n) ≡ type_line t ∷ length_line n ∷ []
split_lines-header t n h =
    split_lines-line (type_line t) (length_line n) (type_line-IsPlain t h)
    ∙ ap (λ ls. type_line t ∷ ls) (split_lines-last (length_line n) (length_line-IsPlain n))

split_lines-rest :
    {left : Bytes} (xs : Bytes)
    → LineRest left
    → (read_lines (split_lines (left ++ xs)) (record { content_type = none; content_length = none })
        ≡ read_lines (split_lines xs) (record { content_type = none; content_length = none }))
unfolding split_lines read_lines read_line content_type_of content_length_of starts_with
split_lines-rest xs nothing = refl
split_lines-rest xs line_feed = refl
split_lines-rest xs whole = refl

-- The two headers are read back, also with a rest of the boundary line in front.
pub parse-header :
    {left : Bytes} (t : Bytes) (n : ℕ)
    → LineRest left
    → All IsTokenByte t
    → 1 ≤ length t
    → (parse_headers_text (left ++ header t n)
        ≡ record { content_type = some t; content_length = some n })
unfolding parse_headers_text read_lines read_line
parse-header t n r h l =
    split_lines-rest (header t n) r
    ∙ rw (
      split_lines-header t n h,
      content_type_of-header t h l,
      content_length_of-type t,
      content_type_of-length (decimal_bytes n),
      content_length_of-header n,
    )
