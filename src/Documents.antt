-- ===== src/Documents.antt =====
-- src/common/utils/document.ts: CPF and CNPJ numbers. A text is the list of its UTF-16 code units.
pub mod Digits
pub mod Format
use face2go_server.Base.{
  ℕ, zero, suc, ◌+◌, ◌-◌, ◌*◌, ◌%◌, Bool, true, false, List, [], ◌∷◌, ◌++◌, not, ◌&&◌, ◌||◌, all,
  filter, length, take, drop, get_elem?, Option, none, some, ltb, leb, ◌==◌, if◌then◌else◌,
}

abbrev pub Text : Type 0
Text = List ℕ

abbrev pub is_digit : ℕ → Bool
is_digit c = leb b'0' c && leb c b'9'

-- `value.replace(/\D/g, '')`
unfoldable pub only_digits : Text → Text
only_digits value = filter is_digit value

unfoldable pub normalize_cpf : Text → Text
unfolding only_digits
normalize_cpf value = only_digits value

-- `/^(\d)\1+$/`, which wants two digits at least
unfoldable pub all_same_digits : Text → Bool
all_same_digits [] = false
all_same_digits (c ∷ []) = false
all_same_digits (c ∷ d ∷ ds) = is_digit c && all (λ x. x == c) (d ∷ ds)

-- `Number(digits[i])`, of a digit
abbrev pub digit_value : ℕ → ℕ
digit_value c = c - 48

-- The weighted sum; both lists go on together, as the index does.
unfoldable pub weighted_sum : Text → List ℕ → ℕ
weighted_sum digits [] = 0
weighted_sum [] (w ∷ ws) = 0
weighted_sum (c ∷ digits) (w ∷ ws) = digit_value c * w + weighted_sum digits ws

unfoldable pub mod11_check_digit : Text → List ℕ → ℕ
unfolding weighted_sum
mod11_check_digit digits weights =
    let rest = weighted_sum digits weights % 11 in if ltb rest 2 then 0 else 11 - rest

abbrev pub cpf_weights1 : List ℕ
cpf_weights1 = 10 ∷ 9 ∷ 8 ∷ 7 ∷ 6 ∷ 5 ∷ 4 ∷ 3 ∷ 2 ∷ []

abbrev pub cpf_weights2 : List ℕ
cpf_weights2 = 11 ∷ cpf_weights1

abbrev pub cnpj_weights1 : List ℕ
cnpj_weights1 = 5 ∷ 4 ∷ 3 ∷ 2 ∷ 9 ∷ 8 ∷ 7 ∷ 6 ∷ 5 ∷ 4 ∷ 3 ∷ 2 ∷ []

abbrev pub cnpj_weights2 : List ℕ
cnpj_weights2 = 6 ∷ cnpj_weights1

-- `check === Number(digits[i])`
abbrev pub is_digit_at : Text → ℕ → ℕ → Bool
is_digit_at digits i check = elim (get_elem? digits i) [
  | none ↦ false
  | some c ↦ check == digit_value c
]

unfoldable pub is_valid_cpf : Text → Bool
is_valid_cpf value =
    let digits = only_digits value in
    not (not (length digits == 11) || all_same_digits digits)
    && (is_digit_at digits 9 (mod11_check_digit digits cpf_weights1)
        && is_digit_at digits 10 (mod11_check_digit digits cpf_weights2))

unfoldable pub is_valid_cnpj : Text → Bool
is_valid_cnpj value =
    let digits = only_digits value in
    not (not (length digits == 14) || all_same_digits digits)
    && (is_digit_at digits 12 (mod11_check_digit digits cnpj_weights1)
        && is_digit_at digits 13 (mod11_check_digit digits cnpj_weights2))

unfoldable pub is_valid_cpf_or_cnpj : Text → Bool
is_valid_cpf_or_cnpj value =
    let digits = only_digits value in
    if length digits == 11
    then is_valid_cpf digits
    else if length digits == 14
    then is_valid_cnpj digits
    else false

-- `s.slice(i, j)`, for i below j
abbrev pub slice : Text → ℕ → ℕ → Text
slice s i j = take (j - i) (drop i s)

unfoldable pub format_cnpj : Text → Text
format_cnpj value =
    let d = take 14 (only_digits value) in
    if leb (length d) 2
    then d
    else if leb (length d) 5
    then slice d 0 2 ++ b'.' ∷ drop 2 d
    else if leb (length d) 8
    then slice d 0 2 ++ b'.' ∷ slice d 2 5 ++ b'.' ∷ drop 5 d
    else if leb (length d) 12
    then slice d 0 2 ++ b'.' ∷ slice d 2 5 ++ b'.' ∷ slice d 5 8 ++ b'/' ∷ drop 8 d
    else slice d 0 2
      ++ b'.' ∷ slice d 2 5
      ++ b'.' ∷ slice d 5 8
      ++ b'/' ∷ slice d 8 12
      ++ b'-' ∷ drop 12 d
