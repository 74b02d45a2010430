-- ===== src/Civil.antt =====
-- src/common/utils/birth-date.ts, and `calendarDateInOffset` of
-- src/common/parse-access-list-datetime.ts. A text is the list of its UTF-16 code units, and an
-- instant the number of milliseconds since 1970.
pub mod Parsing
pub mod Age
use face2go_server.Base.{
  ℕ, zero, suc, ◌+◌, ◌-◌, ◌*◌, ◌/◌, ◌%◌, ◌≤◌, ◌<◌, Bool, true, false, Option, none, some, List, [],
  ◌∷◌, ◌++◌, not, ◌&&◌, ◌||◌, is_some, take, ltb, leb, ◌==◌, if◌then◌else◌, ℤ, pos, negsuc, sub_ℕ,
}
use mathlib.Core.List.{reverse}
use face2go_server.Documents.{Text, is_digit, digit_value}

pub record Parts : Type 0 where
  pub y : ℕ
  pub m : ℕ
  pub d : ℕ

-- White space and line terminators, which `trim` removes.
abbrev pub is_space : ℕ → Bool
is_space c =
    (leb 9 c && leb c 13)
    || (c == 32
        || (c == 160
            || (c == 0x1680
                || ((leb 0x2000 c && leb c 0x200a)
                    || (c == 0x2028
                        || (c == 0x2029
                            || (c == 0x202f || (c == 0x205f || (c == 0x3000 || c == 0xfeff)))))))))

unfoldable pub trim_start : Text → Text
trim_start [] = []
trim_start (c ∷ s) = let rest = trim_start s in if is_space c then rest else c ∷ s

unfoldable pub trim : Text → Text
unfolding trim_start
trim s = reverse (trim_start (reverse (trim_start s)))

abbrev pub is_leap : ℕ → Bool
is_leap y = y % 4 == 0 && (not (y % 100 == 0) || y % 400 == 0)

-- `daysInMonth[m - 1]`, for a month within the twelve
abbrev pub days_in_month : ℕ → ℕ → ℕ
days_in_month y m =
    if m == 2
    then (if is_leap y then 29 else 28)
    else if m == 4 || (m == 6 || (m == 9 || m == 11))
    then 30
    else 31

abbrev pub in_calendar : Parts → Bool
in_calendar p =
    not (ltb p.y 1 || (ltb p.m 1 || (ltb 12 p.m || ltb p.d 1)))
    && not (ltb (days_in_month p.y p.m) p.d)

abbrev pub number2 : ℕ → ℕ → ℕ
number2 a b = digit_value a * 10 + digit_value b

abbrev pub number4 : ℕ → ℕ → ℕ → ℕ → ℕ
number4 a b c d = digit_value a * 1000 + digit_value b * 100 + digit_value c * 10 + digit_value d

-- the match of `/^(\d{4})-(\d{2})-(\d{2})$/` and the tests of the parts
unfoldable pub parse_trimmed : Text → Option Parts
parse_trimmed (y1 ∷ y2 ∷ y3 ∷ y4 ∷ s1 ∷ m1 ∷ m2 ∷ s2 ∷ d1 ∷ d2 ∷ []) =
    let p : Parts = record { y = number4 y1 y2 y3 y4; m = number2 m1 m2; d = number2 d1 d2 } in
    if (is_digit y1 && (is_digit y2 && (is_digit y3 && is_digit y4)))
      && (s1 == b'-'
          && (is_digit m1 && (is_digit m2 && (s2 == b'-' && (is_digit d1 && is_digit d2)))))
    then (if in_calendar p then some p else none)
    else none
parse_trimmed _ = none

unfoldable pub parse_iso_date_parts : Text → Option Parts
parse_iso_date_parts iso = parse_trimmed (trim iso)

-- A value of type `unknown`: absent, a text, a `Date` by its UTC parts, or something else.
pub data Value : Type 0 where
  absent : Value
  text : Text → Value
  date : Parts → Value
  other : Value

unfoldable pub is_valid_iso_birth_date : Value → Bool
is_valid_iso_birth_date (text s) = is_some (parse_iso_date_parts s)
is_valid_iso_birth_date _ = false

abbrev pub digit : ℕ → ℕ
digit n = 48 + n % 10

-- `String(n).padStart(2, '0')`, of a month or a day
abbrev pub pad2 : ℕ → Text
pad2 n = digit (n / 10) ∷ digit n ∷ []

-- The decimal text of a year; no `Date` has a year of more than six digits.
abbrev pub year_text : ℕ → Text
year_text y =
    if ltb y 10
    then digit y ∷ []
    else if ltb y 100
    then digit (y / 10) ∷ digit y ∷ []
    else if ltb y 1000
    then digit (y / 100) ∷ digit (y / 10) ∷ digit y ∷ []
    else if ltb y 10000
    then digit (y / 1000) ∷ digit (y / 100) ∷ digit (y / 10) ∷ digit y ∷ []
    else if ltb y 100000
    then digit (y / 10000) ∷ digit (y / 1000) ∷ digit (y / 100) ∷ digit (y / 10) ∷ digit y ∷ []
    else digit (y / 100000)
      ∷ digit (y / 10000)
      ∷ digit (y / 1000)
      ∷ digit (y / 100)
      ∷ digit (y / 10)
      ∷ digit y
      ∷ []

-- `${y}-${m}-${d}`
unfoldable pub format_parts : Parts → Text
format_parts p = year_text p.y ++ b'-' ∷ (pad2 p.m ++ b'-' ∷ pad2 p.d)

unfoldable pub to_iso_date_string : Value → Option Text
unfolding format_parts
to_iso_date_string (text s) =
    let trimmed = take 10 (trim s) in
    if is_some (parse_iso_date_parts trimmed) then some trimmed else none
to_iso_date_string (date p) = some (format_parts p)
to_iso_date_string _ = none

-- The UTC date of a day since 1970, as `getUTCFullYear`, `getUTCMonth` and `getUTCDate` give it.
unfoldable pub civil_from_days : ℕ → Parts
civil_from_days days =
    let z = days + 719468 in
    let doe = z % 146097 in
    let yoe = (doe - doe / 1460 + doe / 36524 - doe / 146096) / 365 in
    let doy = doe - (365 * yoe + yoe / 4 - yoe / 100) in
    let mp = (5 * doy + 2) / 153 in
    let m = if ltb mp 10 then mp + 3 else mp - 9 in
    record {
      y = yoe + z / 146097 * 400 + (if leb m 2 then 1 else 0);
      m = m;
      d = doy - (153 * mp + 2) / 5 + 1;
    }

-- The offset in minutes is a signed number; the shifted instant is not before 1970.
abbrev pub shifted : ℤ → ℕ → ℕ
shifted (pos n) now = now + n * 60000
shifted (negsuc n) now = now - suc n * 60000

unfoldable pub calendar_date_in_offset : ℤ → ℕ → Text
unfolding civil_from_days format_parts
calendar_date_in_offset offset now = format_parts (civil_from_days (shifted offset now / 86400000))

-- The civil age between two dates: the years' difference, one less before the birthday.
unfoldable pub age_between : Parts → Parts → ℤ
age_between birth reference =
    if ltb reference.m birth.m || (reference.m == birth.m && ltb reference.d birth.d)
    then sub_ℕ reference.y (birth.y + 1)
    else sub_ℕ reference.y birth.y

-- `NaN` is `none`.
unfoldable pub calculate_age_on_date : Text → Text → Option ℤ
calculate_age_on_date birth_date reference_date = elim (parse_iso_date_parts birth_date) [
  | none ↦ none
  | some birth ↦ elim (parse_iso_date_parts reference_date) [
    | none ↦ none
    | some reference ↦ some (age_between birth reference)
  ]
]

-- `today` is the local date of the server.
unfoldable pub calculate_age : Text → Parts → Option ℤ
calculate_age birth_date today = elim (parse_iso_date_parts birth_date) [
  | none ↦ none
  | some birth ↦ some (age_between birth today)
]

abbrev within : Option ℤ → ℕ → Bool
within (some (pos n)) min_age = ltb n min_age
within _ min_age = false

unfoldable pub is_minor : Text → ℕ → Parts → Bool
unfolding calculate_age
is_minor birth_date min_age today = within (calculate_age birth_date today) min_age
