-- ===== src/Civil/Parsing.antt =====
-- Dates as text.
use face2go_server.Base.{
  ℕ, ◌/◌, ◌≤◌, ◌<◌, ◌≡◌, refl, true, false, some, [], ◌∷◌, arith, Bool-cases, inl, inr, subst,
}
use face2go_server.Documents.{Text, is_digit}
use face2go_server.Civil.{
  Parts, is_space, trim, in_calendar, parse_trimmed, parse_iso_date_parts, digit, format_parts,
  number2, number4, to_iso_date_string, text,
}

is_space_of_digit : (n : ℕ) → is_space (digit n) ≡ false
is_space_of_digit n = ground arith

is_digit-digit : (n : ℕ) → is_digit (digit n) ≡ true
is_digit-digit n = ground arith

-- A text of ten characters whose ends are no white space is trimmed.
trim_ten :
    (a b c d e f g h i j : ℕ)
    → is_space a ≡ false
    → is_space j ≡ false
    → trim (a ∷ b ∷ c ∷ d ∷ e ∷ f ∷ g ∷ h ∷ i ∷ j ∷ []) ≡ a ∷ b ∷ c ∷ d ∷ e ∷ f ∷ g ∷ h ∷ i ∷ j ∷ []
unfolding trim
trim_ten a b c d e f g h i j ha hj = rw (ha, hj) refl

format_four :
    (p : Parts)
    → 1000 ≤ p.y
    → p.y < 10000
    → format_parts p
      ≡ digit (p.y / 1000)
        ∷ digit (p.y / 100)
        ∷ digit (p.y / 10)
        ∷ digit p.y
        ∷ b'-'
        ∷ digit (p.m / 10)
        ∷ digit p.m
        ∷ b'-'
        ∷ digit (p.d / 10)
        ∷ digit p.d
        ∷ []
unfolding format_parts
format_four p lo hi = ground arith

parse_ten :
    (p : Parts)
    → 1000 ≤ p.y
    → p.y < 10000
    → in_calendar p ≡ true
    → parse_trimmed (
        digit (p.y / 1000)
        ∷ digit (p.y / 100)
        ∷ digit (p.y / 10)
        ∷ digit p.y
        ∷ b'-'
        ∷ digit (p.m / 10)
        ∷ digit p.m
        ∷ b'-'
        ∷ digit (p.d / 10)
        ∷ digit p.d
        ∷ [])
      ≡ some p
unfolding parse_trimmed
parse_ten p lo hi h =
    let y : number4 (digit (p.y / 1000)) (digit (p.y / 100)) (digit (p.y / 10)) (digit p.y) ≡ p.y =
      omega arith in
    let m : number2 (digit (p.m / 10)) (digit p.m) ≡ p.m = ground arith in
    let d : number2 (digit (p.d / 10)) (digit p.d) ≡ p.d = ground arith in
    rw
      (
        is_digit-digit (p.y / 1000),
        is_digit-digit (p.y / 100),
        is_digit-digit (p.y / 10),
        is_digit-digit p.y,
        is_digit-digit (p.m / 10),
        is_digit-digit p.m,
        is_digit-digit (p.d / 10),
        is_digit-digit p.d,
        y,
        m,
        d,
        h,
      )
      refl

-- A date of the calendar from year 1000 to 9999, formatted and parsed, is the date.
pub parse-format_parts :
    (p : Parts)
    → 1000 ≤ p.y
    → p.y < 10000
    → in_calendar p ≡ true
    → parse_iso_date_parts (format_parts p) ≡ some p
unfolding parse_iso_date_parts
parse-format_parts p lo hi h =
    rw
      (
        format_four p lo hi,
        trim_ten _ _ _ _ _ _ _ _ _ _ (is_space_of_digit (p.y / 1000)) (is_space_of_digit p.d),
      )
      (parse_ten p lo hi h)

-- Such a text is taken as it stands.
pub to_iso_date_string-format_parts :
    (p : Parts)
    → 1000 ≤ p.y
    → p.y < 10000
    → in_calendar p ≡ true
    → to_iso_date_string (text (format_parts p)) ≡ some (format_parts p)
unfolding to_iso_date_string parse_iso_date_parts
to_iso_date_string-format_parts p lo hi h =
    rw
      (
        format_four p lo hi,
        trim_ten _ _ _ _ _ _ _ _ _ _ (is_space_of_digit (p.y / 1000)) (is_space_of_digit p.d),
      )
      (rw
        (
          trim_ten _ _ _ _ _ _ _ _ _ _ (is_space_of_digit (p.y / 1000)) (is_space_of_digit p.d),
          parse_ten p lo hi h,
        )
        refl)

parse_trimmed-in_calendar : (s : Text) {p : Parts} → parse_trimmed s ≡ some p → in_calendar p ≡ true
unfolding parse_trimmed
parse_trimmed-in_calendar (y1 ∷ y2 ∷ y3 ∷ y4 ∷ s1 ∷ m1 ∷ m2 ∷ s2 ∷ d1 ∷ d2 ∷ []) {p} h =
    let q : Parts = record { y = number4 y1 y2 y3 y4; m = number2 m1 m2; d = number2 d1 d2 } in
    elim (Bool-cases (in_calendar q)) [
      | inl e ↦ let same : q ≡ p = ground arith in subst (λ x. in_calendar x ≡ true) same e
      | inr e ↦ absurd (ground arith)
    ]
parse_trimmed-in_calendar _ h = cc
