-- ===== src/Approvals/Adulthood.antt =====
-- The age of an adult, by the rule of src/child-approvals/child-approval.util.ts and by the condition of
-- the query that counts the consents.
use face2go_server.Base.{
  ℕ, ◌+◌, ◌-◌, ◌≤◌, ◌<◌, ◌≡◌, ◌∙◌, refl, sym, true, false, some, not, ◌&&◌, arith, Bool-cases, inl,
  inr, ℤ, pos, negsuc, ◌≤ℤ◌, ◌==◌,
}
use face2go_server.Civil.{
  Parts, in_calendar, is_leap, format_parts, parse_iso_date_parts, calculate_age_on_date,
  calendar_date_in_offset, age_between,
}
use face2go_server.Civil.Parsing.{parse-format_parts, to_iso_date_string-format_parts}
use face2go_server.Civil.Age.{Before, birthday, age_between_iff}
use face2go_server.Documents.{Text}
use face2go_server.Approvals.Rows.{Client, Registration}
use face2go_server.Approvals.Rules.{is_of_age, is_adult_age, natural}
use face2go_server.Approvals.Repository.{local_date, eighteen_years_before, on_or_before, born_by}

-- A date of the calendar whose year has four digits.
pub record IsDate (p : Parts) : Type 0 where
  pub from : 1000 ≤ p.y
  pub below : p.y < 10000
  pub valid : in_calendar p ≡ true

age_of_texts :
    (a b : Text) (p q : Parts)
    → parse_iso_date_parts a ≡ some p
    → parse_iso_date_parts b ≡ some q
    → calculate_age_on_date a b ≡ some (age_between p q)
unfolding calculate_age_on_date
age_of_texts a b p q h k = ground arith

in_order : (p q : Parts) → p.y ≡ q.y → p.m ≡ q.m → p.d ≤ q.d → on_or_before p q ≡ true
in_order p q y m d = ground arith

module _ (p today : Parts) where
  -- A date that does not follow `today` in the month of `today` does not follow the shortened one.
  clamped_day :
      in_calendar p ≡ true
      → p.y + 18 ≡ today.y
      → p.m ≡ today.m
      → p.d ≤ today.d
      → p.d ≤ (eighteen_years_before today).d
  unfolding eighteen_years_before
  clamped_day hp y m d =
      let same : today.y - 18 ≡ p.y = omega arith in
      elim (Bool-cases (today.m == 2 && (today.d == 29 && not (is_leap (today.y - 18))))) [
        | inr e ↦ rw e d
        | inl e ↦ rw e (short (ground arith) (rw same at (last e)))
      ]
    where
      last :
          today.m == 2 && (today.d == 29 && not (is_leap (today.y - 18))) ≡ true
          → is_leap (today.y - 18) ≡ false
      last e = ground arith

      short : p.m ≡ 2 → is_leap p.y ≡ false → p.d ≤ 28
      short two plain = ground arith

  -- At eighteen by the server's rule, the birth date is in time by the database's.
  eighteen :
      in_calendar p ≡ true
      → Before (birthday 18 p) today
      → on_or_before p (eighteen_years_before today) ≡ true
  unfolding eighteen_years_before
  eighteen hp (inl y) = ground arith
  eighteen hp (inr (y, inl m)) = ground arith
  eighteen hp (inr (y, inr (m, d))) =
      in_order p (eighteen_years_before today) (omega arith) m (clamped_day hp y m d)

adult_age-le : (a : ℤ) → is_adult_age (natural (some a)) ≡ true → pos 18 ≤ℤ a
adult_age-le (pos n) h = ground arith
adult_age-le (negsuc n) h = cc

module _ (client : Client) (author : Registration) (now : ℕ) where
  abbrev pub today : Parts
  today = local_date client.timezone_offset_minutes now

  is_of_age-eq :
      (p : Parts)
      → author.birth_date ≡ some p
      → IsDate p
      → IsDate today
      → is_of_age client author now ≡ is_adult_age (natural (some (age_between p today)))
  unfolding is_of_age local_date calendar_date_in_offset
  is_of_age-eq p e birth this =
      rw
        (
          e,
          to_iso_date_string-format_parts p birth.from birth.below birth.valid,
          age_of_texts (format_parts p) (format_parts today) p today
              (parse-format_parts p birth.from birth.below birth.valid)
              (parse-format_parts today this.from this.below this.valid),
        )
        refl

  -- The server's test of the age and the database's agree.
  pub is_of_age-born_by :
      (p : Parts)
      → author.birth_date ≡ some p
      → IsDate p
      → IsDate today
      → is_of_age client author now ≡ true
      → born_by author.birth_date (eighteen_years_before today) ≡ true
  is_of_age-born_by p e birth this h = rw e (
      eighteen p today birth.valid
        ((age_between_iff 18 p today).0 (adult_age-le _ (sym (is_of_age-eq p e birth this) ∙ h))))
