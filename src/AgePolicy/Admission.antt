-- ===== src/AgePolicy/Admission.antt =====
-- When a reader with a minimum age admits a person.
use face2go_server.Base.{
  ℕ, ◌≤◌, ◌≡◌, refl, ap, ◌∙◌, ◌↔◌, true, false, Option, none, some, arith, Bool-cases, Option-cases,
  inl, inr, ℤ, pos, negsuc, ◌≤ℤ◌, or_else, [], ◌∷◌,
}
use mathlib.Core.Option.{some-injective}
use face2go_server.Documents.{Text}
use face2go_server.Civil.{
  Value, text, Parts, trim, to_iso_date_string, parse_iso_date_parts, calendar_date_in_offset,
  calculate_age_on_date, age_between, parse_trimmed,
}
use face2go_server.Civil.Age.{Before, birthday, age_between_iff}
use face2go_server.AgePolicy.{
  ReaderAgePolicy, effective_minimum_access_age, is_missing, empty_text, judge, parsed_iso,
  decide_age, decide_access, evaluate_person_age_access, is_person_allowed_on_reader,
}

judge-allowed :
    (minimum : ℕ) (age : Option ℤ)
    → (judge minimum age).is_allowed ≡ true
    → (n : ℕ) × (age ≡ some (pos n)) × (minimum ≤ n)
judge-allowed minimum none h = cc
judge-allowed minimum (some (negsuc n)) h = cc
judge-allowed minimum (some (pos n)) h = (n, refl, ground arith)

judge-old_enough : (minimum n : ℕ) → minimum ≤ n → (judge minimum (some (pos n))).is_allowed ≡ true
judge-old_enough minimum n h = ground arith

some_age : (a : ℤ) (n : ℕ) → some a ≡ some (pos n) → a ≡ pos n
some_age a n h = some-injective a (pos n) h

judge-of_le : (minimum : ℕ) (a : ℤ) → pos minimum ≤ℤ a → (judge minimum (some a)).is_allowed ≡ true
judge-of_le minimum (pos n) h = judge-old_enough minimum n (omega arith)
judge-of_le minimum (negsuc n) h = absurd (omega arith)

-- The person's birth date is a date of the calendar, and the birthday at the minimum age is not
-- after the date that it is at the reader.
pub record IsOldEnough (reader : ReaderAgePolicy) (minimum : ℕ) (v : Value) (now : ℕ) : Type 0 where
  pub iso : Text
  pub birth : Parts
  pub reference : Parts
  pub written : to_iso_date_string v ≡ some iso
  pub parsed : parse_iso_date_parts iso ≡ some birth
  pub today :
      parse_iso_date_parts
        (calendar_date_in_offset (or_else reader.timezone_offset_minutes (pos 0)) now)
      ≡ some reference
  pub reached : Before (birthday minimum birth) reference

missing-unwritten : (v : Value) → is_missing v ≡ true → to_iso_date_string v ≡ none
unfolding to_iso_date_string parse_iso_date_parts parse_trimmed trim
missing-unwritten Value.absent h = refl
missing-unwritten (text s) h = let e : trim s ≡ [] = empty-eq (trim s) h in rw e refl
  where
    empty-eq : (t : Text) → empty_text t ≡ true → t ≡ []
    empty-eq [] h = refl
    empty-eq (c ∷ t) h = cc
missing-unwritten (Value.date p) h = cc
missing-unwritten Value.other h = refl

calculate-eq_untold :
    (iso : Text) (birth : Parts) (today : Text)
    → parse_iso_date_parts iso ≡ some birth
    → parse_iso_date_parts today ≡ none
    → calculate_age_on_date iso today ≡ none
unfolding calculate_age_on_date
calculate-eq_untold iso birth today e f = rw (e, calculate_age_on_date) (rw f refl)

calculate-eq_told :
    (iso : Text) (birth reference : Parts) (today : Text)
    → parse_iso_date_parts iso ≡ some birth
    → parse_iso_date_parts today ≡ some reference
    → calculate_age_on_date iso today ≡ some (age_between birth reference)
unfolding calculate_age_on_date
calculate-eq_told iso birth reference today e f = rw (e, calculate_age_on_date) (rw f refl)

module _ (reader : ReaderAgePolicy) (minimum : ℕ) (v : Value) (now : ℕ) where
  abbrev offset : ℤ
  offset = or_else reader.timezone_offset_minutes (pos 0)

  decide-eq_unparsed :
      (iso : Text)
      → parse_iso_date_parts iso ≡ none
      → (decide_age minimum offset now (parsed_iso (some iso))).is_allowed ≡ false
  decide-eq_unparsed iso e = rw (e, decide_age) refl

  decide-eq_untold :
      (iso : Text) (birth : Parts)
      → parse_iso_date_parts iso ≡ some birth
      → parse_iso_date_parts (calendar_date_in_offset offset now) ≡ none
      → (decide_age minimum offset now (parsed_iso (some iso))).is_allowed ≡ false
  decide-eq_untold iso birth e f =
      rw (e, decide_age) (rw (calculate-eq_untold iso birth _ e f) refl)

  decide-eq_judged :
      (iso : Text) (birth reference : Parts)
      → parse_iso_date_parts iso ≡ some birth
      → parse_iso_date_parts (calendar_date_in_offset offset now) ≡ some reference
      → decide_age minimum offset now (parsed_iso (some iso))
        ≡ judge minimum (some (age_between birth reference))
  decide-eq_judged iso birth reference e f =
      rw (e, decide_age) (rw (calculate-eq_told iso birth reference _ e f) refl)

  IsOldEnough-of_decide :
      (iso : Text)
      → to_iso_date_string v ≡ some iso
      → (decide_age minimum offset now (parsed_iso (some iso))).is_allowed ≡ true
      → IsOldEnough reader minimum v now
  IsOldEnough-of_decide iso w h = elim (Option-cases (parse_iso_date_parts iso)) [
    | inl e ↦ absurd (cc (decide-eq_unparsed iso e))
    | inr (birth, e) ↦
        elim (Option-cases (parse_iso_date_parts (calendar_date_in_offset offset now))) [
          | inl f ↦ absurd (cc (decide-eq_untold iso birth e f))
          | inr (reference, f) ↦
              let (n, age, enough) =
                judge-allowed minimum (some (age_between birth reference))
                  (rw (decide-eq_judged iso birth reference e f) at h) in
              record {
                iso = iso;
                birth = birth;
                reference = reference;
                written = w;
                parsed = e;
                today = f;
                reached =
                    (age_between_iff minimum birth reference).0
                      (rw (some_age (age_between birth reference) n age) (omega arith));
              }
        ]
  ]

  decide-of_IsOldEnough :
      (o : IsOldEnough reader minimum v now)
      → (decide_age minimum offset now (parsed_iso (some o.iso))).is_allowed ≡ true
  decide-of_IsOldEnough o =
      let h = (age_between_iff minimum o.birth o.reference).1 o.reached in
      rw (decide-eq_judged o.iso o.birth o.reference o.parsed o.today) (judge-of_le minimum _ h)

  -- What a reader with a minimum age decides, once the birth date is written or is not.
  evaluate-eq_missing :
      effective_minimum_access_age reader ≡ some minimum
      → is_missing v ≡ true
      → is_person_allowed_on_reader reader v now ≡ false
  unfolding is_person_allowed_on_reader evaluate_person_age_access
  evaluate-eq_missing e m =
      ap (λ (o : Option ℕ). (decide_access reader v now o).is_allowed) e ∙ rw m refl

  evaluate-eq_written :
      (o : Option Text)
      → effective_minimum_access_age reader ≡ some minimum
      → is_missing v ≡ false
      → to_iso_date_string v ≡ o
      → is_person_allowed_on_reader reader v now
        ≡ (decide_age minimum offset now (parsed_iso o)).is_allowed
  unfolding is_person_allowed_on_reader evaluate_person_age_access
  evaluate-eq_written o e m w =
      ap (λ (x : Option ℕ). (decide_access reader v now x).is_allowed) e ∙ rw (m, w) refl

  present_of_written : {iso : Text} → to_iso_date_string v ≡ some iso → is_missing v ≡ false
  present_of_written w = elim (Bool-cases (is_missing v)) [
    | inl m ↦ absurd (cc (missing-unwritten v m))
    | inr p ↦ p
  ]

  -- A reader with a minimum age admits a person exactly if the person is old enough.
  pub is_person_allowed_iff :
      effective_minimum_access_age reader ≡ some minimum
      → (is_person_allowed_on_reader reader v now ≡ true) ↔ IsOldEnough reader minimum v now
  is_person_allowed_iff e = (
    λ h. elim (Bool-cases (is_missing v)) [
      | inl m ↦ absurd (cc (evaluate-eq_missing e m))
      | inr p ↦ elim (Option-cases (to_iso_date_string v)) [
        | inl w ↦ absurd (cc (evaluate-eq_written none e p w))
        | inr (iso, w) ↦
            IsOldEnough-of_decide iso w (rw (evaluate-eq_written (some iso) e p w) at h)
      ]
    ],
    λ o.
        rw (evaluate-eq_written (some o.iso) e (present_of_written o.written) o.written)
          (decide-of_IsOldEnough o),
  )
