-- ===== src/AgePolicy.antt =====
-- src/face-sync/minor-restriction.ts, and `effectiveMinimumAccessAge` of
-- src/database/queries/readers.queries.ts: which readers a person's age admits.
pub mod Admission
pub mod Partition
use face2go_server.Base.{
  ℕ, Bool, true, false, Option, none, some, List, [], ◌∷◌, ◌+◌, ltb, ℤ, pos, negsuc, if◌then◌else◌,
  or_else,
}
use face2go_server.Documents.{Text}
use face2go_server.Civil.{
  Value, absent, text, date, other, Parts, trim, to_iso_date_string, parse_iso_date_parts,
  calendar_date_in_offset, calculate_age_on_date,
}

pub record ReaderAgePolicy : Type 0 where
  pub minimum_access_age : Option ℕ
  pub restrict_minors : Option Bool
  pub timezone_offset_minutes : Option ℤ

pub data Reason : Type 0 where
  unrestricted allowed missing_birth_date invalid_birth_date future_birth_date below_minimum_age :
      Reason

pub record AgeAccessDecision : Type 0 where
  pub is_allowed : Bool
  pub age : Option ℤ
  pub minimum_access_age : Option ℕ
  pub reason : Reason

abbrev is_set : Option Bool → Bool
is_set none = false
is_set (some b) = b

unfoldable pub effective_minimum_access_age : ReaderAgePolicy → Option ℕ
effective_minimum_access_age reader = elim reader.minimum_access_age [
  | some n ↦ some n
  | none ↦ if is_set reader.restrict_minors then some 18 else none
]

abbrev pub empty_text : Text → Bool
empty_text [] = true
empty_text (c ∷ s) = false

-- `birthDate == null || (typeof birthDate === 'string' && !birthDate.trim())`
abbrev pub is_missing : Value → Bool
is_missing absent = true
is_missing (text s) = empty_text (trim s)
is_missing _ = false

abbrev refused : ℕ → Option ℤ → Reason → AgeAccessDecision
refused minimum age reason = record {
  is_allowed = false;
  age = age;
  minimum_access_age = some minimum;
  reason = reason;
}

-- the tests of the age
abbrev pub judge : ℕ → Option ℤ → AgeAccessDecision
judge minimum none = refused minimum none future_birth_date
judge minimum (some (negsuc n)) = refused minimum (some (negsuc n)) future_birth_date
judge minimum (some (pos n)) =
    if ltb n minimum then refused minimum (some (pos n)) below_minimum_age else record {
      is_allowed = true;
      age = some (pos n);
      minimum_access_age = some minimum;
      reason = allowed;
    }

-- `toIsoDateString(birthDate)` where `parseIsoDateParts` takes it
abbrev pub parsed_iso : Option Text → Option Text
parsed_iso none = none
parsed_iso (some iso) = elim (parse_iso_date_parts iso) [ none ↦ none | some p ↦ some iso ]

abbrev pub decide_age : ℕ → ℤ → ℕ → Option Text → AgeAccessDecision
decide_age minimum offset now none = refused minimum none invalid_birth_date
decide_age minimum offset now (some iso) =
    judge minimum (calculate_age_on_date iso (calendar_date_in_offset offset now))

-- the tests in their order, for the reader's effective minimum age
abbrev pub decide_access : ReaderAgePolicy → Value → ℕ → Option ℕ → AgeAccessDecision
decide_access reader birth_date now none = record {
  is_allowed = true;
  age = none;
  minimum_access_age = none;
  reason = unrestricted;
}
decide_access reader birth_date now (some minimum) =
    if is_missing birth_date
    then refused minimum none missing_birth_date
    else decide_age minimum (or_else reader.timezone_offset_minutes (pos 0)) now
        (parsed_iso (to_iso_date_string birth_date))

unfoldable pub evaluate_person_age_access : ReaderAgePolicy → Value → ℕ → AgeAccessDecision
evaluate_person_age_access reader birth_date now =
    decide_access reader birth_date now (effective_minimum_access_age reader)

-- The calls read the clock once each: `now` is the time of the call.
unfoldable pub is_person_allowed_on_reader : ReaderAgePolicy → Value → ℕ → Bool
is_person_allowed_on_reader reader birth_date now =
    (evaluate_person_age_access reader birth_date now).is_allowed

unfoldable pub restricted_reader_skip_reason : ReaderAgePolicy → Value → ℕ → Reason
restricted_reader_skip_reason reader birth_date now =
    elim (evaluate_person_age_access reader birth_date now).reason [
      | allowed ↦ below_minimum_age
      | unrestricted ↦ below_minimum_age
      | missing_birth_date ↦ missing_birth_date
      | invalid_birth_date ↦ invalid_birth_date
      | future_birth_date ↦ future_birth_date
      | below_minimum_age ↦ below_minimum_age
    ]

-- The loop of `partitionReadersByMinorRestriction`; `clock` gives the time of each reader's call.
module _ {R : Type 0} (policy : R → ReaderAgePolicy) (birth_date : Value) where
  unfoldable pub partition_from : (ℕ → ℕ) → ℕ → List R → List R × List R
  unfolding is_person_allowed_on_reader
  partition_from clock i [] = ([], [])
  partition_from clock i (reader ∷ readers) =
      let (allowed_rest, restricted_rest) = partition_from clock (i + 1) readers in
      if is_person_allowed_on_reader (policy reader) birth_date (clock i)
      then (reader ∷ allowed_rest, restricted_rest)
      else (allowed_rest, reader ∷ restricted_rest)

  unfoldable pub partition_readers_by_minor_restriction : (ℕ → ℕ) → List R → List R × List R
  unfolding partition_from
  partition_readers_by_minor_restriction clock readers = partition_from clock 0 readers
