-- ===== src/Tests/Common.antt =====
-- The shared helpers at concrete inputs.
use face2go_server.Base.{
  ◌+◌, ◌≤◌, ◌<◌, ◌≡◌, refl, true, none, some, List, [], ◌∷◌, arith, pos, ◌≤ℤ◌, ◌↔◌,
}
use face2go_server.Documents.{
  Text, only_digits, format_cnpj, is_valid_cnpj, all_same_digits, mod11_check_digit,
}
use face2go_server.Documents.Format.{is_valid_cnpj-format_cnpj}
use face2go_server.Civil.{text, Parts, parse_iso_date_parts, format_parts, age_between}
use face2go_server.Civil.Parsing.{parse-format_parts}
use face2go_server.Civil.Age.{Before, birthday, age_between_iff}
use face2go_server.AgePolicy.{
  ReaderAgePolicy, effective_minimum_access_age, is_person_allowed_on_reader,
}
use face2go_server.AgePolicy.Admission.{IsOldEnough, is_person_allowed_iff}
use face2go_server.Concurrency.Backoff.{Tracker, create_state, next_reconnect_delay_ms}
use face2go_server.Concurrency.Backoff.Laws.{delay_bounds}
use face2go_server.Concurrency.Slots.{Gate, Reach, start, next, acquire, acquire_global_slot}
use face2go_server.Concurrency.Slots.Invariant.{no_lost_wakeup}
use face2go_server.Concurrency.Slots.Overrun.{limit_overrun}

-- `11.222.333/0001-81`
abbrev cnpj : Text
cnpj = 49 ∷ 49 ∷ 50 ∷ 50 ∷ 50 ∷ 51 ∷ 51 ∷ 51 ∷ 48 ∷ 48 ∷ 48 ∷ 49 ∷ 56 ∷ 49 ∷ []

is_valid_cnpj-format_cnpj_example : is_valid_cnpj (format_cnpj cnpj) ≡ true
unfolding is_valid_cnpj only_digits all_same_digits mod11_check_digit
is_valid_cnpj-format_cnpj_example = is_valid_cnpj-format_cnpj cnpj refl

abbrev birth : Parts
birth = record { y = 2008; m = 2; d = 29 }

abbrev reference : Parts
reference = record { y = 2026; m = 3; d = 1 }

parse-format_parts_example : parse_iso_date_parts (format_parts birth) ≡ some birth
parse-format_parts_example = parse-format_parts birth (omega arith) (omega arith) refl

age_between_iff_example :
    (pos 18 ≤ℤ age_between birth reference) ↔ Before (birthday 18 birth) reference
age_between_iff_example = age_between_iff 18 birth reference

abbrev gate_reader : ReaderAgePolicy
gate_reader = record {
  minimum_access_age = none;
  restrict_minors = some true;
  timezone_offset_minutes = none;
}

is_person_allowed_iff_example :
    (is_person_allowed_on_reader gate_reader (text cnpj) 1000 ≡ true)
    ↔ IsOldEnough gate_reader 18 (text cnpj) 1000
unfolding effective_minimum_access_age
is_person_allowed_iff_example = is_person_allowed_iff gate_reader 18 (text cnpj) 1000 refl

abbrev readers : List ReaderAgePolicy
readers = gate_reader ∷ gate_reader ∷ []

delay_bounds_example :
    (4000 ≤ (next_reconnect_delay_ms create_state 5).delay_ms)
    × ((next_reconnect_delay_ms create_state 5).delay_ms ≤ 1080000)
delay_bounds_example = delay_bounds create_state 5 (omega arith)

abbrev untracked : Tracker
untracked _ = none

abbrev full : Gate
full = record { active = 2; waiters = 3 ∷ []; woken = 0; in_flight = 2 }

full-Reach : Reach full
unfolding acquire_global_slot
full-Reach = next (next (next start (acquire 1)) (acquire 2)) (acquire 3)

no_lost_wakeup_example : (full.active ≡ full.in_flight) × (2 ≤ full.in_flight + full.woken)
no_lost_wakeup_example = no_lost_wakeup full-Reach (omega arith)

limit_overrun_example : (g : Gate) × Reach g × (3 < g.in_flight)
limit_overrun_example = limit_overrun 3
