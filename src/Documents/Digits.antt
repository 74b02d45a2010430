-- ===== src/Documents/Digits.antt =====
-- The digits of a document number.
use face2go_server.Base.{
  ℕ, ◌<◌, ◌≡◌, refl, ap, true, List, [], ◌∷◌, ◌++◌, arith, All, Bool-cases, inl, inr,
}
use face2go_server.Documents.{Text, is_digit, only_digits, mod11_check_digit}

pub only_digits-append : (s t : Text) → only_digits (s ++ t) ≡ only_digits s ++ only_digits t
unfolding only_digits
only_digits-append [] t = refl
only_digits-append (c ∷ s) t = elim (Bool-cases (is_digit c)) [
  | inl e ↦ rw e (ap (λ r. c ∷ r) (only_digits-append s t))
  | inr e ↦ rw e (only_digits-append s t)
]

abbrev pub AllDigits : Text → Type 0
AllDigits = All (λ c. is_digit c ≡ true)

pub only_digits-AllDigits : (s : Text) → AllDigits (only_digits s)
unfolding only_digits
only_digits-AllDigits [] = tt
only_digits-AllDigits (c ∷ s) = elim (Bool-cases (is_digit c)) [
  | inl e ↦ rw e (e, only_digits-AllDigits s)
  | inr e ↦ rw e (only_digits-AllDigits s)
]

pub only_digits-id : (s : Text) → AllDigits s → only_digits s ≡ s
unfolding only_digits
only_digits-id [] h = refl
only_digits-id (c ∷ s) (e, h) = rw e (ap (λ r. c ∷ r) (only_digits-id s h))

pub only_digits_idempotent : (s : Text) → only_digits (only_digits s) ≡ only_digits s
only_digits_idempotent s = only_digits-id (only_digits s) (only_digits-AllDigits s)

-- A check digit is a digit.
pub mod11_check_digit-lt :
    (digits : Text) (weights : List ℕ) → mod11_check_digit digits weights < 10
unfolding mod11_check_digit
mod11_check_digit-lt digits weights = ground arith
