-- ===== src/Multipart/Encoding/Digits.antt =====
-- Decimal numbers as bytes.
use face2go_server.Base.{
  ℕ, zero, suc, ◌+◌, ◌-◌, ◌*◌, ◌/◌, ◌%◌, ◌^◌, ◌≤◌, ◌<◌, ◌≡◌, ◌∙◌, inl, inr, refl, [], ◌∷◌, ◌++◌,
  ltb, if◌then◌else◌, length, All, All-append, Bool-cases, arith, length-append,
}
use face2go_server.Multipart.Bytes.{Bytes, parse_int, digits_from}

-- `n + 1` rounds are enough, since each divides by ten.
decimal_from : ℕ → ℕ → Bytes
decimal_from zero n = []
decimal_from (suc fuel) n =
    let rest = decimal_from fuel (n / 10) ++ (48 + n % 10) ∷ [] in
    if ltb n 10 then (48 + n) ∷ [] else rest

-- The decimal text of a number, with no zero in front of it.
unfoldable pub decimal_bytes : ℕ → Bytes
unfolding decimal_from
decimal_bytes n = decimal_from (suc n) n

digits_from-append :
    (a : ℕ) (xs : Bytes) (c : ℕ) → digits_from a (xs ++ c ∷ []) ≡ digits_from a xs * 10 + (c - 48)
digits_from-append a [] c = refl
digits_from-append a (x ∷ xs) c = digits_from-append (a * 10 + (x - 48)) xs c

digits_from-decimal : (fuel n : ℕ) → n < fuel → digits_from 0 (decimal_from fuel n) ≡ n
unfolding decimal_from
digits_from-decimal zero n h = absurd (omega arith)
digits_from-decimal (suc fuel) n h = elim (Bool-cases (ltb n 10)) [
  | inl e ↦ ground (arith, e)
  | inr e ↦
      let small : n / 10 < fuel = ground arith in
      rw e (
        digits_from-append 0 (decimal_from fuel (n / 10)) (48 + n % 10)
        ∙ omega (arith, digits_from-decimal fuel (n / 10) small))
]

pub parse_int-decimal : (n : ℕ) → parse_int (decimal_bytes n) ≡ n
unfolding parse_int decimal_bytes
parse_int-decimal n = digits_from-decimal (suc n) n (omega arith)

abbrev pub IsDigit : ℕ → Type 0
IsDigit c = (48 ≤ c) × (c ≤ 57)

decimal_from-IsDigit : (fuel n : ℕ) → All IsDigit (decimal_from fuel n)
unfolding decimal_from
decimal_from-IsDigit zero n = tt
decimal_from-IsDigit (suc fuel) n = elim (Bool-cases (ltb n 10)) [
  | inl e ↦ rw e (ground arith, tt)
  | inr e ↦ rw e (
      All-append IsDigit (decimal_from fuel (n / 10)) ((48 + n % 10) ∷ [])
        (decimal_from-IsDigit fuel (n / 10)) (omega arith, tt))
]

pub decimal-IsDigit : (n : ℕ) → All IsDigit (decimal_bytes n)
unfolding decimal_bytes
decimal-IsDigit n = decimal_from-IsDigit (suc n) n

tenth : (k n : ℕ) → n < 10 ^ suc k → n / 10 < 10 ^ k
tenth k n h = omega arith

decimal_from-length : (k fuel n : ℕ) → n < 10 ^ k → length (decimal_from fuel n) ≤ k + 1
unfolding decimal_from
decimal_from-length k zero n h = omega arith
decimal_from-length zero (suc fuel) n h = ground arith
decimal_from-length (suc k) (suc fuel) n h = elim (Bool-cases (ltb n 10)) [
  | inl e ↦ rw e (omega arith)
  | inr e ↦ rw e (
      omega (
        arith,
        length-append (decimal_from fuel (n / 10)) ((48 + n % 10) ∷ []),
        decimal_from-length k fuel (n / 10) (tenth k n h),
      ))
]

pub decimal-length : (n : ℕ) → n < 2 ^ 53 → length (decimal_bytes n) ≤ 17
unfolding decimal_bytes
decimal-length n h = decimal_from-length 16 (suc n) n (omega arith)

decimal_from-length-pos : (fuel n : ℕ) → 1 ≤ length (decimal_from (suc fuel) n)
unfolding decimal_from
decimal_from-length-pos fuel n =
    ground (arith, length-append (decimal_from fuel (n / 10)) ((48 + n % 10) ∷ []))

pub decimal-length-pos : (n : ℕ) → 1 ≤ length (decimal_bytes n)
unfolding decimal_bytes
decimal-length-pos n = decimal_from-length-pos n n
