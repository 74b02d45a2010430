-- ===== src/Documents/Format.antt =====
-- Formatting a CNPJ puts marks between its digits and changes nothing else.
use native.Mathlib.Nat.{zero-add}
use face2go_server.Base.{
  ℕ, zero, suc, ◌+◌, ◌-◌, ◌≤◌, ◌≡◌, refl, ◌∙◌, true, false, [], ◌∷◌, ◌++◌, arith, ◌||◌, Bool-cases,
  inl, inr, take, drop, length, leb,
}
use face2go_server.Documents.{
  Text, is_digit, only_digits, slice, format_cnpj, is_valid_cpf, is_valid_cnpj,
  is_valid_cpf_or_cnpj,
}
use face2go_server.Documents.Digits.{
  only_digits-append, AllDigits, only_digits-AllDigits, only_digits-id, only_digits_idempotent,
}

AllDigits-take : (n : ℕ) (d : Text) → AllDigits d → AllDigits (take n d)
AllDigits-take zero d h = tt
AllDigits-take (suc n) [] h = tt
AllDigits-take (suc n) (c ∷ d) (e, h) = (e, AllDigits-take n d h)

AllDigits-drop : (n : ℕ) (d : Text) → AllDigits d → AllDigits (drop n d)
AllDigits-drop zero d h = h
AllDigits-drop (suc n) [] h = tt
AllDigits-drop (suc n) (c ∷ d) (e, h) = AllDigits-drop n d h

take-nil : (n : ℕ) → take {A = ℕ} n [] ≡ []
take-nil zero = refl
take-nil (suc n) = refl

take-add : (i k : ℕ) (d : Text) → take i d ++ take k (drop i d) ≡ take (i + k) d
take-add zero k d = rw zero-add refl
take-add (suc i) k [] = rw (take-nil k, take-nil (suc i + k)) refl
take-add (suc i) k (c ∷ d) =
    let e : suc i + k ≡ suc (i + k) = omega arith in rw (e, take-add i k d) refl

take-drop : (i : ℕ) (d : Text) → take i d ++ drop i d ≡ d
take-drop zero d = refl
take-drop (suc i) [] = refl
take-drop (suc i) (c ∷ d) = rw (take-drop i d) refl

-- The digits of a text with a mark between two pieces are those of the pieces.
joined :
    (a b : Text) (mark : ℕ)
    → is_digit mark ≡ false
    → only_digits (a ++ mark ∷ b) ≡ only_digits a ++ only_digits b
unfolding only_digits
joined a b mark e = only_digits-append a (mark ∷ b) ∙ rw e refl

module _ (d : Text) (digits : AllDigits d) where
  piece : (i j : ℕ) → only_digits (slice d i j) ≡ slice d i j
  piece i j = only_digits-id _ (AllDigits-take (j - i) (drop i d) (AllDigits-drop i d digits))

  rest : (i : ℕ) → only_digits (drop i d) ≡ drop i d
  rest i = only_digits-id _ (AllDigits-drop i d digits)

  marked2 : only_digits (slice d 0 2 ++ b'.' ∷ drop 2 d) ≡ d
  marked2 = rw (joined _ _ b'.' refl, piece 0 2, rest 2) (take-drop 2 d)

  marked5 : only_digits (slice d 0 2 ++ b'.' ∷ slice d 2 5 ++ b'.' ∷ drop 5 d) ≡ d
  marked5 =
      rw
        (
          joined _ (drop 5 d) b'.' refl,
          joined _ (slice d 2 5) b'.' refl,
          piece 0 2,
          piece 2 5,
          rest 5,
        )
        (rw (take-add 2 3 d) (take-drop 5 d))

  marked8 :
      only_digits (slice d 0 2 ++ b'.' ∷ slice d 2 5 ++ b'.' ∷ slice d 5 8 ++ b'/' ∷ drop 8 d) ≡ d
  marked8 =
      rw
        (
          joined _ (drop 8 d) b'/' refl,
          joined _ (slice d 5 8) b'.' refl,
          joined _ (slice d 2 5) b'.' refl,
          piece 0 2,
          piece 2 5,
          piece 5 8,
          rest 8,
        )
        (rw (take-add 2 3 d, take-add 5 3 d) (take-drop 8 d))

  marked12 :
      only_digits (
        slice d 0 2
        ++ b'.' ∷ slice d 2 5
        ++ b'.' ∷ slice d 5 8
        ++ b'/' ∷ slice d 8 12
        ++ b'-' ∷ drop 12 d)
      ≡ d
  marked12 =
      rw
        (
          joined _ (drop 12 d) b'-' refl,
          joined _ (slice d 8 12) b'/' refl,
          joined _ (slice d 5 8) b'.' refl,
          joined _ (slice d 2 5) b'.' refl,
          piece 0 2,
          piece 2 5,
          piece 5 8,
          piece 8 12,
          rest 12,
        )
        (rw (take-add 2 3 d, take-add 5 3 d, take-add 8 4 d) (take-drop 12 d))

-- Formatting keeps the first fourteen digits and no others.
pub only_digits-format_cnpj : (v : Text) → only_digits (format_cnpj v) ≡ take 14 (only_digits v)
unfolding format_cnpj
only_digits-format_cnpj v =
    let d = take 14 (only_digits v) in
    let h = AllDigits-take 14 (only_digits v) (only_digits-AllDigits v) in
    elim (Bool-cases (leb (length d) 2)) [
      | inl e ↦ rw e (only_digits-id d h)
      | inr e ↦ elim (Bool-cases (leb (length d) 5)) [
        | inl e5 ↦ rw (e, e5) (marked2 d h)
        | inr e5 ↦ elim (Bool-cases (leb (length d) 8)) [
          | inl e8 ↦ rw (e, e5, e8) (marked5 d h)
          | inr e8 ↦ elim (Bool-cases (leb (length d) 12)) [
            | inl e12 ↦ rw (e, e5, e8, e12) (marked8 d h)
            | inr e12 ↦ rw (e, e5, e8, e12) (marked12 d h)
          ]
        ]
      ]
    ]

take-all : (n : ℕ) (d : Text) → length d ≤ n → take n d ≡ d
take-all zero [] h = refl
take-all zero (c ∷ d) h = absurd (omega arith)
take-all (suc n) [] h = refl
take-all (suc n) (c ∷ d) h = rw (take-all n d (omega arith)) refl

valid_digits : (v w : Text) → only_digits v ≡ only_digits w → is_valid_cnpj v ≡ is_valid_cnpj w
unfolding is_valid_cnpj
valid_digits v w e = rw e refl

cnpj_length : (v : Text) → is_valid_cnpj v ≡ true → length (only_digits v) ≡ 14
unfolding is_valid_cnpj
cnpj_length v h = ground arith

-- Formatting a valid CNPJ gives a valid CNPJ.
pub is_valid_cnpj-format_cnpj :
    (v : Text) → is_valid_cnpj v ≡ true → is_valid_cnpj (format_cnpj v) ≡ true
is_valid_cnpj-format_cnpj v h =
    let long : length (only_digits v) ≡ 14 = cnpj_length v h in
    valid_digits (format_cnpj v) v
      (only_digits-format_cnpj v ∙ take-all 14 (only_digits v) (omega arith))
    ∙ h

-- A text is a valid document exactly if it is a valid CPF or a valid CNPJ.
pub is_valid_cpf_or_cnpj-eq :
    (v : Text) → is_valid_cpf_or_cnpj v ≡ (is_valid_cpf v || is_valid_cnpj v)
unfolding is_valid_cpf_or_cnpj is_valid_cpf is_valid_cnpj
is_valid_cpf_or_cnpj-eq v = rw (only_digits_idempotent v) (ground arith)
