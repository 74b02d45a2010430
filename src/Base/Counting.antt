-- ===== src/Base/Counting.antt =====
-- Counting and finding the items of a list that satisfy a test.
use Prim.Native.Nat.{◌≤◌}
use mathlib.Core.Path.{◌≡◌, refl, sym, subst}
use mathlib.Core.Logic.{inl, inr}
use mathlib.Core.Bool.{Bool, true, false}
use mathlib.Core.Option.{some}
use mathlib.Core.List.{List, [], ◌∷◌, Memᴰ}
use native.Mathlib.Omega.{arith}
use face2go_server.Base.Tests.{Bool-cases}
use face2go_server.Base.Lists.{All, count, find?, any}

module _ {ℓ} {A : Type ℓ} where
  pub All-mem {κ} : (P : A → Type κ) (x : A) (xs : List A) → Memᴰ x xs → All P xs → P x
  All-mem P x [] m h = elim m [ ]
  All-mem P x (y ∷ ys) (Memᴰ.head e) (p, h) = subst P (sym e) p
  All-mem P x (y ∷ ys) (Memᴰ.tail m) (p, h) = All-mem P x ys m h

  pub one-le-count_of_mem :
      (p : A → Bool) (x : A) (xs : List A) → Memᴰ x xs → p x ≡ true → 1 ≤ count p xs
  one-le-count_of_mem p x [] m h = elim m [ ]
  one-le-count_of_mem p x (y ∷ ys) (Memᴰ.head e) h =
      let e' : p y ≡ true = subst (λ z. p z ≡ true) e h in ground arith
  one-le-count_of_mem p x (y ∷ ys) (Memᴰ.tail m) h = ground (arith, one-le-count_of_mem p x ys m h)

  All-not_of_count {κ} :
      (p : A → Bool) (Q : A → Type κ) (xs : List A)
      → count p xs ≤ 0
      → All (λ y. p y ≡ true → Q y) xs
  All-not_of_count p Q [] c = tt
  All-not_of_count p Q (y ∷ ys) c =
      (λ h. absurd (ground arith), All-not_of_count p Q ys (ground arith))

  -- Two items that satisfy a test which at most one satisfies are one item.
  pub All-eq_of_count :
      (p : A → Bool) (x : A) (xs : List A)
      → Memᴰ x xs
      → p x ≡ true
      → count p xs ≤ 1
      → All (λ y. p y ≡ true → y ≡ x) xs
  All-eq_of_count p x [] m h c = elim m [ ]
  All-eq_of_count p x (y ∷ ys) (Memᴰ.head e) h c =
      let here : p y ≡ true = subst (λ z. p z ≡ true) e h in
      (λ _. sym e, All-not_of_count p (λ y. y ≡ x) ys (ground arith))
  All-eq_of_count p x (y ∷ ys) (Memᴰ.tail m) h c = (
    λ here. absurd (ground (arith, one-le-count_of_mem p x ys m h)),
    All-eq_of_count p x ys m h (ground arith),
  )

  pub find?-some :
      (p : A → Bool) (xs : List A) {x : A} → find? p xs ≡ some x → (p x ≡ true) × Memᴰ x xs
  find?-some p [] h = cc
  find?-some p (y ∷ ys) {x} h = elim (Bool-cases (p y)) [
    | inl e ↦
        let same : y ≡ x = ground arith in (subst (λ z. p z ≡ true) same e, Memᴰ.head (sym same))
    | inr e ↦ let (hp, m) = find?-some p ys {x = x} (ground arith) in (hp, Memᴰ.tail m)
  ]

  pub any-eq-false : (p : A → Bool) (xs : List A) → any p xs ≡ false → count p xs ≡ 0
  any-eq-false p [] h = refl
  any-eq-false p (x ∷ xs) h = ground (arith, any-eq-false p xs)

  pub any-eq-true : (p : A → Bool) (xs : List A) → any p xs ≡ true → 1 ≤ count p xs
  any-eq-true p [] h = cc
  any-eq-true p (x ∷ xs) h = ground (arith, any-eq-true p xs)

  -- A test that implies another on these items counts no more of them.
  pub count-le_of_All :
      (p q : A → Bool) (xs : List A)
      → All (λ x. p x ≡ true → q x ≡ true) xs
      → count p xs ≤ count q xs
  count-le_of_All p q [] h = omega arith
  count-le_of_All p q (x ∷ xs) (h, rest) = ground (arith, h, count-le_of_All p q xs rest)
