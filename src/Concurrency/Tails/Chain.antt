-- ===== src/Concurrency/Tails/Chain.antt =====
-- The chain of the calls of a reader, and what a settled tail says of it.
use face2go_server.Base.{
  ℕ, ◌<◌, ◌≡◌, ◌≢◌, ◌∙◌, refl, sym, subst, List, [], ◌∷◌, Bool, true, false, ◌==◌, ==_iff,
  &&-eq-true, ◌&&◌, Option, none, some, length, Bool-cases, arith, inl, inr, if◌then◌else◌,
}
use face2go_server.Concurrency.Tails.{
  CallPhase, waits_reader, waits_slot, running, done, Call, is_done, settled, Has, here, there,
}

abbrev pub has_passed : CallPhase → Bool
has_passed waits_reader = false
has_passed phase = true

-- The calls of this reader are done.
abbrev pub AllDone : ℕ → List Call → Type 0
AllDone k [] = Unit {0}
AllDone k (c ∷ cs) = (c.key ≡ k → is_done c.phase ≡ true) × AllDone k cs

unfoldable pub latest : ℕ → List Call → Option ℕ
latest k [] = none
latest k (c ∷ cs) = let rest = latest k cs in if c.key == k then some c.id else rest

-- the calls before the one with this id
abbrev pub before : ℕ → List Call → List Call
before i [] = []
before i (c ∷ cs) = let rest = before i cs in if c.id == i then cs else rest

pub record IsNext (c : Call) (cs : List Call) : Type 0 where
  pub numbered : c.id ≡ length cs
  pub free : c.prev ≡ none → AllDone c.key cs
  pub chained : (t : ℕ) → c.prev ≡ some t → latest c.key cs ≡ some t
  pub in_turn : has_passed c.phase ≡ true → AllDone c.key cs

abbrev pub Valid : List Call → Type 0
Valid [] = Unit {0}
Valid (c ∷ cs) = IsNext c cs × Valid cs

pub latest-lt : (k t : ℕ) (cs : List Call) → Valid cs → latest k cs ≡ some t → t < length cs
unfolding latest
latest-lt k t [] v h = absurd (cc)
latest-lt k t (c ∷ cs) (n, v) h = elim (Bool-cases (c.key == k)) [
  | inl e ↦ ground (arith, n.numbered, e)
  | inr e ↦ let old = latest-lt k t cs v (ground (arith, e)) in omega arith
]

pub Has-lt :
    {i k : ℕ} {p : Option ℕ} {ph : CallPhase} {cs : List Call}
    → Has i k p ph cs
    → Valid cs
    → i < length cs
Has-lt here (n, v) = omega (arith, n.numbered)
Has-lt (there h) (n, v) = let old = Has-lt h v in omega arith

done-passed : (ph : CallPhase) → is_done ph ≡ true → has_passed ph ≡ true
done-passed waits_reader h = cc
done-passed waits_slot h = cc
done-passed running h = cc
done-passed done h = refl

-- `settled` at its test
abbrev pub settled_by : Bool → Call → ℕ → List Call → Bool
settled_by b c t cs =
    settled (if b then c.prev else some t) cs && (if b then is_done c.phase else true)

pub settled-here :
    (c : Call) (t : ℕ) (cs : List Call)
    → c.id ≡ t
    → settled (some t) (c ∷ cs) ≡ true
    → is_done c.phase ≡ true
unfolding settled
settled-here c t cs e h =
    let same : (c.id == t) ≡ true = (==_iff c.id t).1 e in
    let h' = subst (λ b. settled_by b c t cs ≡ true) same h in
    (&&-eq-true (settled c.prev cs) (is_done c.phase) h').1

pub settled-later :
    (c : Call) (t : ℕ) (cs : List Call)
    → c.id ≢ t
    → settled (some t) (c ∷ cs) ≡ true
    → settled (some t) cs ≡ true
unfolding settled
settled-later c t cs e h =
    let other : (c.id == t) ≡ false = ground arith in
    let h' = subst (λ b. settled_by b c t cs ≡ true) other h in
    (&&-eq-true (settled (some t) cs) true h').0

pub latest-here :
    (c : Call) (k : ℕ) (cs : List Call) → (c.key == k) ≡ true → latest k (c ∷ cs) ≡ some c.id
unfolding latest
latest-here c k cs e = rw e

pub latest-later :
    (c : Call) (k : ℕ) (cs : List Call) → (c.key == k) ≡ false → latest k (c ∷ cs) ≡ latest k cs
unfolding latest
latest-later c k cs e = rw e

-- A settled tail that is the reader's latest: all its calls are done.
pub settled-AllDone :
    (k t : ℕ) (cs : List Call)
    → Valid cs
    → latest k cs ≡ some t
    → settled (some t) cs ≡ true
    → AllDone k cs
settled-AllDone k t [] v h s = tt
settled-AllDone k t (c ∷ cs) (n, v) h s = elim (Bool-cases (c.key == k)) [
  | inl e ↦
      let same : c.key ≡ k = (==_iff c.key k).0 e in
      let found : some c.id ≡ some t = sym (latest-here c k cs e) ∙ h in
      let ended = settled-here c t cs (cc) s in
      ((λ _. ended), subst (λ j. AllDone j cs) same (n.in_turn (done-passed c.phase ended)))
  | inr e ↦
      let old = sym (latest-later c k cs e) ∙ h in
      let low = latest-lt k t cs v old in
      (
        (λ z. absurd (ground (arith, e, z))),
        settled-AllDone k t cs v old
            (settled-later c t cs (λ z. omega (arith, n.numbered, low, z)) s),
      )
]
