-- ===== src/Concurrency/Tails/Progress.antt =====
-- No call waits for its reader for ever: the oldest call of a reader that is not done can go on.
use face2go_server.Base.{
  ℕ, ◌≡◌, ◌≢◌, ◌⊎◌, ◌∙◌, refl, sym, subst, List, [], ◌∷◌, Bool, true, false, ◌==◌, ==_iff, ==-refl,
  ◌&&◌, Option, none, some, Bool-cases, arith, inl, inr, if◌then◌else◌,
}
use face2go_server.Concurrency.Tails.{
  CallPhase, waits_reader, waits_slot, running, done, Call, Gates, is_done, settled, Has, here,
  there, Reach,
}
use face2go_server.Concurrency.Tails.Chain.{
  AllDone, before, Valid, latest, latest-lt, Has-lt, latest-here, latest-later, settled_by,
}
use face2go_server.Concurrency.Tails.Moves.{later-differs, before_here, before_later, prev-lt}
use face2go_server.Concurrency.Tails.Order.{Reach-IsSound, is_done-eq}

both : (a b : Bool) → a ≡ true → b ≡ true → (a && b) ≡ true
both a b x y = ground arith

settled-mine :
    (c : Call) (t : ℕ) (cs : List Call)
    → c.id ≡ t
    → is_done c.phase ≡ true
    → settled c.prev cs ≡ true
    → settled (some t) (c ∷ cs) ≡ true
unfolding settled
settled-mine c t cs e d s =
    let same : (c.id == t) ≡ true = (==_iff c.id t).1 e in
    subst (λ b. settled_by b c t cs ≡ true) (sym same)
      (both (settled c.prev cs) (is_done c.phase) s d)

settled-skip :
    (c : Call) (t : ℕ) (cs : List Call)
    → c.id ≢ t
    → settled (some t) cs ≡ true
    → settled (some t) (c ∷ cs) ≡ true
unfolding settled
settled-skip c t cs e s =
    let other : (c.id == t) ≡ false = ground arith in
    subst (λ b. settled_by b c t cs ≡ true) (sym other) (both (settled (some t) cs) true s refl)

settled-prev :
    (p : Option ℕ) (cs : List Call)
    → ((t : ℕ) → p ≡ some t → settled (some t) cs ≡ true)
    → settled p cs ≡ true
unfolding settled
settled-prev none cs f = refl
settled-prev (some t) cs f = f t refl

latest-nil : (k t : ℕ) → latest k [] ≢ some t
unfolding latest
latest-nil k t = λ e. cc

-- If all calls of a reader are done, the tail of the latest is settled.
settled-latest :
    (k t : ℕ) (cs : List Call)
    → Valid cs
    → latest k cs ≡ some t
    → AllDone k cs
    → settled (some t) cs ≡ true
settled-latest k t [] v h a = absurd (latest-nil k t h)
settled-latest k t (c ∷ cs) (n, v) h (d, a) = elim (Bool-cases (c.key == k)) [
  | inl e ↦
      let same : c.key ≡ k = (==_iff c.key k).0 e in
      let found : some c.id ≡ some t = sym (latest-here c k cs e) ∙ h in
      settled-mine c t cs (cc) (d same) (
        settled-prev c.prev cs (λ u z.
          settled-latest k u cs v (subst (λ l. latest l cs ≡ some u) same (n.chained u z)) a))
  | inr e ↦
      let old = sym (latest-later c k cs e) ∙ h in
      let low = latest-lt k t cs v old in
      settled-skip c t cs (λ z. omega (arith, n.numbered, low, z)) (settled-latest k t cs v old a)
]

settled-Has :
    {i k t : ℕ} {p : Option ℕ} {ph : CallPhase} {cs : List Call}
    → Has i k p ph cs
    → p ≡ some t
    → Valid cs
    → AllDone k (before i cs)
    → settled (some t) cs ≡ true
settled-Has {i} {k} {t} {p} {ph} (here {calls = cs}) e (n, v) a =
    let c : Call = record { id = i; key = k; prev = p; phase = ph } in
    let at : AllDone k cs = subst (λ b. AllDone k (if b then cs else before i cs)) (==-refl i) a in
    let low = latest-lt k t cs v (n.chained t e) in
    settled-skip c t cs (λ z. omega (arith, n.numbered, low, z))
      (settled-latest k t cs v (n.chained t e) at)
settled-Has {i} {k} {t} (there {c = c} {calls = cs} h) e (n, v) a =
    let other = later-differs c h n v in
    let at : AllDone k (before i cs) =
      subst (λ b. AllDone k (if b then cs else before i cs)) other a in
    let low = prev-lt h e v in
    let mine = Has-lt h v in
    settled-skip c t cs (λ z. omega (arith, n.numbered, low, mine, z)) (settled-Has h e v at)

-- A call of the reader that is not done, while the earlier ones are.
abbrev Oldest : ℕ → List Call → Type 0
Oldest k cs =
    (i : ℕ) × (p : Option ℕ) × (ph : CallPhase) × Has i k p ph cs
    × (is_done ph ≡ false)
    × AllDone k (before i cs)

oldest : (k : ℕ) (cs : List Call) → Valid cs → AllDone k cs ⊎ Oldest k cs
oldest k [] v = inl tt
oldest k (c ∷ cs) (n, v) = elim (oldest k cs v) [
  | inr (i, p, ph, h, u, a) ↦
      inr (i, p, ph, there h, u, before_later c i k cs (later-differs c h n v) a)
  | inl a ↦ elim (Bool-cases (c.key == k)) [
    | inr e ↦ inl (λ z. absurd (ground (arith, e, z)), a)
    | inl e ↦
        let same : c.key ≡ k = (==_iff c.key k).0 e in
        elim (Bool-cases (is_done c.phase)) [
          | inl d ↦ inl (λ z. d, a)
          | inr u ↦ inr (
              subst (λ l. Oldest l (c ∷ cs)) same
                (
                  c.id,
                  c.prev,
                  c.phase,
                  here,
                  u,
                  before_here c.id c.key cs (subst (λ l. AllDone l cs) (sym same) a),
                ))
        ]
  ]
]

may_pass :
    {i k : ℕ} {p : Option ℕ} {ph : CallPhase} {cs : List Call}
    → Has i k p ph cs
    → Valid cs
    → AllDone k (before i cs)
    → settled p cs ≡ true
unfolding settled
may_pass {p = none} h v a = refl
may_pass {p = some t} h v a = settled-Has h refl v a

AllDone-not :
    {i k : ℕ} {p : Option ℕ} {ph : CallPhase} {cs : List Call}
    → Has i k p ph cs
    → ph ≢ done
    → AllDone k cs
    → ⊥
AllDone-not {ph = ph} here e (d, a) = e (is_done-eq ph (d refl))
AllDone-not (there h) e (d, a) = AllDone-not h e a

not-done : (ph : CallPhase) → is_done ph ≡ false → ph ≢ done
not-done waits_reader u = λ e. cc
not-done waits_slot u = λ e. cc
not-done running u = λ e. cc
not-done done u = absurd (cc)

-- In every reachable state, if a call of a reader is not done, then some call of the reader is not
-- done and the promise that it found in front of it is settled: it waits for a slot, runs its sync,
-- or may go on. The chain of a reader never locks itself.
pub reader_progress :
    {g : Gates} {i k : ℕ} {p : Option ℕ} {ph : CallPhase}
    → Reach g
    → Has i k p ph g.calls
    → ph ≢ done
    → (j : ℕ) × (q : Option ℕ) × (ph' : CallPhase) × Has j k q ph' g.calls
      × (ph' ≢ done)
      × (settled q g.calls ≡ true)
reader_progress {g} {k = k} r h e =
    let s = Reach-IsSound r in
    elim (oldest k g.calls s.valid) [
      | inl a ↦ absurd (AllDone-not h e a)
      | inr (j, q, ph', m, u, a) ↦ (j, q, ph', m, not-done ph' u, may_pass m s.valid a)
    ]
