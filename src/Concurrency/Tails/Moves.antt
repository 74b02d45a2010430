-- ===== src/Concurrency/Tails/Moves.antt =====
-- What stays of the chain when a call goes on.
use face2go_server.Base.{
  ℕ, ◌≤◌, ◌<◌, ◌≡◌, ◌∙◌, refl, sym, ap, subst, List, [], ◌∷◌, true, false, ◌==◌, ==-refl, Option,
  none, some, length, arith, if◌then◌else◌,
}
use face2go_server.Concurrency.Tails.{
  CallPhase, Call, is_done, settled, with_phase, Has, here, there,
}
use face2go_server.Concurrency.Tails.Chain.{
  has_passed, AllDone, before, Valid, latest, IsNext, latest-lt, Has-lt, settled-AllDone,
  settled-later,
}

-- Calls that are earlier have other ids.
pub with_phase-earlier :
    (i : ℕ) (ph : CallPhase) (cs : List Call) → Valid cs → length cs ≤ i → with_phase i ph cs ≡ cs
with_phase-earlier i ph [] v l = refl
with_phase-earlier i ph (c ∷ cs) (n, v) l =
    let other : (c.id == i) ≡ false = ground (arith, n.numbered) in
    rw other (ap (λ l. c ∷ l) (with_phase-earlier i ph cs v (omega arith)))

pub length-with_phase :
    (i : ℕ) (ph : CallPhase) (cs : List Call) → length (with_phase i ph cs) ≡ length cs
length-with_phase i ph [] = refl
length-with_phase i ph (c ∷ cs) = omega (arith, length-with_phase i ph cs)

pub latest-with_phase :
    (i : ℕ) (ph : CallPhase) (k : ℕ) (cs : List Call) → latest k (with_phase i ph cs) ≡ latest k cs
unfolding latest
latest-with_phase i ph k [] = refl
latest-with_phase i ph k (c ∷ cs) = ground (arith, latest-with_phase i ph k cs)

-- The call at the head of a list and a later call differ.
module _ {i k : ℕ} {p : Option ℕ} {ph : CallPhase} {cs : List Call} (c : Call) (h : Has i k p ph cs)
    (n : IsNext c cs) (v : Valid cs) where
  pub later-differs : (c.id == i) ≡ false
  later-differs = let low = Has-lt h v in ground (arith, n.numbered)

-- The call that moves is not done, so no call stops being done.
pub AllDone-move :
    {i k : ℕ} {p : Option ℕ} {ph : CallPhase} {cs : List Call} (ph' : CallPhase) (j : ℕ)
    → Has i k p ph cs
    → is_done ph ≡ false
    → Valid cs
    → AllDone j cs
    → AllDone j (with_phase i ph' cs)
AllDone-move {i} {k} {p} {ph} ph' j (here {calls = cs}) u (n, v) (d, a) =
    rw (==-refl i, with_phase-earlier i ph' cs v (omega (arith, n.numbered)))
      (λ e. absurd (ground (arith, d e)), a)
AllDone-move {i} ph' j (there {c = c} {calls = cs} h) u (n, v) (d, a) =
    rw (later-differs c h n v) (d, AllDone-move ph' j h u v a)

pub Valid-move :
    {i k : ℕ} {p : Option ℕ} {ph : CallPhase} {cs : List Call} (ph' : CallPhase)
    → Has i k p ph cs
    → is_done ph ≡ false
    → Valid cs
    → AllDone k (before i cs)
    → Valid (with_phase i ph' cs)
Valid-move {i} {k} {p} {ph} ph' (here {calls = cs}) u (n, v) a =
    let at : AllDone k cs = subst (λ b. AllDone k (if b then cs else before i cs)) (==-refl i) a in
    rw (==-refl i, with_phase-earlier i ph' cs v (omega (arith, n.numbered)))
      (record { numbered = n.numbered; free = n.free; chained = n.chained; in_turn = λ _. at }, v)
Valid-move {i} {k} ph' (there {c = c} {calls = cs} h) u (n, v) a =
    let other = later-differs c h n v in
    let at : AllDone k (before i cs) =
      subst (λ b. AllDone k (if b then cs else before i cs)) other a in
    rw other (
      record {
        numbered = n.numbered ∙ sym (length-with_phase i ph' cs);
        free = λ e. AllDone-move ph' c.key h u v (n.free e);
        chained = λ t e. latest-with_phase i ph' c.key cs ∙ n.chained t e;
        in_turn = λ e. AllDone-move ph' c.key h u v (n.in_turn e);
      },
      Valid-move ph' h u v at,
    )

pub before_here :
    (i k : ℕ) (cs : List Call) → AllDone k cs → AllDone k (if i == i then cs else before i cs)
before_here i k cs a = subst (λ b. AllDone k (if b then cs else before i cs)) (sym (==-refl i)) a

pub before_later :
    (c : Call) (i k : ℕ) (cs : List Call)
    → (c.id == i) ≡ false
    → AllDone k (before i cs)
    → AllDone k (before i (c ∷ cs))
before_later c i k cs e a = subst (λ b. AllDone k (if b then cs else before i cs)) (sym e) a

-- A call that has passed the wait: the earlier ones of the reader are done.
pub in_turn-before :
    {i k : ℕ} {p : Option ℕ} {ph : CallPhase} {cs : List Call}
    → Has i k p ph cs
    → has_passed ph ≡ true
    → Valid cs
    → AllDone k (before i cs)
in_turn-before {i} {k} (here {calls = cs}) u (n, v) = before_here i k cs (n.in_turn u)
in_turn-before {i} {k} (there {c = c} {calls = cs} h) u (n, v) =
    before_later c i k cs (later-differs c h n v) (in_turn-before h u v)

pub prev-lt :
    {i k t : ℕ} {p : Option ℕ} {ph : CallPhase} {cs : List Call}
    → Has i k p ph cs
    → p ≡ some t
    → Valid cs
    → t < i
prev-lt {t = t} (here {calls = cs}) e (n, v) =
    let low = latest-lt _ t cs v (n.chained t e) in omega (arith, n.numbered)
prev-lt (there h) e (n, v) = prev-lt h e v

prev-AllDone :
    {i k t : ℕ} {p : Option ℕ} {ph : CallPhase} {cs : List Call}
    → Has i k p ph cs
    → p ≡ some t
    → Valid cs
    → settled (some t) cs ≡ true
    → AllDone k (before i cs)
prev-AllDone {i} {k} {t} {p} {ph} (here {calls = cs}) e (n, v) s =
    let c : Call = record { id = i; key = k; prev = p; phase = ph } in
    let latest_t = n.chained t e in
    let low = latest-lt k t cs v latest_t in
    let s' = settled-later c t cs (λ z. omega (arith, n.numbered, low, z)) s in
    before_here i k cs (settled-AllDone k t cs v latest_t s')
prev-AllDone {i} {k} {t} (there {c = c} {calls = cs} h) e (n, v) s =
    let low = prev-lt h e v in
    let mine = Has-lt h v in
    let s' = settled-later c t cs (λ z. omega (arith, n.numbered, low, mine, z)) s in
    before_later c i k cs (later-differs c h n v) (prev-AllDone h e v s')

none-AllDone :
    {i k : ℕ} {p : Option ℕ} {ph : CallPhase} {cs : List Call}
    → Has i k p ph cs
    → p ≡ none
    → Valid cs
    → AllDone k (before i cs)
none-AllDone {i} {k} (here {calls = cs}) e (n, v) = before_here i k cs (n.free e)
none-AllDone {i} {k} (there {c = c} {calls = cs} h) e (n, v) =
    before_later c i k cs (later-differs c h n v) (none-AllDone h e v)

-- A call whose predecessor's tail is settled may go on.
pub passes-AllDone :
    {i k : ℕ} {p : Option ℕ} {ph : CallPhase} {cs : List Call}
    → Has i k p ph cs
    → Valid cs
    → settled p cs ≡ true
    → AllDone k (before i cs)
passes-AllDone {p = none} h v s = none-AllDone h refl v
passes-AllDone {p = some t} h v s = prev-AllDone h refl v s
