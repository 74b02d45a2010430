-- ===== src/Concurrency/Tails/Order.antt =====
-- The syncs of a reader run one at a time, in the order of the calls.
use face2go_server.Base.{
  ℕ, ◌<◌, ◌≡◌, ◌≢◌, ◌∙◌, refl, sym, ap, subst, List, [], ◌∷◌, true, false, ◌==◌, ==_iff, ==-refl,
  Option, none, some, length, Bool-cases, Option-cases, arith, inl, inr, if◌then◌else◌,
}
use face2go_server.Concurrency.Tails.{
  CallPhase, waits_reader, waits_slot, running, done, Call, Gates, get_tail, delete_tail, set_tail,
  arrive, is_done, with_phase, move, finish, Has, here, there, Step, arrives, passes, begins,
  finishes, Reach, start, next,
}
use face2go_server.Concurrency.Tails.Chain.{
  has_passed, AllDone, before, Valid, latest, Has-lt, latest-here, latest-later,
}
use face2go_server.Concurrency.Tails.Moves.{
  with_phase-earlier, latest-with_phase, AllDone-move, Valid-move, in_turn-before, passes-AllDone,
  later-differs,
}

-- `readerTail` names the latest call of each reader that is not done with all of its calls.
abbrev pub Names : List (ℕ × ℕ) → List Call → Type 0
Names ts cs =
    (k : ℕ)
    → (get_tail k ts ≡ none → AllDone k cs)
      × ((t : ℕ) → get_tail k ts ≡ some t → latest k cs ≡ some t)

pub record IsSound (g : Gates) : Type 0 where
  pub valid : Valid g.calls
  pub named : Names g.tails g.calls

get_tail-delete :
    (k key : ℕ) (ts : List (ℕ × ℕ))
    → get_tail k (delete_tail key ts) ≡ (if k == key then none else get_tail k ts)
unfolding get_tail delete_tail
get_tail-delete k key [] = ground arith
get_tail-delete k key ((j, t) ∷ ts) = ground (arith, get_tail-delete k key ts)

get_tail-set :
    (k key tail : ℕ) (ts : List (ℕ × ℕ))
    → get_tail k (set_tail key tail ts) ≡ (if k == key then some tail else get_tail k ts)
unfolding get_tail set_tail
get_tail-set k key tail ts = ground (arith, get_tail-delete k key ts)

-- The reader's latest call ends: all its calls are done.
latest-ends :
    {i k : ℕ} {p : Option ℕ} {ph : CallPhase} {cs : List Call}
    → Has i k p ph cs
    → Valid cs
    → latest k cs ≡ some i
    → AllDone k (before i cs)
    → AllDone k (with_phase i done cs)
latest-ends {i} {k} (here {calls = cs}) (n, v) l a =
    let at : AllDone k cs = subst (λ b. AllDone k (if b then cs else before i cs)) (==-refl i) a in
    rw (==-refl i, with_phase-earlier i done cs v (omega (arith, n.numbered))) (λ _. refl, at)
latest-ends {i} {k} (there {c = c} {calls = cs} h) (n, v) l a =
    let other = later-differs c h n v in
    let at : AllDone k (before i cs) =
      subst (λ b. AllDone k (if b then cs else before i cs)) other a in
    elim (Bool-cases (c.key == k)) [
      | inl e ↦
          let found : some c.id ≡ some i = sym (latest-here c k cs e) ∙ l in
          absurd (ground (arith, other, found))
      | inr e ↦
          let rest = latest-ends h v (sym (latest-later c k cs e) ∙ l) at in
          rw other (λ z. absurd (ground (arith, e, z)), rest)
    ]

Names-arrive : (key : ℕ) (g : Gates) → IsSound g → Names (arrive key g).tails (arrive key g).calls
unfolding arrive
Names-arrive key g s k = elim (Bool-cases (key == k)) [
  | inl e ↦
      let found = get_tail-set k key (length g.calls) g.tails in
      let mine : get_tail k (set_tail key (length g.calls) g.tails) ≡ some (length g.calls) =
        ground (arith, e, found) in
      (λ z. absurd (cc), λ t z. latest-here _ k g.calls e ∙ sym mine ∙ z)
  | inr e ↦
      let found = get_tail-set k key (length g.calls) g.tails in
      let same : get_tail k (set_tail key (length g.calls) g.tails) ≡ get_tail k g.tails =
        ground (arith, e, found) in
      (
        λ z. (λ y. absurd (ground (arith, e, y)), (s.named k).0 (sym same ∙ z)),
        λ t z. latest-later _ k g.calls e ∙ (s.named k).1 t (sym same ∙ z),
      )
]

arrive-IsSound : (key : ℕ) (g : Gates) → IsSound g → IsSound (arrive key g)
unfolding arrive
arrive-IsSound key g s = record {
  valid = (
    record {
      numbered = refl;
      free = (s.named key).0;
      chained = (s.named key).1;
      in_turn = λ e. absurd (cc);
    },
    s.valid,
  );
  named = Names-arrive key g s;
}

module _ (g : Gates) (s : IsSound g) {i k : ℕ} {p : Option ℕ} {ph : CallPhase}
    (h : Has i k p ph g.calls) (u : is_done ph ≡ false) where
  -- Names that stay true when the call goes on.
  Names-move : (ph' : CallPhase) → Names g.tails (with_phase i ph' g.calls)
  Names-move ph' j = (
    λ z. AllDone-move ph' j h u s.valid ((s.named j).0 z),
    λ t z. latest-with_phase i ph' j g.calls ∙ (s.named j).1 t z,
  )

  move-IsSound : (ph' : CallPhase) → AllDone k (before i g.calls) → IsSound (move i ph' g)
  unfolding move
  move-IsSound ph' a = record { valid = Valid-move ph' h u s.valid a; named = Names-move ph' }

  Names-delete :
      get_tail k g.tails ≡ some i
      → AllDone k (before i g.calls)
      → Names (delete_tail k g.tails) (with_phase i done g.calls)
  Names-delete e a j = elim (Bool-cases (j == k)) [
    | inl same ↦
        let gone : get_tail j (delete_tail k g.tails) ≡ none =
          ground (arith, same, get_tail-delete j k g.tails) in
        let all = latest-ends h s.valid ((s.named k).1 i e) a in
        (
          λ z. subst (λ l. AllDone l (with_phase i done g.calls)) (sym ((==_iff j k).0 same)) all,
          λ t z. absurd (cc),
        )
    | inr other ↦
        let kept : get_tail j (delete_tail k g.tails) ≡ get_tail j g.tails =
          ground (arith, other, get_tail-delete j k g.tails) in
        let (free, named) = Names-move done j in
        (λ z. free (sym kept ∙ z), λ t z. named t (sym kept ∙ z))
  ]

  finish-IsSound : AllDone k (before i g.calls) → IsSound (finish i k g)
  unfolding finish move
  finish-IsSound a = elim (Option-cases (get_tail k g.tails)) [
    | inl e ↦ rw e (record { valid = Valid-move done h u s.valid a; named = Names-move done })
    | inr (t, e) ↦ elim (Bool-cases (t == i)) [
      | inl mine ↦
          let e' = e ∙ ap some ((==_iff t i).0 mine) in
          rw (e, mine) (record { valid = Valid-move done h u s.valid a; named = Names-delete e' a })
      | inr other ↦
          rw (e, other) (record { valid = Valid-move done h u s.valid a; named = Names-move done })
    ]
  ]

Step-IsSound : {g g' : Gates} → Step g g' → IsSound g → IsSound g'
Step-IsSound {g} (arrives key) s = arrive-IsSound key g s
Step-IsSound {g} (passes h e) s = move-IsSound g s h refl waits_slot (passes-AllDone h s.valid e)
Step-IsSound {g} (begins h) s = move-IsSound g s h refl running (in_turn-before h refl s.valid)
Step-IsSound {g} (finishes h) s = finish-IsSound g s h refl (in_turn-before h refl s.valid)

pub Reach-IsSound : {g : Gates} → Reach g → IsSound g
unfolding get_tail
Reach-IsSound start = record { valid = tt; named = λ k. (λ e. tt, λ t e. absurd (cc)) }
Reach-IsSound (next r s) = Step-IsSound s (Reach-IsSound r)

AllDone-Has :
    {i k : ℕ} {p : Option ℕ} {ph : CallPhase} {cs : List Call}
    → Has i k p ph cs
    → AllDone k cs
    → is_done ph ≡ true
AllDone-Has here (d, a) = d refl
AllDone-Has (there h) (d, a) = AllDone-Has h a

before-Has :
    {i j k l : ℕ} {p q : Option ℕ} {ph ph' : CallPhase} {cs : List Call}
    → Has i k p ph cs
    → Has j l q ph' cs
    → Valid cs
    → j < i
    → Has j l q ph' (before i cs)
before-Has {i} {j} {l = l} {q = q} {ph' = ph'} (here {calls = cs}) (there m) (n, v) low =
    subst (λ b. Has j l q ph' (if b then cs else before i cs)) (sym (==-refl i)) m
before-Has here here (n, v) low = absurd (omega arith)
before-Has {i} {j} {l = l} {q = q} {ph' = ph'} (there {c = c} {calls = cs} h) (there m) (n, v) low =
    subst (λ b. Has j l q ph' (if b then cs else before i cs)) (sym (later-differs c h n v))
      (before-Has h m v low)
before-Has (there h) here (n, v) low = let mine = Has-lt h v in absurd (omega (arith, n.numbered))

passed_of_ne : (ph : CallPhase) → ph ≢ waits_reader → has_passed ph ≡ true
passed_of_ne waits_reader e = absurd (e refl)
passed_of_ne waits_slot e = refl
passed_of_ne running e = refl
passed_of_ne done e = refl

pub is_done-eq : (ph : CallPhase) → is_done ph ≡ true → ph ≡ done
is_done-eq waits_reader e = absurd (cc)
is_done-eq waits_slot e = absurd (cc)
is_done-eq running e = absurd (cc)
is_done-eq done e = refl

-- In every reachable state, if a call has gone past the wait for its reader, so that it waits for a
-- slot, runs its sync or is done, then every earlier call of the same reader is done: the syncs of a
-- reader never overlap, and run in the order in which they were asked for.
pub earlier_calls_done :
    {g : Gates} {i j k : ℕ} {p q : Option ℕ} {ph ph' : CallPhase}
    → Reach g
    → Has i k p ph g.calls
    → Has j k q ph' g.calls
    → ph ≢ waits_reader
    → j < i
    → ph' ≡ done
earlier_calls_done {ph = ph} {ph' = ph'} r h m e low =
    let s = Reach-IsSound r in
    is_done-eq ph'
      (AllDone-Has (before-Has h m s.valid low) (in_turn-before h (passed_of_ne ph e) s.valid))
