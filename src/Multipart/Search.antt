-- ===== src/Multipart/Search.antt =====
-- Searching a buffer that holds the start of a stream: what is found there is what the whole
-- stream holds.
use face2go_server.Base.{
  ℕ, ◌+◌, ◌≤◌, ◌<◌, ◌≡◌, ◌≢◌, refl, ap, subst, ◌∙◌, true, false, none, some, [], ◌∷◌, ◌++◌, ◌⊎◌,
  inl, inr, length, All, Bool-cases, Option-cases, arith,
}
use face2go_server.Multipart.Bytes.{Bytes, starts_with, index_of}

pub starts_with-append :
    (m xs ys : Bytes) → starts_with m xs ≡ true → starts_with m (xs ++ ys) ≡ true
unfolding starts_with
starts_with-append [] xs ys h = refl
starts_with-append (c ∷ m) [] ys h = cc
starts_with-append (c ∷ m) (x ∷ xs) ys h = ground (arith, starts_with-append m xs ys)

pub starts_with-append_false :
    (m xs ys : Bytes)
    → length m ≤ length xs
    → starts_with m xs ≡ false
    → starts_with m (xs ++ ys) ≡ false
unfolding starts_with
starts_with-append_false [] xs ys l h = cc
starts_with-append_false (c ∷ m) [] ys l h = absurd (omega arith)
starts_with-append_false (c ∷ m) (x ∷ xs) ys l h = ground (arith, starts_with-append_false m xs ys)

pub starts_with-length : (m xs : Bytes) → starts_with m xs ≡ true → length m ≤ length xs
unfolding starts_with
starts_with-length [] xs h = omega arith
starts_with-length (c ∷ m) [] h = cc
starts_with-length (c ∷ m) (x ∷ xs) h = ground (arith, starts_with-length m xs)

pub index_of-length : (m xs : Bytes) (i : ℕ) → index_of m xs ≡ some i → i + length m ≤ length xs
unfolding index_of
index_of-length m [] i h = ground (arith, starts_with-length m [])
index_of-length m (x ∷ xs) i h = elim (Option-cases (index_of m xs)) [
  | inl e ↦ ground (arith, e, starts_with-length m (x ∷ xs))
  | inr (j, e) ↦ ground (arith, e, starts_with-length m (x ∷ xs), index_of-length m xs j e)
]

-- What is found in a buffer is found there when more bytes follow.
pub index_of-append :
    (m xs ys : Bytes) (i : ℕ) → index_of m xs ≡ some i → index_of m (xs ++ ys) ≡ some i
unfolding index_of
index_of-append m [] [] i h = h
index_of-append m [] (y ∷ ys) i h = elim (Bool-cases (starts_with m [])) [
  | inl e ↦ ground (arith, e, starts_with-append m [] (y ∷ ys))
  | inr e ↦ ground (arith, e)
]
index_of-append m (x ∷ xs) ys i h = elim (Bool-cases (starts_with m (x ∷ xs))) [
  | inl e ↦ ground (arith, e, starts_with-append m (x ∷ xs) ys)
  | inr e ↦ elim (Option-cases (index_of m xs)) [
    | inl n ↦ ground (arith, e, n)
    | inr (j, f) ↦ ground (
      arith,
      e,
      f,
      index_of-append m xs ys j f,
      index_of-length m xs j f,
      starts_with-append_false m (x ∷ xs) ys,
    )
  ]
]

-- What the whole stream holds within the buffer is found in the buffer.
index_of-prefix :
    (m xs ys : Bytes) (i : ℕ)
    → index_of m (xs ++ ys) ≡ some i
    → i + length m ≤ length xs
    → index_of m xs ≡ some i
unfolding index_of starts_with
index_of-prefix [] [] [] i h l = h
index_of-prefix [] [] (y ∷ ys) i h l = h
index_of-prefix (c ∷ m) [] ys i h l = absurd (omega arith)
index_of-prefix m (x ∷ xs) ys i h l = elim (Bool-cases (starts_with m (x ∷ xs))) [
  | inl e ↦ ground (arith, e, starts_with-append m (x ∷ xs) ys)
  | inr e ↦ elim (Option-cases (index_of m (xs ++ ys))) [
    | inl n ↦ absurd (ground (arith, e, n, starts_with-append_false m (x ∷ xs) ys))
    | inr (j, f) ↦
        ground (arith, e, f, index_of-prefix m xs ys j f, starts_with-append_false m (x ∷ xs) ys)
  ]
]

-- Of what the stream holds, the buffer has all or less than all.
pub index_of-buffer :
    (m buf rest full : Bytes) (i : ℕ)
    → buf ++ rest ≡ full
    → index_of m full ≡ some i
    → ((index_of m buf ≡ some i) × (i + length m ≤ length buf))
      ⊎ ((index_of m buf ≡ none) × (length buf < i + length m))
index_of-buffer m buf rest full i e h =
    let h' : index_of m (buf ++ rest) ≡ some i = ap (index_of m) e ∙ h in
    elim (Option-cases (index_of m buf)) [
      | inl n ↦ inr (n, ground (arith, n, index_of-prefix m buf rest i h'))
      | inr (j, f) ↦
          let same : j ≡ i = ground (arith, index_of-append m buf rest j f) in
          inl (
            f ∙ ap some same,
            subst (λ k. k + length m ≤ length buf) same (index_of-length m buf j f),
          )
    ]

starts_with_self : (m xs : Bytes) → starts_with m (m ++ xs) ≡ true
unfolding starts_with
starts_with_self [] xs = refl
starts_with_self (c ∷ m) xs = ground (arith, starts_with_self m xs)

pub index_of_self : (c : ℕ) (m xs : Bytes) → index_of (c ∷ m) ((c ∷ m) ++ xs) ≡ some 0
unfolding index_of
index_of_self c m xs = ground (arith, starts_with_self (c ∷ m) xs)

-- Bytes other than the first one that is sought are passed over.
pub index_of-skip :
    (c : ℕ) (m g xs : Bytes) (i : ℕ)
    → All (λ x. x ≢ c) g
    → index_of (c ∷ m) xs ≡ some i
    → index_of (c ∷ m) (g ++ xs) ≡ some (length g + i)
unfolding index_of starts_with
index_of-skip c m [] xs i a h = h ∙ ap some (omega arith)
index_of-skip c m (x ∷ g) xs i (n, a) h = ground (arith, n, index_of-skip c m g xs i a h)

pub index_of-skip_none :
    (c : ℕ) (m g xs : Bytes)
    → All (λ x. x ≢ c) g
    → index_of (c ∷ m) xs ≡ none
    → index_of (c ∷ m) (g ++ xs) ≡ none
unfolding index_of starts_with
index_of-skip_none c m [] xs a h = h
index_of-skip_none c m (x ∷ g) xs (n, a) h = ground (arith, n, index_of-skip_none c m g xs a h)
