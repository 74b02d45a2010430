-- ===== src/Permissions/Lookups.antt =====
-- Looking up rows and features: the ways in which the functions do it agree.
use face2go_server.Base.{
  ℕ, ◌≤◌, ◌≡◌, ◌∙◌, zero, suc, ==_iff, refl, sym, ap, subst, Bool, true, ◌&&◌, none, List, [], ◌∷◌,
  filter, find?, count, Bool-cases, arith, inl, inr,
}
use face2go_server.Permissions.{
  FeatureSlug, slug_number, visitors, reports, devices, access_control, users, clients, monitoring,
  presence, Db, same_slug, all_features, find_last, is_on, of_company, of_slug, of_user, of_feature,
  is_enabled, company_feature_flag, find_permission, has,
}

module _ {ℓ} {A : Type ℓ} where
  find?-filter : (p q : A → Bool) (xs : List A) → find? q (filter p xs) ≡ find? (λ x. p x && q x) xs
  find?-filter p q [] = refl
  find?-filter p q (x ∷ xs) = ground (arith, find?-filter p q xs)

  count-filter : (p q : A → Bool) (xs : List A) → count q (filter p xs) ≡ count (λ x. p x && q x) xs
  count-filter p q [] = refl
  count-filter p q (x ∷ xs) = ground (arith, count-filter p q xs)

  find_last-none : (p : A → Bool) (xs : List A) → count p xs ≤ 0 → find_last p xs ≡ none
  unfolding find_last
  find_last-none p [] h = refl
  find_last-none p (x ∷ xs) h = ground (arith, find_last-none p xs)

  -- Where at most one item fits, the last is the first.
  find_last-eq : (p : A → Bool) (xs : List A) → count p xs ≤ 1 → find_last p xs ≡ find? p xs
  unfolding find_last
  find_last-eq p [] h = refl
  find_last-eq p (x ∷ xs) h = elim (Bool-cases (p x)) [
    | inl e ↦ ground (arith, e, find_last-none p xs)
    | inr e ↦ ground (arith, e, find_last-eq p xs)
  ]

  pub filter-eq :
      (p q : A → Bool) → ((x : A) → p x ≡ q x) → (xs : List A) → filter p xs ≡ filter q xs
  filter-eq p q h [] = refl
  filter-eq p q h (x ∷ xs) = ground (arith, h x, filter-eq p q h xs)

-- The unique indexes of the two tables: a row for each user and feature, and for each company and
-- feature.
pub record IsUnique (db : Db) : Type 0 where
  pub permissions :
      (user : ℕ) (slug : FeatureSlug)
      → count (λ row. of_user user row && of_feature slug row) db.permissions ≤ 1
  pub features :
      (company : ℕ) (slug : FeatureSlug)
      → count (λ row. of_company company row && of_slug slug row) db.features ≤ 1

pub company_feature_flag-eq :
    (db : Db)
    → IsUnique db
    → (company : ℕ) (slug : FeatureSlug)
    → company_feature_flag company slug db ≡ is_enabled company slug db
unfolding company_feature_flag is_enabled
company_feature_flag-eq db u company slug = ap is_on (
    find_last-eq (of_slug slug) (filter (of_company company) db.features) (
      subst (λ n. n ≤ 1) (sym (count-filter (of_company company) (of_slug slug) db.features))
        (u.features company slug))
    ∙ find?-filter (of_company company) (of_slug slug) db.features)

pub find_last-permission :
    (db : Db)
    → IsUnique db
    → (user : ℕ) (slug : FeatureSlug)
    → (find_last (of_feature slug) (filter (of_user user) db.permissions)
        ≡ find_permission user slug db)
unfolding find_permission
find_last-permission db u user slug =
    find_last-eq (of_feature slug) (filter (of_user user) db.permissions) (
      subst (λ n. n ≤ 1) (sym (count-filter (of_user user) (of_feature slug) db.permissions))
        (u.permissions user slug))
    ∙ find?-filter (of_user user) (of_feature slug) db.permissions

slug_at : ℕ → FeatureSlug
slug_at zero = visitors
slug_at (suc zero) = reports
slug_at (suc (suc zero)) = devices
slug_at (suc (suc (suc zero))) = access_control
slug_at (suc (suc (suc (suc zero)))) = users
slug_at (suc (suc (suc (suc (suc zero))))) = clients
slug_at (suc (suc (suc (suc (suc (suc zero)))))) = monitoring
slug_at (suc (suc (suc (suc (suc (suc (suc n))))))) = presence

slug_at-number : (s : FeatureSlug) → slug_at (slug_number s) ≡ s
unfolding slug_at
slug_at-number visitors = refl
slug_at-number reports = refl
slug_at-number devices = refl
slug_at-number access_control = refl
slug_at-number users = refl
slug_at-number clients = refl
slug_at-number monitoring = refl
slug_at-number presence = refl

same_slug-eq : (a b : FeatureSlug) → same_slug a b ≡ true → a ≡ b
unfolding same_slug
same_slug-eq a b h =
    sym (slug_at-number a)
    ∙ ap slug_at ((==_iff (slug_number a) (slug_number b)).0 h)
    ∙ slug_at-number b

pub has-filter :
    (p : FeatureSlug → Bool) (slug : FeatureSlug) (xs : List FeatureSlug)
    → has slug (filter p xs) ≡ (has slug xs && p slug)
has-filter p slug [] = refl
has-filter p slug (x ∷ xs) = elim (Bool-cases (same_slug x slug)) [
  | inl e ↦
      let same : p x ≡ p slug = ap p (same_slug-eq x slug e) in
      ground (arith, e, same, has-filter p slug xs)
  | inr e ↦ ground (arith, e, has-filter p slug xs)
]

pub has-all_features : (slug : FeatureSlug) → has slug all_features ≡ true
unfolding same_slug all_features
has-all_features visitors = refl
has-all_features reports = refl
has-all_features devices = refl
has-all_features access_control = refl
has-all_features users = refl
has-all_features clients = refl
has-all_features monitoring = refl
has-all_features presence = refl
