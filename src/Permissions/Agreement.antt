-- ===== src/Permissions/Agreement.antt =====
-- The list of actions, the paths of the sidebar and the check of one action agree.
use face2go_server.Base.{
  ℕ, ◌≡◌, ◌∙◌, refl, ap, Bool, true, false, not, ◌&&◌, Option, none, some, ◌∷◌, if◌then◌else◌,
  filter, map, String,
}
use face2go_server.Permissions.{
  FeatureSlug, PermissionAction, can_read, Role, company_admin, company_operator, Db, PermissionRow,
  all_features, find_last, of_user, of_feature, find_permission, role_allows,
  evaluate_company_feature_action, company_role, readable_feature_slugs, has, is_shown,
  company_paths, get_sidebar_nav_access, route_permissions, is_locked,
}
use face2go_server.Permissions.Lookups.{
  filter-eq, IsUnique, company_feature_flag-eq, find_last-permission, has-filter, has-all_features,
}

-- The two roles of a company.
pub data Staff : Role → Type 0 where
  admin : Staff company_admin
  operator : Staff company_operator

company_role-eq :
    {role : Role} (o : Option PermissionRow)
    → Staff role
    → company_role role o ≡ role_allows role o can_read
unfolding role_allows
company_role-eq none admin = refl
company_role-eq (some row) admin = refl
company_role-eq none operator = refl
company_role-eq (some row) operator = refl

evaluate-eq :
    {role : Role} (user : ℕ) (slug : FeatureSlug) (action : PermissionAction) (company : ℕ)
    (db : Db)
    → Staff role
    → (evaluate_company_feature_action role (some user) slug action (some company) db ≡ (
        if is_locked company slug db
        then false
        else role_allows role (find_permission user slug db) action))
unfolding evaluate_company_feature_action
evaluate-eq user slug action company db admin = refl
evaluate-eq user slug action company db operator = refl

and_not : (a b : Bool) → (a && not b) ≡ (if b then false else a)
and_not true true = refl
and_not true false = refl
and_not false true = refl
and_not false false = refl

is_shown-eq :
    {role : Role} (company user : ℕ) (db : Db) (route : String × FeatureSlug)
    → IsUnique db
    → Staff role
    → (is_shown company db
          (readable_feature_slugs role (filter (of_user user) db.permissions))
          route
        ≡ evaluate_company_feature_action role (some user) route.1 can_read (some company) db)
unfolding readable_feature_slugs
is_shown-eq {role} company user db (path, slug) u staff =
    let rows = filter (of_user user) db.permissions in
    let readable : FeatureSlug → Bool = λ s. company_role role (find_last (of_feature s) rows) in
    let in_list : has slug (filter readable all_features) ≡ readable slug =
      has-filter readable slug all_features
      ∙ ap (λ b. b && readable slug) (has-all_features slug) in
    let allowed : readable slug ≡ role_allows role (find_permission user slug db) can_read =
      ap (company_role role) (find_last-permission db u user slug)
      ∙ company_role-eq (find_permission user slug db) staff in
    rw
      (
        in_list,
        allowed,
        company_feature_flag-eq db u company slug,
        evaluate-eq user slug can_read company db staff,
      )
      (and_not (role_allows role (find_permission user slug db) can_read)
        (is_locked company slug db))

-- For an administrator or operator of a company, the sidebar shows the dashboard and exactly the
-- paths whose feature the check allows the user to read, in the order of the routes.
pub sidebar-eq_evaluate :
    (role : Role) (company user : ℕ) (db : Db)
    → IsUnique db
    → Staff role
    → (get_sidebar_nav_access
          (record { role = some role; company_id = some company; company_user_id = some user })
          db
        ≡ some (
            "/company/dashboard"
            ∷ map
                (λ route. route.0)
                (filter
                  (λ route.
                    evaluate_company_feature_action role
                      (some user)
                      route.1
                      can_read
                      (some company)
                      db)
                  route_permissions)))
unfolding get_sidebar_nav_access company_paths
sidebar-eq_evaluate role company user db u admin =
    ap (λ routes. some ("/company/dashboard" ∷ map (λ route. route.0) routes))
      (filter-eq _ _ (λ route. is_shown-eq company user db route u admin) route_permissions)
sidebar-eq_evaluate role company user db u operator =
    ap (λ routes. some ("/company/dashboard" ∷ map (λ route. route.0) routes))
      (filter-eq _ _ (λ route. is_shown-eq company user db route u operator) route_permissions)
