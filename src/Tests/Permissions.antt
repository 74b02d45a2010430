-- ===== src/Tests/Permissions.antt =====
-- The permissions of a company on concrete tables.
use face2go_server.Base.{ℕ, ◌≤◌, ◌≡◌, true, some, [], ◌∷◌, arith, map, filter, count, ◌&&◌}
use face2go_server.Permissions.{
  FeatureSlug, visitors, reports, devices, access_control, users, clients, monitoring, presence,
  can_read, can_update, company_operator, Db, same_slug, get_sidebar_nav_access,
  evaluate_company_feature_action, route_permissions, of_user, of_feature,
}
use face2go_server.Permissions.Lookups.{IsUnique}
use face2go_server.Permissions.Agreement.{operator, sidebar-eq_evaluate}

-- A company with presence, and an operator who reads reports and presence.
abbrev tables : Db
tables = record {
  permissions =
      record { company_user_id = 4; feature_slug = reports; actions = can_read ∷ [] }
      ∷ record {
        company_user_id = 4;
        feature_slug = presence;
        actions = can_read ∷ can_update ∷ [];
      }
      ∷ [];
  features = record { company_id = 9; feature_slug = presence; enabled = true } ∷ [];
  company_users = record { id = 4; company_id = 9 } ∷ [];
}

tables-permissions :
    (u : ℕ) (s : FeatureSlug)
    → count (λ row. of_user u row && of_feature s row) tables.permissions ≤ 1
unfolding same_slug
tables-permissions u visitors = ground arith
tables-permissions u reports = ground arith
tables-permissions u devices = ground arith
tables-permissions u access_control = ground arith
tables-permissions u users = ground arith
tables-permissions u clients = ground arith
tables-permissions u monitoring = ground arith
tables-permissions u presence = ground arith

tables-IsUnique : IsUnique tables
unfolding same_slug
tables-IsUnique = record { permissions = tables-permissions; features = λ c s. ground arith }

sidebar-eq_evaluate_example :
    get_sidebar_nav_access
      (record { role = some company_operator; company_id = some 9; company_user_id = some 4 })
      tables
    ≡ some (
        "/company/dashboard"
        ∷ map
            (λ route. route.0)
            (filter
              (λ route.
                evaluate_company_feature_action company_operator
                  (some 4)
                  route.1
                  can_read
                  (some 9)
                  tables)
              route_permissions))
sidebar-eq_evaluate_example =
    sidebar-eq_evaluate company_operator 9 4 tables tables-IsUnique operator
