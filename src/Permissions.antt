-- ===== src/Permissions.antt =====
-- src/permissions/permissions.service.ts, with the features and routes of src/common and the queries of
-- src/database/queries/company-features.queries.ts that it uses. Ids are numbers.
pub mod Lookups
pub mod Agreement
use face2go_server.Base.{
  ℕ, ◌+◌, Bool, true, false, not, ◌&&◌, ◌||◌, Option, none, some, List, [], ◌∷◌, ◌++◌, ◌==◌,
  if◌then◌else◌, any, filter, find?, map, String,
}

pub data FeatureSlug : Type 0 where
  visitors reports devices access_control users clients monitoring presence : FeatureSlug

pub data PermissionAction : Type 0 where
  can_read can_create can_update can_delete : PermissionAction

-- A role is a text; the other ones are not told apart.
pub data Role : Type 0 where
  super_admin company_admin company_operator other_role : Role

abbrev slug_number : FeatureSlug → ℕ
slug_number visitors = 0
slug_number reports = 1
slug_number devices = 2
slug_number access_control = 3
slug_number users = 4
slug_number clients = 5
slug_number monitoring = 6
slug_number presence = 7

unfoldable pub same_slug : FeatureSlug → FeatureSlug → Bool
same_slug a b = slug_number a == slug_number b

abbrev action_number : PermissionAction → ℕ
action_number can_read = 0
action_number can_create = 1
action_number can_update = 2
action_number can_delete = 3

unfoldable pub includes : PermissionAction → List PermissionAction → Bool
includes action = any (λ a. action_number a == action_number action)

unfoldable pub all_features : List FeatureSlug
all_features =
    visitors ∷ reports ∷ devices ∷ access_control ∷ users ∷ clients ∷ monitoring ∷ presence ∷ []

unfoldable pub is_premium_feature_slug : FeatureSlug → Bool
is_premium_feature_slug slug = same_slug monitoring slug || same_slug presence slug

unfoldable pub route_permissions : List (String × FeatureSlug)
route_permissions =
    ("/company/usuarios", users)
    ∷ ("/company/clientes", clients)
    ∷ ("/company/leitores", clients)
    ∷ ("/client/leitores", clients)
    ∷ ("/company/cameras", clients)
    ∷ ("/company/acessos", clients)
    ∷ ("/company/display", clients)
    ∷ ("/company/integracao", clients)
    ∷ ("/company/presenca", presence)
    ∷ ("/company/relatorios", reports)
    ∷ ("/monitoring", monitoring)
    ∷ []

pub record PermissionRow : Type 0 where
  pub company_user_id : ℕ
  pub feature_slug : FeatureSlug
  pub actions : List PermissionAction

pub record FeatureRow : Type 0 where
  pub company_id : ℕ
  pub feature_slug : FeatureSlug
  pub enabled : Bool

pub record CompanyUserRow : Type 0 where
  pub id : ℕ
  pub company_id : ℕ

pub record Db : Type 0 where
  pub permissions : List PermissionRow
  pub features : List FeatureRow
  pub company_users : List CompanyUserRow

-- `new Map(...)` and `map.get`: of the rows with one key the last one counts.
abbrev later {ℓ} : {A : Type ℓ} → Bool → A → Option A → Option A
later b x (some y) = some y
later b x none = if b then some x else none

pub find_last {ℓ} : {A : Type ℓ} → (A → Bool) → List A → Option A
find_last p [] = none
find_last p (x ∷ xs) = later (p x) x (find_last p xs)

abbrev pub of_company : ℕ → FeatureRow → Bool
of_company company_id row = row.company_id == company_id

abbrev pub of_slug : FeatureSlug → FeatureRow → Bool
of_slug slug row = same_slug row.feature_slug slug

abbrev pub is_on : Option FeatureRow → Bool
is_on none = false
is_on (some row) = row.enabled

-- `CompanyFeaturesService.isEnabled`
unfoldable pub is_enabled : ℕ → FeatureSlug → Db → Bool
is_enabled company_id slug db =
    is_on (find? (λ row. of_company company_id row && of_slug slug row) db.features)

-- `getCompanyFeatureFlags`, read at a slug
unfoldable pub company_feature_flag : ℕ → FeatureSlug → Db → Bool
company_feature_flag company_id slug db =
    is_on (find_last (of_slug slug) (filter (of_company company_id) db.features))

abbrev company_of : Option CompanyUserRow → Option ℕ
company_of none = none
company_of (some row) = some row.company_id

unfoldable pub get_company_id_by_company_user_id : ℕ → Db → Option ℕ
get_company_id_by_company_user_id company_user_id db =
    company_of (find? (λ row. row.id == company_user_id) db.company_users)

abbrev pub of_user : ℕ → PermissionRow → Bool
of_user company_user_id row = row.company_user_id == company_user_id

abbrev pub of_feature : FeatureSlug → PermissionRow → Bool
of_feature slug row = same_slug row.feature_slug slug

unfoldable pub find_permission : ℕ → FeatureSlug → Db → Option PermissionRow
find_permission company_user_id slug db =
    find? (λ row. of_user company_user_id row && of_feature slug row) db.permissions

unfoldable pub role_allows : Role → Option PermissionRow → PermissionAction → Bool
role_allows company_admin none action = true
role_allows company_admin (some row) action = includes action row.actions
role_allows company_operator none action = false
role_allows company_operator (some row) action = includes action row.actions
role_allows role permission action = false

-- a premium feature that the company does not have
abbrev pub is_locked : ℕ → FeatureSlug → Db → Bool
is_locked company_id slug db = is_premium_feature_slug slug && not (is_enabled company_id slug db)

abbrev evaluate_in : Role → ℕ → FeatureSlug → PermissionAction → Option ℕ → Db → Bool
evaluate_in role user slug action none db = false
evaluate_in role user slug action (some company) db =
    if is_locked company slug db
    then false
    else role_allows role (find_permission user slug db) action

abbrev or_found : Option ℕ → Option ℕ → Option ℕ
or_found (some company) found = some company
or_found none found = found

abbrev evaluate_for : Role → Option ℕ → FeatureSlug → PermissionAction → Option ℕ → Db → Bool
evaluate_for role none slug action company_id db = false
evaluate_for role (some user) slug action company_id db =
    evaluate_in role user slug action
      (or_found company_id (get_company_id_by_company_user_id user db)) db

unfoldable pub evaluate_company_feature_action :
    Role → Option ℕ → FeatureSlug → PermissionAction → Option ℕ → Db → Bool
evaluate_company_feature_action super_admin company_user_id slug action company_id db = true
evaluate_company_feature_action role company_user_id slug action company_id db =
    evaluate_for role company_user_id slug action company_id db

-- The fields of the token that the checks read.
pub record User : Type 0 where
  pub role : Option Role
  pub company_id : Option ℕ
  pub company_user_id : Option ℕ

abbrev pub company_role : Role → Option PermissionRow → Bool
company_role company_admin none = true
company_role company_admin (some row) = includes can_read row.actions
company_role role none = false
company_role role (some row) = includes can_read row.actions

-- `readableFeatureSlugsFromPermissionRows`, with the rows of the user
unfoldable pub readable_feature_slugs : Role → List PermissionRow → List FeatureSlug
readable_feature_slugs role rows =
    filter (λ slug. company_role role (find_last (of_feature slug) rows)) all_features

abbrev pub has : FeatureSlug → List FeatureSlug → Bool
has slug = any (λ s. same_slug s slug)

abbrev pub is_shown : ℕ → Db → List FeatureSlug → String × FeatureSlug → Bool
is_shown company db readable route =
    has route.1 readable
    && not (is_premium_feature_slug route.1 && not (company_feature_flag company route.1 db))

-- The paths of a set, in the order in which they were added: those of `ROUTE_PERMISSIONS` differ.
unfoldable pub company_paths : Role → ℕ → ℕ → Db → List String
company_paths role company user db =
    let readable = readable_feature_slugs role (filter (of_user user) db.permissions) in
    "/company/dashboard"
    ∷ map (λ route. route.0) (filter (is_shown company db readable) route_permissions)

abbrev paths_of_role : Role → ℕ → ℕ → Db → Option (List String)
paths_of_role company_admin company user db = some (company_paths company_admin company user db)
paths_of_role company_operator company user db =
    some (company_paths company_operator company user db)
paths_of_role role company user db = none

abbrev paths_in : Role → Option ℕ → Option ℕ → Db → Option (List String)
paths_in role (some company) (some user) db = paths_of_role role company user db
paths_in role company user db = some ("/company/dashboard" ∷ [])

abbrev paths_for : Option Role → Option ℕ → Option ℕ → Db → Option (List String)
paths_for none company user db = none
paths_for (some super_admin) company user db = none
paths_for (some role) company user db = paths_in role company user db

-- `none` stands for `mainPaths: null`.
unfoldable pub get_sidebar_nav_access : User → Db → Option (List String)
get_sidebar_nav_access user db = paths_for user.role user.company_id user.company_user_id db

abbrev pub all_permission_actions : List PermissionAction
all_permission_actions = can_read ∷ can_create ∷ can_update ∷ can_delete ∷ []

abbrev pub actions_of : Option PermissionRow → List PermissionAction
actions_of none = []
actions_of (some row) = row.actions

abbrev pub actions_of_role : Option Role → Option PermissionRow → List PermissionAction
actions_of_role (some company_admin) none = all_permission_actions
actions_of_role role permission = actions_of permission

abbrev pub unlocked_actions : Option Role → ℕ → Option ℕ → FeatureSlug → Db → List PermissionAction
unlocked_actions role company none slug db = []
unlocked_actions role company (some user) slug db =
    if is_locked company slug db then [] else actions_of_role role (find_permission user slug db)

abbrev pub company_actions : Option Role → ℕ → Option ℕ → FeatureSlug → Db → List PermissionAction
company_actions (some super_admin) company user slug db = all_permission_actions
company_actions role company user slug db = unlocked_actions role company user slug db

abbrev pub actions_in : Option Role → Option ℕ → Option ℕ → FeatureSlug → Db → List PermissionAction
actions_in role none user slug db = []
actions_in role (some company) user slug db = company_actions role company user slug db

unfoldable pub get_effective_permission_actions : User → FeatureSlug → Db → List PermissionAction
get_effective_permission_actions user slug db =
    actions_in user.role user.company_id user.company_user_id slug db
