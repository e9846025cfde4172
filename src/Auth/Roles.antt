-- ===== src/Auth/Roles.antt =====
-- pylar/auth/roles.py: the four tables of roles and permissions, as lists of rows in the order in
-- which they were saved, and the functions over them. A user is given by the text of its identifier.
-- `first` of a query is its first row in that order.
pub mod Pivots
pub mod Granting
pub mod Wildcards
use pylar_framework.Dict
use pylar_framework.Dict.{Dict}
use pylar_framework.Dict.Sorted.{sorted}
use pylar_framework.Text.{len, take_text, ends_with}
use text.Mathlib.Text.{starts_with}
use pylar_framework.Prelude.{
  Bool, List, Option, String, [], false, if◌then◌else◌, none, some, str_eq, true, ℕ, ◌&&◌, ◌++◌,
  ◌-◌, ◌==◌, ◌||◌, ◌∷◌,
}

pub record Role : Type 0 where
  pub id : ℕ
  pub name : String

pub record Permission : Type 0 where
  pub id : ℕ
  pub code : String

pub record UserRole : Type 0 where
  pub user_id : String
  pub role_id : ℕ

pub record RolePermission : Type 0 where
  pub role_id : ℕ
  pub permission_id : ℕ

pub record Tables : Type 0 where
  pub roles : List Role
  pub permissions : List Permission
  pub user_roles : List UserRole
  pub role_permissions : List RolePermission

-- A role, or its name; a permission, or its code.
pub data RoleRef : Type 0 where
  role_object : Role → RoleRef
  role_name : String → RoleRef

pub data PermissionRef : Type 0 where
  permission_object : Permission → PermissionRef
  permission_code : String → PermissionRef

pub data Saved : Type 0 where
  saved : Tables → Saved
  lookup_error : Saved

role_named : String → List Role → Option Role
role_named name [] = none
role_named name (role ∷ roles) = if str_eq role.name name then some role else role_named name roles

unfoldable pub resolve_role : RoleRef → Tables → Option Role
unfolding role_named
resolve_role (role_object role) t = some role
resolve_role (role_name name) t = role_named name t.roles

permission_coded : String → List Permission → Option Permission
permission_coded code [] = none
permission_coded code (p ∷ ps) = if str_eq p.code code then some p else permission_coded code ps

unfoldable pub resolve_permission : PermissionRef → Tables → Option Permission
unfolding permission_coded
resolve_permission (permission_object p) t = some p
resolve_permission (permission_code code) t = permission_coded code t.permissions

-- Whether the query for a pivot row has a first row.
unfoldable pub has_pivot : String → ℕ → List UserRole → Bool
has_pivot user role [] = false
has_pivot user role (p ∷ ps) =
    (str_eq p.user_id user && (p.role_id == role)) || has_pivot user role ps

unfoldable pub delete_first : String → ℕ → List UserRole → List UserRole
delete_first user role [] = []
delete_first user role (p ∷ ps) =
    let rest = delete_first user role ps in
    if str_eq p.user_id user && (p.role_id == role) then ps else p ∷ rest

unfoldable pub add_pivot : String → ℕ → List UserRole → List UserRole
unfolding has_pivot
add_pivot user role ps =
    if has_pivot user role ps then ps else ps ++ record { user_id = user; role_id = role } ∷ []

assign_resolved : String → Option Role → Tables → Saved
unfolding add_pivot
assign_resolved user none t = lookup_error
assign_resolved user (some role) t =
    saved (record t { user_roles = add_pivot user role.id t.user_roles })

unfoldable pub assign_role : String → RoleRef → Tables → Saved
unfolding assign_resolved
assign_role user role t = assign_resolved user (resolve_role role t) t

revoke_resolved : String → Option Role → Tables → Tables
unfolding delete_first
revoke_resolved user none t = t
revoke_resolved user (some role) t = record t {
  user_roles = delete_first user role.id t.user_roles;
}

unfoldable pub revoke_role : String → RoleRef → Tables → Tables
unfolding revoke_resolved
revoke_role user role t = revoke_resolved user (resolve_role role t) t

unfoldable pub has_grant : ℕ → ℕ → List RolePermission → Bool
has_grant role permission [] = false
has_grant role permission (p ∷ ps) =
    ((p.role_id == role) && (p.permission_id == permission)) || has_grant role permission ps

delete_grant : ℕ → ℕ → List RolePermission → List RolePermission
delete_grant role permission [] = []
delete_grant role permission (p ∷ ps) =
    let rest = delete_grant role permission ps in
    if (p.role_id == role) && (p.permission_id == permission) then ps else p ∷ rest

grant_resolved : Option Role → Option Permission → Tables → Saved
unfolding has_grant
grant_resolved none p t = lookup_error
grant_resolved (some role) none t = lookup_error
grant_resolved (some role) (some p) t = saved (record t {
  role_permissions =
      if has_grant role.id p.id t.role_permissions
      then t.role_permissions
      else t.role_permissions ++ record { role_id = role.id; permission_id = p.id } ∷ [];
})

unfoldable pub grant_permission : RoleRef → PermissionRef → Tables → Saved
unfolding grant_resolved
grant_permission role permission t =
    grant_resolved (resolve_role role t) (resolve_permission permission t) t

withdraw_resolved : Option Role → Option Permission → Tables → Tables
unfolding delete_grant
withdraw_resolved none p t = t
withdraw_resolved (some role) none t = t
withdraw_resolved (some role) (some p) t = record t {
  role_permissions = delete_grant role.id p.id t.role_permissions;
}

unfoldable pub revoke_permission : RoleRef → PermissionRef → Tables → Tables
unfolding withdraw_resolved
revoke_permission role permission t =
    withdraw_resolved (resolve_role role t) (resolve_permission permission t) t

unfoldable pub role_ids_of : String → List UserRole → List ℕ
role_ids_of user [] = []
role_ids_of user (p ∷ ps) =
    let rest = role_ids_of user ps in if str_eq p.user_id user then p.role_id ∷ rest else rest

unfoldable pub user_role_ids : String → Tables → List ℕ
unfolding role_ids_of
user_role_ids user t = role_ids_of user t.user_roles

-- x in ids
unfoldable pub is_in : ℕ → List ℕ → Bool
is_in x [] = false
is_in x (y ∷ ys) = (y == x) || is_in x ys

roles_in : List ℕ → List Role → List Role
unfolding is_in
roles_in ids [] = []
roles_in ids (role ∷ roles) =
    let rest = roles_in ids roles in if is_in role.id ids then role ∷ rest else rest

unfoldable pub user_roles : String → Tables → List Role
unfolding roles_in
user_roles user t = roles_in (user_role_ids user t) t.roles

unfoldable pub permission_ids_of : List ℕ → List RolePermission → List ℕ
unfolding is_in
permission_ids_of roles [] = []
permission_ids_of roles (p ∷ ps) =
    let rest = permission_ids_of roles ps in
    if is_in p.role_id roles then p.permission_id ∷ rest else rest

-- {str(p.code) for p in perms}, as a dict whose values say nothing
unfoldable pub codes_of : List ℕ → List Permission → Dict Bool
unfolding is_in
codes_of ids [] = []
codes_of ids (p ∷ ps) =
    let rest = codes_of ids ps in if is_in p.id ids then Dict.put rest p.code true else rest

unfoldable pub user_permissions : String → Tables → List String
user_permissions user t =
    Dict.keys (
      sorted (codes_of (permission_ids_of (user_role_ids user t) t.role_permissions) t.permissions))

has_role_resolved : String → Option Role → Tables → Bool
unfolding has_pivot
has_role_resolved user none t = false
has_role_resolved user (some role) t = has_pivot user role.id t.user_roles

unfoldable pub has_role : String → RoleRef → Tables → Bool
unfolding has_role_resolved
has_role user role t = has_role_resolved user (resolve_role role t) t

-- A code that ends with ".*" grants what starts with it, less its star.
unfoldable pub grants : String → String → Bool
grants granted code =
    ends_with granted ".*" && starts_with code (take_text (len granted - 1) granted)

unfoldable pub among : String → List String → Bool
among x [] = false
among x (y ∷ ys) = str_eq y x || among x ys

unfoldable pub any_grants : List String → String → Bool
unfolding grants
any_grants [] code = false
any_grants (granted ∷ codes) code = grants granted code || any_grants codes code

unfoldable pub code_text : PermissionRef → String
code_text (permission_object p) = p.code
code_text (permission_code code) = code

unfoldable pub has_permission : String → PermissionRef → Tables → Bool
unfolding code_text among any_grants
has_permission user permission t =
    let code = code_text permission in
    let granted = user_permissions user t in
    if str_eq code "" then false else if among code granted then true else any_grants granted code
