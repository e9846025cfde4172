-- ===== src/Examples/Access.antt =====
-- A user with a role and a token.
use pylar_framework.Auth.Roles.{
  Role, Tables, role_object, role_name, permission_code, saved, has_role, assign_role, revoke_role,
  code_text, grants,
}
use pylar_framework.Auth.Roles.Pivots
use pylar_framework.Auth.Roles.Granting
use pylar_framework.Auth.Tokens.{ApiToken, World, bearer, is_expired}
use pylar_framework.Auth.Roles.Wildcards.{IsWildcard}
use pylar_framework.Auth.Tokens.Admission
use Prim.Native.String.{◌++◌ as ◌<>◌}
use pylar_framework.Prelude.{
  String, [], false, if◌then◌else◌, none, refl, some, str_eq, true, ◌&&◌, ◌==◌, ◌||◌, ◌∷◌, ◌≡◌, ◌⊎◌,
}

abbrev editor : Role
editor = record { id = 1; name = "editor" }

abbrev tables : Tables
tables = record {
  roles = editor ∷ [];
  permissions = record { id = 4; code = "posts.*" } ∷ [];
  user_roles = record { user_id = "7"; role_id = 1 } ∷ [];
  role_permissions = record { role_id = 1; permission_id = 4 } ∷ [];
}

has_role-revoke_role_example :
    has_role "7" (role_object editor) (revoke_role "7" (role_name "editor") tables)
    ≡ (if str_eq "7" "7" && (1 == 1) then false else has_role "7" (role_object editor) tables)
unfolding pylar_framework.Auth.Roles.has_pivot pylar_framework.Auth.Roles.resolve_role
has_role-revoke_role_example =
    Pivots.has_role-revoke_role "7" "7" (role_name "editor") editor editor tables (refl, tt) refl

has_role-assign_role_run :
    (after : Tables) × (assign_role "8" (role_name "editor") tables ≡ saved after)
    × (has_role "8" (role_object editor) after
        ≡ ((str_eq "8" "8" && (1 == 1)) || has_role "8" (role_object editor) tables))
    × Pivots.IsDistinct after.user_roles
unfolding pylar_framework.Auth.Roles.has_pivot pylar_framework.Auth.Roles.resolve_role
has_role-assign_role_run =
    Pivots.has_role-assign_role "8" "8" (role_name "editor") editor editor tables (refl, tt) refl

has_permission-HoldsCode_example :
    (held : String) × ((held ≡ code_text (permission_code "posts.edit"))
      ⊎ IsWildcard held (code_text (permission_code "posts.edit")))
    × Granting.HoldsCode "7" tables held
unfolding pylar_framework.Auth.Roles.has_permission pylar_framework.Auth.Roles.user_permissions
    pylar_framework.Dict.keys pylar_framework.Dict.Sorted.sorted pylar_framework.Auth.Roles.codes_of
    pylar_framework.Auth.Roles.permission_ids_of pylar_framework.Auth.Roles.user_role_ids
    pylar_framework.Dict.put pylar_framework.Text.ends_with pylar_framework.Text.take_text
    pylar_framework.Text.len
has_permission-HoldsCode_example =
    Granting.has_permission-HoldsCode "7" (permission_code "posts.edit") tables refl

abbrev token : ApiToken
token = record {
  tokenable_type = "app.User";
  tokenable_id = "7";
  name = "cli";
  token_hash = "hash of pylat_x";
  abilities = some "[posts.*]";
  last_used_at = none;
  expires_at = some 90;
  created_at = 10;
}

abbrev world : World
world = record {
  parse = λ raw. some ("posts.*" ∷ []);
  dumps = λ abilities. "[]";
  hash_token = λ plaintext. "hash of " <> plaintext;
  lower = λ s. if str_eq s "Bearer pylat_x" then "bearer pylat_x" else s;
  strip = λ s. s;
  resolve = λ t. some t.tokenable_id;
  saves = λ t. true;
}

handle-authenticated_example :
    (plaintext : String) × (row : ApiToken) × Admission.IsBearer world "Bearer pylat_x" plaintext
    × Admission.IsRow row (token ∷ [])
    × (row.token_hash ≡ world.hash_token plaintext)
    × ((record token { last_used_at = some 80 }) ≡ record row { last_used_at = some 80 })
    × Admission.IsLive 80 row.expires_at
    × Admission.IsAble world (some "posts.edit") row
    × (world.resolve row ≡ some "7")
unfolding pylar_framework.Auth.Tokens.handle pylar_framework.Auth.Tokens.bearer
    pylar_framework.Auth.Tokens.stamped pylar_framework.Text.split_once
    pylar_framework.Auth.Tokens.admit pylar_framework.Auth.Tokens.find_token
    pylar_framework.Auth.Tokens.is_expired pylar_framework.Auth.Tokens.can
    pylar_framework.Auth.Tokens.ability_list pylar_framework.Auth.Roles.among
    pylar_framework.Auth.Roles.grants pylar_framework.Text.ends_with pylar_framework.Text.take_text
    pylar_framework.Text.len
handle-authenticated_example =
    Admission.handle-authenticated world (some "posts.edit") "Bearer pylat_x" 80 (token ∷ []) "7"
      (record token { last_used_at = some 80 }) refl
