-- ===== src/Auth/Roles/Granting.antt =====
-- Why a user has a permission.
use pylar_framework.Dict
use pylar_framework.Dict.{Dict}
use pylar_framework.Dict.Laws.{get-put}
use pylar_framework.Dict.Unique.{Unique, put-Unique}
use pylar_framework.Dict.Sorted.{sorted, get-sorted}
use pylar_framework.Auth.Roles.{
  Permission, UserRole, RolePermission, Tables, PermissionRef, role_ids_of, user_role_ids, is_in,
  permission_ids_of, codes_of, user_permissions, grants, among, any_grants, code_text,
  has_permission,
}
use pylar_framework.Auth.Roles.Wildcards.{IsWildcard, grants-IsWildcard}
use pylar_framework.Prelude.{
  Bool, Bool-cases, List, String, [], arith, eq_iff, false, inl, inr, refl, some, str_eq, sym, true,
  ℕ, ◌∙◌, ◌∷◌, ◌≡◌, ◌⊎◌,
}

-- An entry of the list has the property.
abbrev pub Any : {A : Type 0} → (A → Type 0) → List A → Type 0
Any P [] = ⊥
Any P (x ∷ xs) = P x ⊎ Any P xs

-- A row gives the user a role, a row gives the role a permission, and that is the code's.
abbrev pub HasRole : String → Tables → ℕ → Type 0
HasRole user t role =
    Any (λ (row : UserRole). (row.user_id ≡ user) × (row.role_id ≡ role)) t.user_roles

abbrev pub HasGrant : String → Tables → ℕ → Type 0
HasGrant user t permission =
    Any (λ (row : RolePermission). (row.permission_id ≡ permission) × HasRole user t row.role_id)
      t.role_permissions

abbrev pub HoldsCode : String → Tables → String → Type 0
HoldsCode user t code =
    Any (λ (p : Permission). (p.code ≡ code) × HasGrant user t p.id) t.permissions

role_ids_of-HasRole :
    (user : String) (role : ℕ) (rows : List UserRole)
    → is_in role (role_ids_of user rows) ≡ true
    → Any (λ (row : UserRole). (row.user_id ≡ user) × (row.role_id ≡ role)) rows
unfolding role_ids_of is_in
role_ids_of-HasRole user role [] h = ground (arith, h)
role_ids_of-HasRole user role (row ∷ rows) h =
    ground (arith, h, eq_iff row.user_id user, role_ids_of-HasRole user role rows)

permission_ids_of-HasGrant :
    (user : String) (t : Tables) (permission : ℕ) (rows : List RolePermission)
    → is_in permission (permission_ids_of (user_role_ids user t) rows) ≡ true
    → Any
        (λ (row : RolePermission). (row.permission_id ≡ permission) × HasRole user t row.role_id)
        rows
unfolding permission_ids_of is_in user_role_ids
permission_ids_of-HasGrant user t permission [] h = ground (arith, h)
permission_ids_of-HasGrant user t permission (row ∷ rows) h = ground (
  arith,
  h,
  permission_ids_of-HasGrant user t permission rows,
  role_ids_of-HasRole user row.role_id t.user_roles,
)

codes_of-HoldsCode :
    (user : String) (t : Tables) (code : String) (b : Bool) (ps : List Permission)
    → Dict.get (codes_of (permission_ids_of (user_role_ids user t) t.role_permissions) ps) code
      ≡ some b
    → Any (λ (p : Permission). (p.code ≡ code) × HasGrant user t p.id) ps
unfolding codes_of Dict.get
codes_of-HoldsCode user t code b [] h = ground (arith, h)
codes_of-HoldsCode user t code b (p ∷ ps) h =
    elim (Bool-cases (is_in p.id (permission_ids_of (user_role_ids user t) t.role_permissions))) [
      | inl granted ↦ elim (Bool-cases (str_eq p.code code)) [
        | inl same ↦ inl (
          (eq_iff p.code code).0 same,
          permission_ids_of-HasGrant user t p.id t.role_permissions granted,
        )
        | inr other ↦
            inr (codes_of-HoldsCode user t code b ps (rw (get-put, other) at (rw granted at h)))
      ]
      | inr withheld ↦ inr (codes_of-HoldsCode user t code b ps (rw withheld at h))
    ]

codes_of-Unique : (ids : List ℕ) (ps : List Permission) → Unique (codes_of ids ps)
unfolding codes_of
codes_of-Unique ids [] = tt
codes_of-Unique ids (p ∷ ps) = elim (Bool-cases (is_in p.id ids)) [
  | inl chosen ↦ rw chosen (put-Unique (codes_of ids ps) p.code true (codes_of-Unique ids ps))
  | inr left_out ↦ rw left_out (codes_of-Unique ids ps)
]

-- A key of a dict has a value.
get_of_key :
    (d : Dict Bool) (k : String)
    → Any (λ (j : String). j ≡ k) (Dict.keys d)
    → (b : Bool) × (Dict.get d k ≡ some b)
unfolding Dict.get Dict.keys
get_of_key [] k there = elim there [ ]
get_of_key ((j, v) ∷ d) k (inl same) = (v, ground (arith, eq_iff j k, same))
get_of_key ((j, v) ∷ d) k (inr later) = elim (Bool-cases (str_eq j k)) [
  | inl same ↦ (v, rw same refl)
  | inr other ↦ let (b, found) = get_of_key d k later in (b, rw other found)
]

user_permissions-HoldsCode :
    (user : String) (t : Tables) (code : String)
    → Any (λ (j : String). j ≡ code) (user_permissions user t)
    → HoldsCode user t code
unfolding user_permissions
user_permissions-HoldsCode user t code h =
    let codes =
      codes_of (permission_ids_of (user_role_ids user t) t.role_permissions) t.permissions in
    let (b, found) = get_of_key (sorted codes) code h in
    codes_of-HoldsCode user t code b t.permissions
      (sym (get-sorted codes code (codes_of-Unique _ t.permissions)) ∙ found)

pub among-Any : (x : String) (xs : List String) → among x xs ≡ true → Any (λ (j : String). j ≡ x) xs
unfolding among
among-Any x [] h = ground (arith, h)
among-Any x (y ∷ ys) h = ground (arith, h, eq_iff y x, among-Any x ys)

any_grants-Any :
    (code : String) (xs : List String)
    → any_grants xs code ≡ true
    → (held : String) × IsWildcard held code × Any (λ (j : String). j ≡ held) xs
unfolding any_grants
any_grants-Any code [] h = absurd (ground (arith, h))
any_grants-Any code (x ∷ xs) h = elim (Bool-cases (grants x code)) [
  | inl hit ↦ (x, grants-IsWildcard x code hit, inl refl)
  | inr miss ↦
      let (held, hit, there) = any_grants-Any code xs (rw miss at h) in (held, hit, inr there)
]

-- A user who has a permission has a role that holds the permission's code, or a role that holds a
-- text with ".*" behind it where the code has a dot and any rest behind this text: nothing is granted without rows that lead from the user to the code.
pub has_permission-HoldsCode :
    (user : String) (permission : PermissionRef) (t : Tables)
    → has_permission user permission t ≡ true
    → (held : String) × ((held ≡ code_text permission) ⊎ IsWildcard held (code_text permission))
      × HoldsCode user t held
unfolding has_permission
has_permission-HoldsCode user permission t h =
    elim (Bool-cases (str_eq (code_text permission) "")) [
      | inl empty ↦ let never : false ≡ true = rw empty at h in absurd (ground (arith, never))
      | inr named ↦ elim (Bool-cases (among (code_text permission) (user_permissions user t))) [
        | inl exact ↦ (
          code_text permission,
          inl refl,
          user_permissions-HoldsCode user t _ (among-Any _ (user_permissions user t) exact),
        )
        | inr wild ↦
            let (held, hit, there) =
              any_grants-Any (code_text permission) (user_permissions user t)
                (rw (named, wild) at h) in
            (held, inr hit, user_permissions-HoldsCode user t held there)
      ]
    ]
