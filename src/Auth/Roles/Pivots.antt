-- ===== src/Auth/Roles/Pivots.antt =====
-- The rows that attach roles to users.
use pylar_framework.Auth.Roles.{
  Role, UserRole, Tables, RoleRef, role_object, saved, resolve_role, has_pivot, delete_first,
  add_pivot, assign_resolved, assign_role, revoke_resolved, revoke_role, has_role_resolved,
  has_role,
}
use pylar_framework.Prelude.{
  Bool-cases, List, String, [], arith, eq_iff, false, if◌then◌else◌, inl, inr, refl, some, str_eq,
  ℕ, ◌&&◌, ◌++◌, ◌==◌, ◌||◌, ◌∷◌, ◌≡◌,
}

-- No user has a role by two rows.
abbrev pub IsDistinct : List UserRole → Type 0
IsDistinct [] = Unit
IsDistinct (p ∷ ps) = (has_pivot p.user_id p.role_id ps ≡ false) × IsDistinct ps

has_pivot-append :
    (user : String) (role : ℕ) (ps : List UserRole) (p : UserRole)
    → has_pivot user role (ps ++ p ∷ [])
      ≡ (has_pivot user role ps || (str_eq p.user_id user && (p.role_id == role)))
unfolding has_pivot
has_pivot-append user role [] p = ground arith
has_pivot-append user role (q ∷ ps) p = ground (arith, has_pivot-append user role ps p)

append-IsDistinct :
    (ps : List UserRole) (p : UserRole)
    → has_pivot p.user_id p.role_id ps ≡ false
    → IsDistinct ps
    → IsDistinct (ps ++ p ∷ [])
unfolding has_pivot
append-IsDistinct [] p h d = (refl, tt)
append-IsDistinct (q ∷ ps) p h (first, d) = (
  ground (
    arith,
    first,
    h,
    has_pivot-append q.user_id q.role_id ps p,
    eq_iff p.user_id q.user_id,
    eq_iff q.user_id p.user_id,
  ),
  append-IsDistinct ps p (ground (arith, h)) d,
)

pub add_pivot-IsDistinct :
    (user : String) (role : ℕ) (ps : List UserRole)
    → IsDistinct ps
    → IsDistinct (add_pivot user role ps)
unfolding add_pivot
add_pivot-IsDistinct user role ps d = elim (Bool-cases (has_pivot user role ps)) [
  | inl there ↦ rw there d
  | inr absent ↦ rw absent (append-IsDistinct ps _ absent d)
]

has_pivot-add_pivot :
    (user u : String) (role r : ℕ) (ps : List UserRole)
    → has_pivot u r (add_pivot user role ps) ≡ ((str_eq user u && (role == r)) || has_pivot u r ps)
unfolding add_pivot
has_pivot-add_pivot user u role r ps = elim (Bool-cases (has_pivot user role ps)) [
  | inl there ↦ rw there (ground (arith, there, eq_iff user u))
  | inr absent ↦ rw (absent, has_pivot-append u r ps) (ground arith)
]

has_pivot-delete_first :
    (user u : String) (role r : ℕ) (ps : List UserRole)
    → IsDistinct ps
    → has_pivot u r (delete_first user role ps)
      ≡ (if str_eq user u && (role == r) then false else has_pivot u r ps)
unfolding delete_first has_pivot
has_pivot-delete_first user u role r [] d = ground arith
has_pivot-delete_first user u role r (p ∷ ps) (first, d) = ground (
  arith,
  d,
  first,
  has_pivot-delete_first user u role r ps d,
  eq_iff p.user_id user,
  eq_iff user u,
  eq_iff p.user_id u,
)

pub delete_first-IsDistinct :
    (user : String) (role : ℕ) (ps : List UserRole)
    → IsDistinct ps
    → IsDistinct (delete_first user role ps)
unfolding delete_first has_pivot
delete_first-IsDistinct user role [] d = tt
delete_first-IsDistinct user role (p ∷ ps) (first, d) = ground (
  arith,
  d,
  first,
  delete_first-IsDistinct user role ps d,
  has_pivot-delete_first user p.user_id role p.role_id ps d,
)

-- Revoking a role takes it from its user, and leaves every other user and role as they were, where no
-- user has a role by two rows.
pub has_role-revoke_role :
    (user other : String) (role : RoleRef) (found asked : Role) (t : Tables)
    → IsDistinct t.user_roles
    → resolve_role role t ≡ some found
    → has_role other (role_object asked) (revoke_role user role t) ≡ (
        if str_eq user other && (found.id == asked.id)
        then false
        else has_role other (role_object asked) t)
unfolding has_role has_role_resolved revoke_role revoke_resolved resolve_role
has_role-revoke_role user other role found asked t d h =
    rw (h, revoke_resolved) (has_pivot-delete_first user other found.id asked.id t.user_roles d)

-- Assigning a role that is there gives it to its user, and leaves every other user and role as they
-- were; and no user has a role by two rows afterwards, if none had before.
pub has_role-assign_role :
    (user other : String) (role : RoleRef) (found asked : Role) (t : Tables)
    → IsDistinct t.user_roles
    → resolve_role role t ≡ some found
    → (after : Tables) × (assign_role user role t ≡ saved after)
      × (has_role other (role_object asked) after
          ≡ ((str_eq user other && (found.id == asked.id)) || has_role other (role_object asked) t))
      × IsDistinct after.user_roles
unfolding has_role has_role_resolved assign_role assign_resolved resolve_role
has_role-assign_role user other role found asked t d h = (
  record t { user_roles = add_pivot user found.id t.user_roles },
  rw (h, assign_resolved) refl,
  has_pivot-add_pivot user other found.id asked.id t.user_roles,
  add_pivot-IsDistinct user found.id t.user_roles d,
)
