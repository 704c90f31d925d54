-- ===== src/Authorization/Roles.antt =====
-- How the permissions of the roles relate.
use opsflow.Prelude.{ℕ, ◌≤◌, ◌≡◌, refl, sym, ◌∙◌, not, Bool, true, false, ok, arith}
use opsflow.Auth.Users.{UserRole, viewer, operator, admin, User}
use opsflow.Authorization.{
  Permission, service_read, service_create, service_update, service_delete, service_dependency_read,
  service_dependency_write, incident_read, incident_create, incident_update, incident_delete,
  contains, role_permissions, has_permission, require_permission,
}

abbrev pub rank : UserRole → ℕ
rank viewer = 0
rank operator = 1
rank admin = 2

abbrev pub is_delete : Permission → Bool
is_delete service_delete = true
is_delete incident_delete = true
is_delete _ = false

abbrev pub is_read : Permission → Bool
is_read service_read = true
is_read service_dependency_read = true
is_read incident_read = true
is_read _ = false

-- What each role may do: an administrator everything, an operator all but deletions, a viewer reads.
abbrev pub allowed_for : UserRole → Permission → Bool
allowed_for viewer p = is_read p
allowed_for operator p = not (is_delete p)
allowed_for admin p = true

table : (role : UserRole) (p : Permission) → contains p (role_permissions role) ≡ allowed_for role p
unfolding role_permissions
table viewer service_read = refl
table viewer service_create = refl
table viewer service_update = refl
table viewer service_delete = refl
table viewer service_dependency_read = refl
table viewer service_dependency_write = refl
table viewer incident_read = refl
table viewer incident_create = refl
table viewer incident_update = refl
table viewer incident_delete = refl
table operator service_read = refl
table operator service_create = refl
table operator service_update = refl
table operator service_delete = refl
table operator service_dependency_read = refl
table operator service_dependency_write = refl
table operator incident_read = refl
table operator incident_create = refl
table operator incident_update = refl
table operator incident_delete = refl
table admin service_read = refl
table admin service_create = refl
table admin service_update = refl
table admin service_delete = refl
table admin service_dependency_read = refl
table admin service_dependency_write = refl
table admin incident_read = refl
table admin incident_create = refl
table admin incident_update = refl
table admin incident_delete = refl

-- A user has a permission exactly where the role allows it: an administrator has all, an operator all
-- but the deletions, and a viewer only the reads.
pub has_permission_lem : (u : User) (p : Permission) → has_permission u p ≡ allowed_for u.role p
unfolding has_permission
has_permission_lem u p = table u.role p

reads_are_no_deletes : (p : Permission) → is_read p ≡ true → not (is_delete p) ≡ true
reads_are_no_deletes service_read h = refl
reads_are_no_deletes service_dependency_read h = refl
reads_are_no_deletes incident_read h = refl
reads_are_no_deletes _ h = ground arith

allowed_mono :
    (r s : UserRole) (p : Permission)
    → rank r ≤ rank s
    → allowed_for r p ≡ true
    → allowed_for s p ≡ true
allowed_mono viewer viewer p h a = a
allowed_mono viewer operator p h a = reads_are_no_deletes p a
allowed_mono viewer admin p h a = refl
allowed_mono operator viewer p h a = absurd (omega arith)
allowed_mono operator operator p h a = a
allowed_mono operator admin p h a = refl
allowed_mono admin viewer p h a = absurd (omega arith)
allowed_mono admin operator p h a = absurd (omega arith)
allowed_mono admin admin p h a = refl

required : (u : User) (p : Permission) → require_permission u p ≡ ok tt → has_permission u p ≡ true
unfolding require_permission
required u p h = ground arith

-- A permission that a user passes, every user of the same or a higher role passes.
pub require_permission_mono :
    (u v : User) (p : Permission)
    → rank u.role ≤ rank v.role
    → require_permission u p ≡ ok tt
    → require_permission v p ≡ ok tt
unfolding require_permission
require_permission_mono u v p h passes =
    let allowed =
      allowed_mono u.role v.role p h (sym (has_permission_lem u p) ∙ required u p passes) in
    rw (has_permission_lem v p, allowed) refl
