-- ===== src/Authorization.antt =====
-- backend/app/domain/authorization.py and backend/app/services/authorization_service.py.
pub mod Roles
use opsflow.Prelude.{
  Bool, true, false, ◌||◌, List, [], ◌∷◌, Result, ok, err, if◌then◌else◌, ℕ, ◌==◌,
}
use opsflow.Auth.Users.{UserRole, viewer, operator, admin, User}

pub data Permission : Type 0 where
  service_read service_create service_update service_delete : Permission
  service_dependency_read service_dependency_write : Permission
  incident_read incident_create incident_update incident_delete : Permission

-- The position of a permission in the enumeration, by which it is compared.
abbrev pub position : Permission → ℕ
position service_read = 0
position service_create = 1
position service_update = 2
position service_delete = 3
position service_dependency_read = 4
position service_dependency_write = 5
position incident_read = 6
position incident_create = 7
position incident_update = 8
position incident_delete = 9

-- `ROLE_PERMISSIONS`
unfoldable pub role_permissions : UserRole → List Permission
role_permissions viewer = service_read ∷ service_dependency_read ∷ incident_read ∷ []
role_permissions operator =
    service_read ∷ service_create ∷ service_update ∷ service_dependency_read
    ∷ service_dependency_write ∷ incident_read ∷ incident_create ∷ incident_update ∷ []
role_permissions admin =
    service_read ∷ service_create ∷ service_update ∷ service_delete ∷ service_dependency_read
    ∷ service_dependency_write ∷ incident_read ∷ incident_create ∷ incident_update ∷ incident_delete
    ∷ []

abbrev pub contains : Permission → List Permission → Bool
contains p [] = false
contains p (q ∷ permissions) = (position q == position p) || contains p permissions

unfoldable pub has_permission : User → Permission → Bool
unfolding role_permissions
has_permission user permission = contains permission (role_permissions user.role)

pub data PermissionDenied : Type 0 where
  permission_denied : UserRole → Permission → PermissionDenied

unfoldable pub require_permission : User → Permission → Result PermissionDenied (Unit {0})
unfolding has_permission
require_permission user permission =
    if has_permission user permission then ok tt else err (permission_denied user.role permission)
