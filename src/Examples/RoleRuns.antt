-- ===== src/Examples/RoleRuns.antt =====
-- Runs of the authorization service on an operator and an administrator.
use opsflow.Prelude.{◌≡◌, false, true}
use opsflow.Auth.Users.{User, operator, admin}
use opsflow.Authorization.{service_delete, has_permission}
use opsflow.Authorization.Roles.{has_permission_lem}

abbrev bob : User
bob = record {
  id = 1;
  email = "bob@example.com";
  full_name = "Bob";
  role = operator;
  is_active = true;
  created_at = 0;
  updated_at = 0;
}

abbrev eve : User
eve = record bob { id = 2; role = admin }

has_permission_lem_example : has_permission bob service_delete ≡ false
has_permission_lem_example = has_permission_lem bob service_delete
