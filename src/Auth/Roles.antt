-- ===== src/Auth/Roles.antt =====
-- service.go and middleware.go: what each role may do.
use open_machine_core.Prelude.{String, ◌≡◌, ◌↔◌, ◌⊎◌, true, eq_iff, arith}
use open_machine_core.Auth.{
  Permission, perm_operator, perm_technician, perm_admin, perm_other, role_to_permissions,
  require_permission,
}

-- Who may pass a request that needs a permission.
abbrev pub May : Permission → String → Type 0
May perm_operator role = Unit
May perm_technician role = (role ≡ "technician") ⊎ (role ≡ "admin")
May perm_admin role = role ≡ "admin"
May (perm_other p) role = ⊥

-- A user passes a request that needs the operator's permission in every role, one that needs the
-- technician's as a technician or an admin, and one that needs the admin's as an admin only; no role has any other permission.
pub require_permission-role_to_permissions :
    (required : Permission) (role : String)
    → (require_permission required (role_to_permissions role) ≡ true) ↔ May required role
unfolding require_permission role_to_permissions
require_permission-role_to_permissions perm_operator role =
    ground (arith, eq_iff role "admin", eq_iff role "technician")
require_permission-role_to_permissions perm_technician role =
    ground (arith, eq_iff role "admin", eq_iff role "technician")
require_permission-role_to_permissions perm_admin role =
    ground (arith, eq_iff role "admin", eq_iff role "technician")
require_permission-role_to_permissions (perm_other p) role =
    ground (arith, eq_iff role "admin", eq_iff role "technician")
