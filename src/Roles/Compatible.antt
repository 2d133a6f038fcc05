-- ===== src/Roles/Compatible.antt =====
-- The default operation of a role and the operations of its class.
use agentic_software_factory.Prelude.{◌≡◌, ◌↔◌, ◌⊎◌, arith, false, Str, str_eq, ok}
use agentic_software_factory.Roles.{
  ExecutionClass, planning, execution, test_engineer, compatible_operations,
  validate_operation_compatibility, default_operation_for_role,
}

-- The operation that a task defaults to is one that its role may perform exactly if the role is not
-- the test engineer or its class is `execution`.
pub default-compatible :
    (id : Str) (class : ExecutionClass)
    → (validate_operation_compatibility id class (default_operation_for_role id class) ≡ ok tt)
      ↔ ((str_eq id test_engineer ≡ false) ⊎ (class ≡ execution))
unfolding validate_operation_compatibility default_operation_for_role compatible_operations
default-compatible id planning = (λ e. ground (arith, e), λ h. ground (arith, h))
default-compatible id _ = (λ e. ground (arith, e), λ h. ground (arith, h))
