-- ===== src/Roles.antt =====
-- crates/factory-core/src/roles.rs and crates/factory-types/src/artifact.rs: execution classes, and
-- the operations that a role of a class may perform.
pub mod Compatible
use agentic_software_factory.Prelude.{
  ℕ, Bool, true, false, List, [], ◌∷◌, ◌++◌, ◌==◌, any, if◌then◌else◌, Str, str, str_eq, contains,
  join, map, Option, none, some, Result, ok, err,
}

abbrev pub planner : Str
planner = str "planner"

abbrev pub worker : Str
worker = str "worker"

abbrev pub reviewer : Str
reviewer = str "reviewer"

abbrev pub architect : Str
architect = str "architect"

abbrev pub researcher : Str
researcher = str "researcher"

abbrev pub test_engineer : Str
test_engineer = str "test_engineer"

abbrev pub security_auditor : Str
security_auditor = str "security_auditor"

abbrev pub documentation_writer : Str
documentation_writer = str "documentation_writer"

abbrev pub core_role_ids : List Str
core_role_ids =
    planner ∷ worker ∷ reviewer ∷ architect ∷ researcher ∷ test_engineer ∷ security_auditor
    ∷ documentation_writer ∷ []

abbrev pub pipeline_role_ids : List Str
pipeline_role_ids = planner ∷ worker ∷ reviewer ∷ []

pub data ExecutionClass : Type 0 where
  planning execution review advisory post_process : ExecutionClass

pub data TaskOperation : Type 0 where
  op_planning op_advisory op_implement op_verify op_review op_post_process : TaskOperation

pub data ArtifactKind : Type 0 where
  kind_research kind_architecture kind_analysis kind_review kind_verification
        kind_documentation_context :
      ArtifactKind

abbrev pub op_rank : TaskOperation → ℕ
op_rank op_planning = 0
op_rank op_advisory = 1
op_rank op_implement = 2
op_rank op_verify = 3
op_rank op_review = 4
op_rank op_post_process = 5

-- The derived equality.
abbrev pub same_op : TaskOperation → TaskOperation → Bool
same_op a b = op_rank a == op_rank b

pub data RoleKind : Type 0 where
  core custom : RoleKind

pub record RoleDefinition : Type 0 where
  pub id : Str
  pub name : Str
  pub description : Str
  pub instructions : Str
  pub execution_class : ExecutionClass
  pub kind : RoleKind

-- The definitions by their role's id.
abbrev pub RoleCatalog : Type 0
RoleCatalog = List (Str × RoleDefinition)

-- `ExecutionClass::as_str`
unfoldable pub class_as_str : ExecutionClass → Str
class_as_str planning = str "planning"
class_as_str execution = str "execution"
class_as_str review = str "review"
class_as_str advisory = str "advisory"
class_as_str post_process = str "post_process"

-- `TaskOperation::as_str`
unfoldable pub op_as_str : TaskOperation → Str
op_as_str op_planning = str "planning"
op_as_str op_advisory = str "advisory"
op_as_str op_implement = str "implement"
op_as_str op_verify = str "verify"
op_as_str op_review = str "review"
op_as_str op_post_process = str "post_process"

-- `TaskOperation::from_str`
unfoldable pub op_from_str : Str → Result TaskOperation Str
op_from_str s =
    if str_eq s (str "planning")
    then ok op_planning
    else if str_eq s (str "advisory")
    then ok op_advisory
    else if str_eq s (str "implement")
    then ok op_implement
    else if str_eq s (str "verify")
    then ok op_verify
    else if str_eq s (str "review")
    then ok op_review
    else if str_eq s (str "post_process")
    then ok op_post_process
    else err (str "unknown task operation '" ++ (s ++ str "'"))

unfoldable pub compatible_operations : ExecutionClass → List TaskOperation
compatible_operations planning = op_planning ∷ []
compatible_operations advisory = op_advisory ∷ []
compatible_operations execution = op_implement ∷ op_verify ∷ []
compatible_operations review = op_review ∷ []
compatible_operations post_process = op_post_process ∷ op_implement ∷ []

unfoldable pub validate_operation_compatibility :
    Str → ExecutionClass → TaskOperation → Result (Unit {0}) Str
unfolding compatible_operations class_as_str op_as_str
validate_operation_compatibility role_id class operation =
    if any (same_op operation) (compatible_operations class)
    then ok tt
    else err (
        str "role '"
        ++ (role_id
            ++ (str "' (execution class "
                ++ (class_as_str class
                    ++ (str ") cannot perform operation '"
                        ++ (op_as_str operation
                            ++ (str "'; compatible operations: "
                                ++ join (str ", ")
                                    (map op_as_str (compatible_operations class)))))))))

unfoldable pub default_operation_for_role : Str → ExecutionClass → TaskOperation
default_operation_for_role id class = if str_eq id test_engineer then op_verify else elim class [
  | planning ↦ op_planning
  | advisory ↦ op_advisory
  | execution ↦ op_implement
  | review ↦ op_review
  | post_process ↦ op_post_process
]

unfoldable pub artifact_kind_for : Str → TaskOperation → ArtifactKind
artifact_kind_for role_id operation =
    if str_eq role_id researcher
    then kind_research
    else if str_eq role_id architect
    then kind_architecture
    else elim operation [
      | op_verify ↦ kind_verification
      | op_review ↦ kind_review
      | op_post_process ↦ kind_documentation_context
      | op_advisory ↦ kind_analysis
      | op_implement ↦ kind_analysis
      | op_planning ↦ kind_analysis
    ]

pub is_core_role : Str → Bool
is_core_role id = contains core_role_ids id

pub is_pipeline_role : Str → Bool
is_pipeline_role id = contains pipeline_role_ids id
