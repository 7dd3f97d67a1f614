-- ===== src/Validator.antt =====
-- pkg/webhook/validation/validator.go: the admission webhook of ValidatingPolicies.
pub mod Admits
use kyverno_http_authorizer.Base.{
  String, Option, none, some, List, [], ◌∷◌, Bool, true, false, ◌==◌, if◌then◌else◌, is_empty,
}
use kyverno_http_authorizer.Policy
use kyverno_http_authorizer.Api.{evaluation_mode_http}
use kyverno_http_authorizer.Vpol.Compiler.{FieldError, Checked, accepted, rejected}

-- An object of the API: a policy, or an object of another type.
pub data Object : Type 0 where
  validating_policy : Policy.ValidatingPolicy → Object
  other_object : String → Object

pub data ValidationError : Type 0 where
  invalid_policy : String → List FieldError → ValidationError
  unexpected_type : String → ValidationError

-- The function that the command gives to NewValidator: the errors of a compilation.
abbrev pub compile_errors : {V : Type 0} → Checked V → List FieldError
compile_errors (accepted compiled) = []
compile_errors (rejected errs) = errs

module _ (compile_vpol : Policy.ValidatingPolicy → List FieldError) where
  abbrev pub reject_errors : Policy.ValidatingPolicy → Option ValidationError
  reject_errors policy =
      if is_empty (compile_vpol policy)
      then none
      else some (invalid_policy policy.name (compile_vpol policy))

  abbrev pub validate_mode :
      Option Policy.EvaluationConfiguration → Policy.ValidatingPolicy → Option ValidationError
  validate_mode none policy = none
  validate_mode (some c) policy =
      if c.mode == evaluation_mode_http then reject_errors policy else none

  -- validateVpol: a result `none` is no error.
  unfoldable pub validate_vpol : Policy.ValidatingPolicy → Option ValidationError
  validate_vpol policy = validate_mode policy.spec.evaluation_configuration policy

  -- ValidateCreate
  unfoldable pub validate_create : Object → Option ValidationError
  unfolding validate_vpol
  validate_create (validating_policy policy) = validate_vpol policy
  validate_create (other_object t) = some (unexpected_type t)

  -- ValidateUpdate: the old object is not looked at.
  unfoldable pub validate_update : Object → Object → Option ValidationError
  unfolding validate_vpol
  validate_update old (validating_policy policy) = validate_vpol policy
  validate_update old (other_object t) = some (unexpected_type t)

  -- ValidateDelete
  unfoldable pub validate_delete : Object → Option ValidationError
  validate_delete obj = none
