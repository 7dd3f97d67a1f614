-- ===== src/Policy.antt =====
-- The ValidatingPolicy resource of policies.kyverno.io/v1alpha1, as
-- pkg/data/crds/policies.kyverno.io_validatingpolicies.yaml lays it out: the fields that the program
-- reads. A pointer is an `Option`.
use kyverno_http_authorizer.Base.{String, Option, List}

pub record Validation : Type 0 where
  pub expression : String
  pub message : String
  pub reason : Option String
  pub message_expression : String

pub record Variable : Type 0 where
  pub name : String
  pub expression : String

pub record MatchCondition : Type 0 where
  pub name : String
  pub expression : String

pub record EvaluationConfiguration : Type 0 where
  pub mode : String

pub record ValidatingPolicySpec : Type 0 where
  pub validations : List Validation
  pub variables : List Variable
  pub match_conditions : List MatchCondition
  pub failure_policy : Option String
  pub evaluation_configuration : Option EvaluationConfiguration

pub record ValidatingPolicy : Type 0 where
  pub name : String
  pub spec : ValidatingPolicySpec
