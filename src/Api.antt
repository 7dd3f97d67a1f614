-- ===== src/Api.antt =====
-- apis/v1alpha1/validating_policy.go: the resource to its message and back.
pub mod RoundTrip
use kyverno_http_authorizer.Base.{
  String, Option, none, some, List, map, Bool, false, Result, ok, ◌>>=◌, deref, traverse,
}
use kyverno_http_authorizer.Policy
use kyverno_http_authorizer.Proto

-- EvaluationModeHTTP
abbrev pub evaluation_mode_http : String
evaluation_mode_http = "HTTP"

abbrev pub validation_to_proto : Policy.Validation → Proto.Validation
validation_to_proto v = record {
  expression = v.expression;
  message = some v.message;
  reason = v.reason;
  message_expression = none;
}

abbrev pub variable_to_proto : Policy.Variable → Proto.Variable
variable_to_proto v = record { name = v.name; expression = v.expression }

abbrev pub match_condition_to_proto : Policy.MatchCondition → Proto.MatchCondition
match_condition_to_proto m = record { name = m.name; expression = m.expression }

abbrev pub failure_policy_to_proto : Option String → String
failure_policy_to_proto none = "Ignore"
failure_policy_to_proto (some fp) = fp

-- ToProto
unfoldable pub to_proto : Policy.ValidatingPolicy → Proto.ValidatingPolicy
to_proto pol = record {
  name = pol.name;
  deleted = false;
  spec = some (record {
    validations = map validation_to_proto pol.spec.validations;
    failure_policy = some (failure_policy_to_proto pol.spec.failure_policy);
    match_conditions = map match_condition_to_proto pol.spec.match_conditions;
    variables = map variable_to_proto pol.spec.variables;
    validation_actions = "";
  });
}

-- `*v.Message` panics on a message that is not set.
abbrev pub validation_from_proto : Proto.Validation → Result Policy.Validation
validation_from_proto v = do
  message ← deref v.message
  ok (record {
    expression = v.expression;
    message = message;
    reason = v.reason;
    message_expression = "";
  })

abbrev pub variable_from_proto : Proto.Variable → Policy.Variable
variable_from_proto v = record { name = v.name; expression = v.expression }

abbrev pub match_condition_from_proto : Proto.MatchCondition → Policy.MatchCondition
match_condition_from_proto m = record { name = m.name; expression = m.expression }

-- FromProto: `pol.Spec` and `*pol.Spec.FailurePolicy` panic where they are nil.
unfoldable pub from_proto : Proto.ValidatingPolicy → Result Policy.ValidatingPolicy
unfolding traverse
from_proto pol = do
  spec ← deref pol.spec
  validations ← traverse validation_from_proto spec.validations
  fp ← deref spec.failure_policy
  ok (record {
    name = pol.name;
    spec = record {
      validations = validations;
      variables = map variable_from_proto spec.variables;
      match_conditions = map match_condition_from_proto spec.match_conditions;
      failure_policy = some fp;
      evaluation_configuration = none;
    };
  })
