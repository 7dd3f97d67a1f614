-- ===== src/Api/RoundTrip.antt =====
-- What survives the way of a policy from the control plane to a sidecar.
use mathlib.Core.Option
use kyverno_http_authorizer.Base.{
  Option, String, none, some, List, [], ◌∷◌, map, ◌≡◌, refl, ok, traverse,
}
use kyverno_http_authorizer.Policy
use kyverno_http_authorizer.Api.{
  validation_to_proto, variable_to_proto, match_condition_to_proto, failure_policy_to_proto,
  validation_from_proto, variable_from_proto, match_condition_from_proto, to_proto, from_proto,
}

-- What a sidecar knows of a validation: the message's expression is gone.
abbrev pub sent_validation : Policy.Validation → Policy.Validation
sent_validation v = record v { message_expression = "" }

-- What a sidecar knows of a policy: further, the failure policy is set, and the evaluation
-- configuration is gone.
abbrev pub sent : Policy.ValidatingPolicy → Policy.ValidatingPolicy
sent p = record {
  name = p.name;
  spec = record {
    validations = map sent_validation p.spec.validations;
    variables = p.spec.variables;
    match_conditions = p.spec.match_conditions;
    failure_policy = some (Option.get_or p.spec.failure_policy "Ignore");
    evaluation_configuration = none;
  };
}

traverse-validations :
    (vs : List Policy.Validation)
    → traverse validation_from_proto (map validation_to_proto vs) ≡ ok (map sent_validation vs)
unfolding traverse
traverse-validations [] = refl
traverse-validations (v ∷ vs) = rw (traverse-validations vs)

map-variables :
    (vs : List Policy.Variable) → map variable_from_proto (map variable_to_proto vs) ≡ vs
map-variables [] = refl
map-variables (v ∷ vs) = rw (map-variables vs)

map-match_conditions :
    (ms : List Policy.MatchCondition)
    → map match_condition_from_proto (map match_condition_to_proto ms) ≡ ms
map-match_conditions [] = refl
map-match_conditions (m ∷ ms) = rw (map-match_conditions ms)

failure_policy_sent : (o : Option String) → failure_policy_to_proto o ≡ Option.get_or o "Ignore"
failure_policy_sent none = refl
failure_policy_sent (some fp) = refl

-- A policy that was converted to its message converts back without a panic. Its name, its variables,
-- its match conditions, and the expressions, messages and reasons of its validations are what they
-- were; the failure policy is the policy's own or else Ignore; message expressions and the
-- evaluation configuration are lost.
pub from_proto-to_proto : (p : Policy.ValidatingPolicy) → from_proto (to_proto p) ≡ ok (sent p)
unfolding from_proto to_proto
from_proto-to_proto p = rw (
  failure_policy_sent p.spec.failure_policy,
  traverse-validations p.spec.validations,
  map-variables p.spec.variables,
  map-match_conditions p.spec.match_conditions,
)
