-- ===== src/Proto.antt =====
-- The messages of proto/validatingpolicy/v1alpha1/validatingpolicy.pb.go that the control plane and
-- the sidecars exchange. An optional field or a message is an `Option`; a time is a number of
-- nanoseconds.
use kyverno_http_authorizer.Base.{ℕ, String, Option, List, Bool}

pub record Validation : Type 0 where
  pub expression : String
  pub message : Option String
  pub reason : Option String
  pub message_expression : Option String

pub record MatchCondition : Type 0 where
  pub name : String
  pub expression : String

pub record Variable : Type 0 where
  pub name : String
  pub expression : String

pub record ValidatingPolicySpec : Type 0 where
  pub validations : List Validation
  pub failure_policy : Option String
  pub match_conditions : List MatchCondition
  pub variables : List Variable
  pub validation_actions : String

pub record ValidatingPolicy : Type 0 where
  pub name : String
  pub deleted : Bool
  pub spec : Option ValidatingPolicySpec

pub record ValidatingPolicyStreamRequest : Type 0 where
  pub client_address : String

pub record HealthCheckRequest : Type 0 where
  pub client_address : String
  pub time : Option ℕ
