-- ===== src/Tests/Data.antt =====
-- A small expression language in place of cel-go, and requests and policies to run the model on.
use kyverno_http_authorizer.Base.{
  ℕ, pos, String, Option, none, some, List, [], ◌∷◌, Bool, true, false, Result, ok, err, Error, ◌⊎◌,
  inl, inr, refl, ◌==◌, if◌then◌else◌,
}
use kyverno_http_authorizer.Policy
use kyverno_http_authorizer.Http.{Request, Response, ServerRequest}
use kyverno_http_authorizer.Vpol.Runtime.{Runtime, IsCombine}
use kyverno_http_authorizer.Vpol.Policy.{CompiledVpol}
use kyverno_http_authorizer.Vpol.Compiler.{CelEnv}
use kyverno_http_authorizer.Cel.Variables.{InnerProvider}

-- What an expression evaluates to.
pub data Script : Type 0 where
  says : Bool → Script
  fails : Error → Script
  denies : Script
  passes : Script

pub data Value : Type 0 where
  boolean : Bool → Value
  response : Response → Value
  null : Value
  problem : Error → Value

abbrev pub denial : Response
denial = record { status = pos 403; headers = none; body = "denied" }

abbrev pub run_script : Script → Option Value × Option Error
run_script (says b) = (some (boolean b), none)
run_script (fails e) = (none, some e)
run_script denies = (some (response denial), none)
run_script passes = (some null, none)

abbrev pub bool_of : Value → Option Bool
bool_of (boolean b) = some b
bool_of (response r) = none
bool_of null = none
bool_of (problem e) = none

abbrev pub null_test : Value → Bool
null_test null = true
null_test (boolean b) = false
null_test (response r) = false
null_test (problem e) = false

abbrev pub response_of : Value → Option (Option Response)
response_of (response r) = some (some r)
response_of (boolean b) = none
response_of null = none
response_of (problem e) = none

abbrev pub first_error : List Error → Option Error
first_error [] = none
first_error (e ∷ es) = some e

abbrev pub scripts : Runtime Unit
scripts = record {
  Program = Script;
  Val = Value;
  Any = Value;
  eval = λ p act. run_script p;
  to_bool = λ v. ok v;
  as_bool = bool_of;
  is_null = null_test;
  value = λ v. some v;
  as_response = response_of;
  wrap_err = problem;
  combine = first_error;
}

pub first_error-IsCombine : IsCombine first_error
first_error-IsCombine = record { combine_nil = refl; combine_cons = λ e es. refl }

pub data Kind : Type 0 where
  bool_kind answer_kind null_kind : Kind

abbrev pub same_kind : Kind → Kind → Bool
same_kind bool_kind bool_kind = true
same_kind bool_kind answer_kind = false
same_kind bool_kind null_kind = false
same_kind answer_kind bool_kind = false
same_kind answer_kind answer_kind = true
same_kind answer_kind null_kind = false
same_kind null_kind bool_kind = false
same_kind null_kind answer_kind = false
same_kind null_kind null_kind = true

abbrev pub kind_of : Script → Kind
kind_of (says b) = bool_kind
kind_of (fails e) = bool_kind
kind_of denies = answer_kind
kind_of passes = null_kind

abbrev pub parse : String → Error ⊎ Script
parse e =
    if e == "true"
    then inr (says true)
    else (if e == "deny"
        then inr denies
        else (if e == "null" then inr passes else inl "syntax error"))

abbrev pub failure_policy_of : Option String → String
failure_policy_of none = "Fail"
failure_policy_of (some fp) = fp

abbrev pub no_types : InnerProvider Kind Value
no_types = record {
  find_struct_type = λ t. none;
  find_struct_field_names = λ t. none;
  find_struct_field_type = λ t f. none;
  enum_value = λ name. null;
  find_ident = λ name. none;
  new_value = λ t fields. null;
}

abbrev pub script_env : CelEnv
script_env = record {
  Env = Unit;
  Ast = Script;
  Ty = Kind;
  Val = Value;
  Program = Script;
  new_env = inr tt;
  cel_type_provider = λ env. no_types;
  extend = λ env. inr env;
  compile = λ env vars e. parse e;
  output_type = kind_of;
  is_exact_type = same_kind;
  bool_type = bool_kind;
  response_type = answer_kind;
  null_type = null_kind;
  program = λ env ast. inr ast;
  get_failure_policy = λ p. failure_policy_of p.spec.failure_policy;
}

abbrev pub condition : String → Policy.MatchCondition
condition e = record { name = "condition"; expression = e }

abbrev pub rule : String → Policy.Validation
rule e = record { expression = e; message = ""; reason = none; message_expression = "" }

-- A policy of the HTTP mode that denies every request.
abbrev pub deny_all : Policy.ValidatingPolicy
deny_all = record {
  name = "deny-all";
  spec = record {
    validations = rule "null" ∷ rule "deny" ∷ [];
    variables = record { name = "always"; expression = "true" } ∷ [];
    match_conditions = condition "true" ∷ [];
    failure_policy = none;
    evaluation_configuration = some (record { mode = "HTTP" });
  };
}

abbrev pub compiled_deny_all : CompiledVpol Script
compiled_deny_all = record {
  failure_policy = "Fail";
  match_conditions = says true ∷ [];
  variables = ("always", says true) ∷ [];
  rules = passes ∷ denies ∷ [];
}

-- A policy whose only rule fails, under the given failure policy.
abbrev pub failing : String → CompiledVpol Script
failing fp = record {
  failure_policy = fp;
  match_conditions = [];
  variables = [];
  rules = fails "no such key" ∷ [];
}

abbrev pub get_request : ServerRequest
get_request = record {
  method = "GET";
  header = [];
  url_path = "/";
  url_query = [];
  url_fragment = "";
  url_scheme = "";
  host = "example.com";
  proto = "HTTP/1.1";
  body = ok [];
}

abbrev pub checked_request : Request
checked_request = record {
  method = "GET";
  headers = some (record { inner = some [] });
  path = "/";
  host = "example.com";
  scheme = "";
  query = some (record { inner = some [] });
  fragment = "";
  size = 0;
  protocol = "HTTP/1.1";
  body = [];
  raw_body = [];
}

-- http.ReadRequest on a body that is no request.
abbrev pub no_nested : Result (List ℕ) → Result ServerRequest
no_nested body = err "malformed HTTP request"
