-- ===== src/Vpol/Policy.antt =====
-- pkg/engine/vpol/compiler/policy.go: how a compiled policy answers a request. Each OnceValues
-- function is called once.
use kyverno_http_authorizer.Base.{
  String, Option, none, some, List, [], ◌∷◌, ◌++◌, Bool, true, false, Result, ok, err, panic, Error,
  ◌>>=◌, deref, ◌==◌, if◌then◌else◌,
}
use kyverno_http_authorizer.GoMap.{GoMap}
use kyverno_http_authorizer.Http.{Request}
use kyverno_http_authorizer.Cel.{convert_to_native}
use kyverno_http_authorizer.Engine.{CompiledPolicy, RequestFunc}
use kyverno_http_authorizer.Vpol.Runtime.{Activation, Runtime}

-- compiledPolicy
pub record CompiledVpol (Program : Type 0) : Type 0 where
  pub failure_policy : String
  pub match_conditions : List Program
  pub variables : GoMap Program
  pub rules : List Program

-- admissionregistrationv1.Fail
abbrev pub fail : String
fail = "Fail"

module _ {R : Type 0} (rt : Runtime R) where
  open rt use {Program, Val, eval, to_bool, as_bool, is_null, value, as_response, wrap_err, combine}

  -- One round of the loop in `match`: a condition's value or its error.
  unfoldable pub eval_condition : Program → Activation R Program → Result Bool
  eval_condition match_condition act = elim (eval match_condition act).1 [
    | some e ↦ err e
    | none ↦ do out ← deref (eval match_condition act).0; convert_to_native (to_bool out) as_bool
  ]

  abbrev pub combined : List Error → Result Bool
  combined errs = elim (combine errs) [ none ↦ ok true | some e ↦ err e ]

  -- The loop in `match`; `errs` holds the errors so far.
  unfoldable pub match_loop : Activation R Program → List Error → List Program → Result Bool
  match_loop act errs [] = combined errs
  match_loop act errs (c ∷ cs) = elim (eval_condition c act) [
    | err e ↦ match_loop act (errs ++ e ∷ []) cs
    | panic ↦ panic
    | ok result ↦ elim result [ true ↦ match_loop act errs cs | false ↦ ok false ]
  ]

  -- The data of the match conditions.
  abbrev pub match_data : Request → Activation R Program
  match_data req = record { object = req; http = false; resource = none; variables = none }

  -- `match`
  unfoldable pub match_all : CompiledVpol Program → Request → Result Bool
  unfolding match_loop
  match_all p req = match_loop (match_data req) [] p.match_conditions

  -- The callback that the lazy map runs for a variable.
  unfoldable pub variable_value : Program → Activation R Program → Option Val
  variable_value variable act = elim (eval variable act).0 [
    | some out ↦ some out
    | none ↦ elim (eval variable act).1 [ some e ↦ some (wrap_err e) | none ↦ none ]
  ]

  -- `variables`: the data of the rules.
  abbrev pub rule_data : CompiledVpol Program → R → Request → Activation R Program
  rule_data p ctx req = record {
    object = req;
    http = true;
    resource = some ctx;
    variables = some p.variables;
  }

  unfoldable pub evaluate_http : Program → Activation R Program → RequestFunc
  evaluate_http rule act = elim (eval rule act).1 [
    | some e ↦ err e
    | none ↦ elim (eval rule act).0 [
      | none ↦ ok none
      | some out ↦ if is_null out then ok none else elim (value out) [
        | none ↦ ok none
        | some v ↦ elim (as_response v) [
          | some response ↦ ok response
          | none ↦ err "rule result is expected to be http.Response"
        ]
      ]
    ]
  ]

  -- The loop over the rules.
  unfoldable pub rules_loop : Activation R Program → List Program → RequestFunc
  rules_loop act [] = ok none
  rules_loop act (rule ∷ rest) = elim (evaluate_http rule act) [
    | err e ↦ err e
    | panic ↦ panic
    | ok response ↦ elim response [ some r ↦ ok (some r) | none ↦ rules_loop act rest ]
  ]

  -- `rules`
  unfoldable pub run_rules : CompiledVpol Program → R → Request → RequestFunc
  run_rules p ctx req = elim (match_all p req) [
    | err e ↦ err e
    | panic ↦ panic
    | ok matched ↦ elim matched [
      | true ↦ rules_loop (rule_data p ctx req) p.rules
      | false ↦ ok none
    ]
  ]

  -- `failurePolicy`: an error of `inner` comes with a nil response.
  unfoldable pub apply_failure_policy : CompiledVpol Program → RequestFunc → RequestFunc
  apply_failure_policy p inner = elim inner [
    | ok response ↦ ok response
    | panic ↦ panic
    | err e ↦ if p.failure_policy == fail then err e else ok none
  ]

  -- ForHTTP
  unfoldable pub for_http : CompiledVpol Program → R → Request → RequestFunc
  unfolding run_rules apply_failure_policy
  for_http p ctx req = apply_failure_policy p (run_rules p ctx req)

  abbrev pub as_compiled_policy : CompiledVpol Program → CompiledPolicy R
  as_compiled_policy p = record { for_http = for_http p }
